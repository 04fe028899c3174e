-- ===== src/Store/Ring.antt =====
-- internal/store/execution.go: the ring buffer lists the newest executions, newest first.
use native.Mathlib.Nat.{mod-eq_of_lt, mod-eq-sub-mod}
use tailflow_agent.Prelude.{
  ℕ, zero, suc, ◌+◌, ◌-◌, ◌%◌, ◌≤◌, ◌<◌, ◌≡◌, ◌≢◌, refl, sym, ◌∙◌, ap, inl, inr, Option, none, some,
  List, [], ◌∷◌, ◌++◌, arith, length, get_elem?, set, take, if◌then◌else◌, leb, ltb, eqb,
  Bool-cases, Option-cases, length-set, length-replicate, get_elem?-set_self, get_elem?-set_ne,
}
use tailflow_agent.Prelude.Dict.{insert}
use tailflow_agent.Prelude.Int.{ℤ, pos, negsuc}
use tailflow_agent.Store.{
  Execution, ExecutionStore, usable_capacity, new_execution_store, stored, evict, add, slot,
  collect, list,
}

mod_wrap : {a c : ℕ} → c ≤ a → a < c + c → a % c ≡ a - c
mod_wrap le lt = mod-eq-sub-mod le ∙ mod-eq_of_lt (omega arith)

-- The slots of the last `count` executions are filled.
pub record IsValid (s : ExecutionStore) : Type 0 where
  pub room : length s.buffer ≡ s.capacity
  pub head_lt : s.head < s.capacity
  pub count_le : s.count ≤ s.capacity
  pub filled : (i : ℕ) → i < s.count → (e : Execution) × (stored s (slot s i) ≡ some e)

-- The slot of a round, and the head after an addition, without the remainder.
slot_eq :
    (h c i : ℕ)
    → h < c
    → i < c
    → (h + c - 1 - i) % c ≡ (if ltb i h then h - 1 - i else h + c - 1 - i)
slot_eq h c i hc ic = elim (Bool-cases (ltb i h)) [
  | inl low ↦ rw low (mod_wrap (ground arith) (omega arith) ∙ ground arith)
  | inr high ↦ rw high (mod-eq_of_lt (ground arith))
]

next_eq : (h c : ℕ) → h < c → (h + 1) % c ≡ (if eqb (h + 1) c then 0 else h + 1)
next_eq h c hc = elim (Bool-cases (eqb (h + 1) c)) [
  | inl last ↦ rw last (mod_wrap (ground arith) (omega arith) ∙ ground arith)
  | inr more ↦ rw more (mod-eq_of_lt (ground arith))
]

next_lt : (h c : ℕ) → h < c → (h + 1) % c < c
next_lt h c hc = ground (arith, next_eq h c hc)

newest_slot : (h c : ℕ) → h < c → ((h + 1) % c + c - 1 - 0) % c ≡ h
newest_slot h c hc =
    ground (arith, next_eq h c hc, slot_eq ((h + 1) % c) c 0 (next_lt h c hc) (omega arith))

older_slot :
    (h c i : ℕ) → h < c → suc i < c → ((h + 1) % c + c - 1 - suc i) % c ≡ (h + c - 1 - i) % c
older_slot h c i hc ic = ground (
  arith,
  next_eq h c hc,
  slot_eq ((h + 1) % c) c (suc i) (next_lt h c hc) ic,
  slot_eq h c i hc (omega arith),
)

other_slot : (h c i : ℕ) → h < c → suc i < c → h ≢ (h + c - 1 - i) % c
other_slot h c i hc ic e = absurd (ground (arith, slot_eq h c i hc (omega arith)))

slot_lt : (h c i : ℕ) → h < c → i < c → (h + c - 1 - i) % c < c
slot_lt h c i hc ic = ground (arith, slot_eq h c i hc ic)

-- A read of the heap is the same after it has grown.
pub get_elem?-append :
    (A : Type 0) (xs ys : List A) (i : ℕ) (v : A)
    → get_elem? xs i ≡ some v
    → get_elem? (xs ++ ys) i ≡ some v
get_elem?-append A [] ys i v e = absurd (cc e)
get_elem?-append A (x ∷ xs) ys zero v e = e
get_elem?-append A (x ∷ xs) ys (suc i) v e = get_elem?-append A xs ys i v e

pub get_elem?-last :
    (A : Type 0) (xs : List A) (v : A) → get_elem? (xs ++ v ∷ []) (length xs) ≡ some v
get_elem?-last A [] v = refl
get_elem?-last A (x ∷ xs) v = get_elem?-last A xs v

-- What an addition does to the ring; whether it evicts is not seen there.
pub record Added (e : Execution) (s t : ExecutionStore) : Type 0 where
  pub heap : t.heap ≡ s.heap ++ e ∷ []
  pub buffer : t.buffer ≡ set s.buffer s.head (some (length s.heap))
  pub capacity : t.capacity ≡ s.capacity
  pub head : t.head ≡ (s.head + 1) % s.capacity
  pub count : t.count ≡ (if ltb s.count s.capacity then s.count + 1 else s.count)

abbrev added : (e : Execution) (s t : ExecutionStore) → ExecutionStore
added e s t = record t {
  heap = t.heap ++ e ∷ [];
  buffer = set t.buffer t.head (some (length t.heap));
  by_id = insert e.id (length t.heap) t.by_id;
  head = (t.head + 1) % t.capacity;
  count = if ltb t.count t.capacity then t.count + 1 else t.count;
}

Added-refl : (e : Execution) (s : ExecutionStore) → Added e s (added e s s)
Added-refl e s = record { heap = refl; buffer = refl; capacity = refl; head = refl; count = refl }

evict-Added : (e : Execution) (s : ExecutionStore) → Added e s (added e s (evict s))
unfolding evict
evict-Added e s = elim (Option-cases (stored s s.head)) [
  | inl none_there ↦ rw (none_there, evict) (Added-refl e s)
  | inr (old, there) ↦
      rw (there, evict)
        (record { heap = refl; buffer = refl; capacity = refl; head = refl; count = refl })
]

pub add-Added : (e : Execution) (s : ExecutionStore) → Added e s (add e s)
unfolding add
add-Added e s = elim (Bool-cases (leb s.capacity s.count)) [
  | inl full ↦ rw (full, add) (evict-Added e s)
  | inr free ↦ rw (free, add) (Added-refl e s)
]

-- How an execution is stored: a pointer in the buffer, and its cell.
record Cell (s : ExecutionStore) (j : ℕ) (x : Execution) : Type 0 where
  ref : ℕ
  in_buffer : get_elem? s.buffer j ≡ some (some ref)
  in_heap : get_elem? s.heap ref ≡ some x

pointed_at :
    (s : ExecutionStore) (j : ℕ) (x : Execution) (o : Option (Option ℕ))
    → get_elem? s.buffer j ≡ o
    → stored s j ≡ some x
    → Cell s j x
pointed_at s j x none b e = absurd (cc (rw (b, stored) at e))
pointed_at s j x (some none) b e = absurd (cc (rw (b, stored) at e))
pointed_at s j x (some (some r)) b e = record {
  ref = r;
  in_buffer = b;
  in_heap = rw (b, stored) at e;
}

stored-Cell : (s : ExecutionStore) (j : ℕ) (x : Execution) → Cell s j x → stored s j ≡ some x
stored-Cell s j x c = rw (c.in_buffer, stored) c.in_heap

collect_filled :
    (s : ExecutionStore) (i n : ℕ) (x : Execution)
    → stored s (slot s i) ≡ some x
    → collect s i (suc n) ≡ x ∷ collect s (suc i) n
unfolding collect
collect_filled s i n x h =
    ap (λ o. elim o [ none ↦ collect s (suc i) n | some y ↦ y ∷ collect s (suc i) n ]) h

module _ (e : Execution) (s t : ExecutionStore) (v : IsValid s) (a : Added e s t) where
  stored_new : stored t (slot t 0) ≡ some e
  stored_new = stored-Cell t (slot t 0) e (record {
    ref = length s.heap;
    in_buffer =
        rw (a.buffer, a.head, a.capacity, newest_slot s.head s.capacity v.head_lt)
          (get_elem?-set_self s.buffer s.head (some (length s.heap))
            (omega (arith, v.room, v.head_lt)));
    in_heap = rw a.heap (get_elem?-last Execution s.heap e);
  })

  stored_old :
      (i : ℕ) (x : Execution)
      → suc i < s.capacity
      → stored s (slot s i) ≡ some x
      → stored t (slot t (suc i)) ≡ some x
  stored_old i x lt h =
      let c = pointed_at s (slot s i) x (get_elem? s.buffer (slot s i)) refl h in
      stored-Cell t (slot t (suc i)) x (record {
        ref = c.ref;
        in_buffer =
            rw (a.buffer, a.head, a.capacity, older_slot s.head s.capacity i v.head_lt lt)
              (get_elem?-set_ne s.buffer s.head (slot s i) (some (length s.heap))
                  (other_slot s.head s.capacity i v.head_lt lt)
                ∙ c.in_buffer);
        in_heap = rw a.heap (get_elem?-append Execution s.heap (e ∷ []) c.ref x c.in_heap);
      })

  filled : (i : ℕ) → i < t.count → (x : Execution) × (stored t (slot t i) ≡ some x)
  filled zero h = (e, stored_new)
  filled (suc i) h =
      let (x, there) = v.filled i (ground (arith, a.count)) in
      (x, stored_old i x (ground (arith, a.count, v.count_le)) there)

  Added-IsValid : IsValid t
  Added-IsValid = record {
    room = omega (
      arith,
      ap length a.buffer,
      length-set s.buffer s.head (some (length s.heap)),
      v.room,
      a.capacity,
    );
    head_lt = omega (arith, a.head, a.capacity, next_lt s.head s.capacity v.head_lt);
    count_le = ground (arith, a.count, a.capacity, v.count_le);
    filled = filled;
  }

  -- What the rounds after the first one read is what the rounds of the old store read.
  collect_older :
      (n i : ℕ) → i + n ≤ s.count → suc (i + n) ≤ s.capacity → collect t (suc i) n ≡ collect s i n
  unfolding collect
  collect_older zero i h lt = refl
  collect_older (suc n) i h lt =
      let (x, there) = v.filled i (omega arith) in
      collect_filled t (suc i) n x (stored_old i x (omega arith) there)
      ∙ ap (λ rest. x ∷ rest) (collect_older n (suc i) (omega arith) (omega arith))
      ∙ sym (collect_filled s i n x there)

module _ (s : ExecutionStore) (v : IsValid s) where
  collect_all : (m n i : ℕ) → i + n ≤ s.count → n ≤ m → take m (collect s i n) ≡ collect s i n
  unfolding collect
  collect_all zero zero i h le = refl
  collect_all (suc m) zero i h le = refl
  collect_all zero (suc n) i h le = absurd (omega arith)
  collect_all (suc m) (suc n) i h le =
      let (x, there) = v.filled i (omega arith) in
      let one = collect_filled s i n x there in
      rw one (ap (λ rest. x ∷ rest) (collect_all m n (suc i) (omega arith) (omega arith)))

  collect_but_last : (m i : ℕ) → i + suc m ≤ s.count → take m (collect s i (suc m)) ≡ collect s i m
  unfolding collect
  collect_but_last zero i h = refl
  collect_but_last (suc m) i h =
      let (x, there) = v.filled i (omega arith) in
      ap (take (suc m)) (collect_filled s i (suc m) x there)
      ∙ ap (λ rest. x ∷ rest) (collect_but_last m (suc i) (omega arith))
      ∙ sym (collect_filled s i m x there)

-- In a store whose ring is well-formed, after an addition `List` returns the new execution, then the
-- executions of before, at most `capacity` in all; and the ring stays well-formed.
pub list-add :
    (e : Execution) (s : ExecutionStore)
    → IsValid s
    → (list (add e s) ≡ e ∷ take (s.capacity - 1) (list s)) × IsValid (add e s)
unfolding list
list-add e s v =
    let a = add-Added e s in
    let t = add e s in
    let first : (n : ℕ)
        → n ≤ s.count
        → suc n ≤ s.capacity
        → collect t 0 (suc n) ≡ e ∷ collect s 0 n =
      λ n le lt.
        collect_filled t 0 n e (stored_new e s t v a)
        ∙ ap (λ rest. e ∷ rest) (collect_older e s t v a n 0 (omega arith) (omega arith)) in
    (
      elim (Bool-cases (ltb s.count s.capacity)) [
        | inl room_left ↦
            ap (collect t 0) {y = suc s.count} (a.count ∙ ground (arith, room_left))
            ∙ first s.count (omega arith) (ground arith)
            ∙ ap (λ rest. e ∷ rest)
                (sym (collect_all s v (s.capacity - 1) s.count 0 (omega arith) (ground arith)))
        | inr full ↦
            ap (collect t 0) {y = suc (s.capacity - 1)}
              (a.count ∙ ground (arith, full, v.count_le, v.head_lt))
            ∙ first (s.capacity - 1) (ground (arith, v.count_le)) (omega (arith, v.head_lt))
            ∙ ap (λ rest. e ∷ rest)
                (sym (collect_but_last s v (s.capacity - 1) 0 (ground (arith, v.head_lt))))
            ∙ ap (λ n. e ∷ take (s.capacity - 1) (collect s 0 n)) {x = suc (s.capacity - 1)}
                (ground (arith, v.count_le, v.head_lt))
      ],
      Added-IsValid e s t v a,
    )

pub new-IsValid : (capacity : ℤ) → IsValid (new_execution_store capacity)
unfolding new_execution_store
new-IsValid (pos zero) = record {
  room = refl;
  head_lt = omega arith;
  count_le = omega arith;
  filled = λ i h. absurd (omega arith);
}
new-IsValid (pos (suc n)) = record {
  room = length-replicate (suc n) none;
  head_lt = omega arith;
  count_le = omega arith;
  filled = λ i h. absurd (omega arith);
}
new-IsValid (negsuc n) = record {
  room = refl;
  head_lt = omega arith;
  count_le = omega arith;
  filled = λ i h. absurd (omega arith);
}

take_nil : {A : Type 0} (n : ℕ) → take {A = A} n [] ≡ []
take_nil zero = refl
take_nil (suc n) = refl

-- All executions of a list, added in its order.
abbrev pub add_all : List Execution → ExecutionStore → ExecutionStore
add_all [] s = s
add_all (e ∷ es) s = add_all es (add e s)

-- The elements of a list, the last one first, before those of another list.
abbrev pub newest_first : List Execution → List Execution → List Execution
newest_first [] acc = acc
newest_first (e ∷ es) acc = newest_first es (e ∷ acc)

take-take : (A : Type 0) (m n : ℕ) (xs : List A) → m ≤ n → take m (take n xs) ≡ take m xs
take-take A zero n xs le = refl
take-take A (suc m) zero xs le = absurd (omega arith)
take-take A (suc m) (suc n) [] le = refl
take-take A (suc m) (suc n) (x ∷ xs) le = ap (λ ys. x ∷ ys) (take-take A m n xs (omega arith))

list-add_all_from :
    (es acc : List Execution) (s : ExecutionStore)
    → IsValid s
    → list s ≡ take s.capacity acc
    → list (add_all es s) ≡ take s.capacity (newest_first es acc)
list-add_all_from [] acc s v h = h
list-add_all_from (e ∷ es) acc s v h =
    let (listed, v') = list-add e s v in
    let kept = (add-Added e s).capacity in
    let one_more : list (add e s) ≡ take s.capacity (e ∷ acc) =
      listed
      ∙ ap (λ xs. e ∷ take (s.capacity - 1) xs) h
      ∙ ap (λ xs. e ∷ xs) (take-take Execution (s.capacity - 1) s.capacity acc (omega arith))
      ∙ ap (λ n. take n (e ∷ acc)) {x = suc (s.capacity - 1)} (omega (arith, v.head_lt)) in
    list-add_all_from es (e ∷ acc) (add e s) v' (one_more ∙ ap (λ n. take n (e ∷ acc)) (sym kept))
    ∙ ap (λ n. take n (newest_first es (e ∷ acc))) kept

-- After any executions have been added to a new store, `List` returns the last of them, newest first,
-- as many as the capacity allows; a capacity that is not positive counts as 100.
pub list-add_all :
    (capacity : ℤ) (es : List Execution)
    → list (add_all es (new_execution_store capacity))
      ≡ take (usable_capacity capacity) (newest_first es [])
unfolding new_execution_store list collect
list-add_all capacity es =
    list-add_all_from es [] (new_execution_store capacity) (new-IsValid capacity)
      (sym (take_nil (usable_capacity capacity)))
