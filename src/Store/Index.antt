-- ===== src/Store/Index.antt =====
-- internal/store/execution.go: the index by id, and the operations on one execution.
use tailflow_agent.Prelude.{
  ℕ, zero, suc, ◌<◌, String, ◌≡◌, refl, sym, ◌∙◌, ap, inl, inr, Bool, false, Option, none, some,
  List, [], ◌∷◌, ◌++◌, arith, length, get_elem?, set, if◌then◌else◌, ◌==◌, ◌&&◌, eq_iff, leb, eqb,
  Bool-cases, Option-cases, get_elem?-set_self, get_elem?-set_ne,
}
use tailflow_agent.Prelude.Dict.{lookup, insert, erase, lookup-insert, lookup-erase}
use tailflow_agent.Store.{Execution, ExecutionStore, stored, evict, add, get, update_execution}
use tailflow_agent.Store.Ring.{get_elem?-append, get_elem?-last}

-- What the index holds is an execution with that id.
abbrev pub IsIndexed : ExecutionStore → Type 0
IsIndexed s =
    (k : String) (r : ℕ)
    → lookup k s.by_id ≡ some r
    → (x : Execution) × (get_elem? s.heap r ≡ some x) × (x.id ≡ k)

get_elem?-lt : (A : Type 0) (xs : List A) (i : ℕ) (v : A) → get_elem? xs i ≡ some v → i < length xs
get_elem?-lt A [] i v e = absurd (cc e)
get_elem?-lt A (x ∷ xs) zero v e = omega arith
get_elem?-lt A (x ∷ xs) (suc i) v e = omega (arith, get_elem?-lt A xs i v e)

-- `f` on what `Get` returns, if it returns anything.
abbrev pub mapped : (Execution → Execution) → Option Execution → Option Execution
mapped f none = none
mapped f (some e) = some (f e)

get_at :
    (s : ExecutionStore) (k : String) (r : ℕ)
    → lookup k s.by_id ≡ some r
    → get k s ≡ get_elem? s.heap r
unfolding get
get_at s k r e = ap (λ o. elim o [ none ↦ none | some r ↦ get_elem? s.heap r ]) e

get-none : (s : ExecutionStore) (k : String) → lookup k s.by_id ≡ none → get k s ≡ none
unfolding get
get-none s k e = ap (λ o. elim o [ none ↦ none | some r ↦ get_elem? s.heap r ]) e

module _ (s : ExecutionStore) (indexed : IsIndexed s) (id : String)
    (f : Execution → Execution) where
  update_absent : lookup id s.by_id ≡ none → update_execution id f s ≡ s
  unfolding update_execution
  update_absent e = rw (e, update_execution) refl

  update_present :
      (r : ℕ) (x : Execution)
      → lookup id s.by_id ≡ some r
      → get_elem? s.heap r ≡ some x
      → update_execution id f s ≡ record s { heap = set s.heap r (f x) }
  unfolding update_execution
  update_present r x e there = rw (e, there, update_execution) refl

  get_after :
      (r : ℕ) (x : Execution) (k : String)
      → lookup id s.by_id ≡ some r
      → get_elem? s.heap r ≡ some x
      → get k (record s { heap = set s.heap r (f x) })
        ≡ (if id == k then mapped f (get id s) else get k s)
  get_after r x k e there = elim (Bool-cases (id == k)) [
    | inl same ↦
        let here : lookup k s.by_id ≡ some r =
          ap (λ z. lookup z s.by_id) (sym ((eq_iff id k).0 same)) ∙ e in
        rw same (
          get_at (record s { heap = set s.heap r (f x) }) k r here
          ∙ get_elem?-set_self s.heap r (f x) (get_elem?-lt Execution s.heap r x there)
          ∙ sym (ap (mapped f) (get_at s id r e ∙ there)))
    | inr other ↦ rw other (elim (Option-cases (lookup k s.by_id)) [
      | inl none_there ↦
          get-none (record s { heap = set s.heap r (f x) }) k none_there
          ∙ sym (get-none s k none_there)
      | inr (r', there') ↦
          let (x₁, cell₁, id₁) = indexed id r e in
          let (x₂, cell₂, id₂) = indexed k r' there' in
          get_at (record s { heap = set s.heap r (f x) }) k r' there'
          ∙ get_elem?-set_ne s.heap r r' (f x) (λ q.
            let one : some x₁ ≡ some x₂ = sym cell₁ ∙ ap (get_elem? s.heap) q ∙ cell₂ in
            let ids : id ≡ k = cc (one, id₁, id₂) in absurd (cc ((eq_iff id k).1 ids, other)))
          ∙ sym (get_at s k r' there')
    ])
  ]

-- In a store whose index is well-formed, an update by a function leaves every other id's execution as
-- it was, and of the id itself `Get` returns what the function makes of it, or nothing as before.
pub get-update_execution :
    (id k : String) (f : Execution → Execution) (s : ExecutionStore)
    → IsIndexed s
    → get k (update_execution id f s) ≡ (if id == k then mapped f (get id s) else get k s)
get-update_execution id k f s indexed = elim (Option-cases (lookup id s.by_id)) [
  | inl gone ↦ ap (get k) (update_absent s indexed id f gone) ∙ elim (Bool-cases (id == k)) [
    | inl same ↦ rw same (
        ap (λ z. get z s) (sym ((eq_iff id k).0 same))
        ∙ get-none s id gone
        ∙ sym (ap (mapped f) (get-none s id gone)))
    | inr other ↦ rw other refl
  ]
  | inr (r, e) ↦
      let (x, there, _) = indexed id r e in
      ap (get k) (update_present s indexed id f r x e there)
      ∙ get_after s indexed id f r x k e there
]

-- An update that keeps the id keeps the index.
pub update_execution-IsIndexed :
    (id : String) (f : Execution → Execution) (s : ExecutionStore)
    → ((x : Execution) → (f x).id ≡ x.id)
    → IsIndexed s
    → IsIndexed (update_execution id f s)
update_execution-IsIndexed id f s keeps indexed = elim (Option-cases (lookup id s.by_id)) [
  | inl gone ↦ rw (update_absent s indexed id f gone) indexed
  | inr (r, e) ↦
      let (x, there, named) = indexed id r e in
      rw (update_present s indexed id f r x e there) (λ k r' found.
        let (x', there', named') = indexed k r' found in
        elim (Bool-cases (eqb r r')) [
          | inl same ↦
              let refs : r ≡ r' = ground arith in
              let one : x' ≡ x = cc (refs, there, there') in
              (
                f x,
                ap (get_elem? (set s.heap r (f x))) (ground arith)
                    ∙ get_elem?-set_self s.heap r (f x) (get_elem?-lt Execution s.heap r x there),
                keeps x ∙ ap (λ (y : Execution). y.id) (sym one) ∙ named',
              )
          | inr other ↦
              (x', get_elem?-set_ne s.heap r r' (f x) (λ q. absurd (ground arith)) ∙ there', named')
        ])
]

-- An addition keeps the index, whether it evicts or not.
module _ (e : Execution) (s : ExecutionStore) (indexed : IsIndexed s) where
  erased : (id : String) → IsIndexed (record s { by_id = erase id s.by_id })
  erased id k r found = elim (Bool-cases (id == k)) [
    | inl same ↦ absurd (cc (rw same at (lookup-erase id k s.by_id), found))
    | inr other ↦ indexed k r (sym (rw other at (lookup-erase id k s.by_id)) ∙ found)
  ]

  evict-IsIndexed : IsIndexed (evict s)
  unfolding evict
  evict-IsIndexed = elim (Option-cases (stored s s.head)) [
    | inl none_there ↦ rw (none_there, evict) indexed
    | inr (old, there) ↦ rw (there, evict) (erased old.id)
  ]

  inserted-IsIndexed :
      IsIndexed (record s { heap = s.heap ++ e ∷ []; by_id = insert e.id (length s.heap) s.by_id })
  inserted-IsIndexed k r found = elim (Bool-cases (e.id == k)) [
    | inl same ↦
        let here : some (length s.heap) ≡ some r =
          sym (rw same at (lookup-insert e.id k (length s.heap) s.by_id)) ∙ found in
        (
          e,
          ap (get_elem? (s.heap ++ e ∷ [])) (cc here) ∙ get_elem?-last Execution s.heap e,
          (eq_iff e.id k).0 same,
        )
    | inr other ↦
        let before : lookup k s.by_id ≡ some r =
          sym (rw other at (lookup-insert e.id k (length s.heap) s.by_id)) ∙ found in
        let (x, there, named) = indexed k r before in
        (x, get_elem?-append Execution s.heap (e ∷ []) r x there, named)
  ]

pub add-IsIndexed : (e : Execution) (s : ExecutionStore) → IsIndexed s → IsIndexed (add e s)
unfolding add
add-IsIndexed e s indexed = elim (Bool-cases (leb s.capacity s.count)) [
  | inl full ↦ rw (full, add) (inserted-IsIndexed e (evict s) (evict-IsIndexed e s indexed))
  | inr free ↦ rw (free, add) (inserted-IsIndexed e s indexed)
]

-- `Get` in a store to which `e` is being added.
module _ (e : Execution) (s : ExecutionStore) (indexed : IsIndexed s) (k : String) where
  get-inserted :
      get k (record s { heap = s.heap ++ e ∷ []; by_id = insert e.id (length s.heap) s.by_id })
      ≡ (if e.id == k then some e else get k s)
  get-inserted = elim (Bool-cases (e.id == k)) [
    | inl same ↦ rw same (
        get_at _ k (length s.heap) (rw same at (lookup-insert e.id k (length s.heap) s.by_id))
        ∙ get_elem?-last Execution s.heap e)
    | inr other ↦
        let kept = rw other at (lookup-insert e.id k (length s.heap) s.by_id) in
        rw other (elim (Option-cases (lookup k s.by_id)) [
          | inl gone ↦ get-none _ k (kept ∙ gone) ∙ sym (get-none s k gone)
          | inr (r, found) ↦
              let (x, there, _) = indexed k r found in
              get_at _ k r (kept ∙ found)
              ∙ get_elem?-append Execution s.heap (e ∷ []) r x there
              ∙ sym there
              ∙ sym (get_at s k r found)
        ])
  ]

-- The id of the oldest execution, where the store is full.
abbrev pub leaves : ExecutionStore → String → Bool
leaves s k =
    leb s.capacity s.count && (elim (stored s s.head) [ none ↦ false | some old ↦ old.id == k ])

get-erased :
    (s : ExecutionStore) (id k : String)
    → get k (record s { by_id = erase id s.by_id; events = erase id s.events })
      ≡ (if id == k then none else get k s)
get-erased s id k = elim (Bool-cases (id == k)) [
  | inl same ↦ rw same (get-none _ k (rw same at (lookup-erase id k s.by_id)))
  | inr other ↦
      let kept = rw other at (lookup-erase id k s.by_id) in
      rw other (elim (Option-cases (lookup k s.by_id)) [
        | inl gone ↦ get-none _ k (kept ∙ gone) ∙ sym (get-none s k gone)
        | inr (r, found) ↦ get_at _ k r (kept ∙ found) ∙ sym (get_at s k r found)
      ])
]

-- In a store whose index is well-formed, after an addition `Get` returns the new execution for its id,
-- nothing for the id of the oldest one if the store was full, and for every other id what it returned
-- before; and the index stays well-formed.
pub get-add :
    (e : Execution) (s : ExecutionStore) (k : String)
    → IsIndexed s
    → (get k (add e s) ≡ (if e.id == k then some e else if leaves s k then none else get k s))
      × IsIndexed (add e s)
unfolding add evict get
get-add e s k indexed = (
  elim (Bool-cases (leb s.capacity s.count)) [
    | inr free ↦ rw (free, add) (get-inserted e s indexed k)
    | inl full ↦ elim (Option-cases (stored s s.head)) [
      | inl empty ↦ rw (full, empty, add, evict) (get-inserted e s indexed k)
      | inr (old, there) ↦
          rw (full, there, add, evict)
            (get-inserted e
                (record s { by_id = erase old.id s.by_id; events = erase old.id s.events })
                (erased e s indexed old.id) k
              ∙ ap (λ o. if e.id == k then some e else o) (get-erased s old.id k))
    ]
  ],
  add-IsIndexed e s indexed,
)
