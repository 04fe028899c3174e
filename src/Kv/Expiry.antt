-- ===== src/Kv/Expiry.antt =====
-- internal/runtime/kv_memory.go: what a reader sees of the store at a time.
use tailflow_agent.Prelude.{
  ℕ, ◌+◌, String, ◌≡◌, refl, sym, ◌∙◌, ap, inl, inr, Option, none, some, arith, if◌then◌else◌, ◌==◌,
  eq_iff, eqb, leb, ◌||◌, Bool-cases, Option-cases,
}
use tailflow_agent.Prelude.Dict.{Dict, is_some, lookup, erase, lookup-insert, lookup-erase}
use tailflow_agent.Value.{Value}
use tailflow_agent.Kv.{KvEntry, expired, entry, get, put, delete}

-- What a store holds for a key at a time, whatever expired entries it still keeps.
abbrev pub view_entry : ℕ → Option KvEntry → Option Value
view_entry now none = none
view_entry now (some e) = if expired now e then none else some e.value

abbrev pub view : ℕ → Dict KvEntry → String → Option Value
view now m k = view_entry now (lookup k m)

view-erase :
    (now : ℕ) (key k : String) (m : Dict KvEntry)
    → view now (erase key m) k ≡ (if key == k then none else view now m k)
view-erase now key k m = elim (Bool-cases (key == k)) [
  | inl same ↦ rw same (ap (view_entry now) (rw same at (lookup-erase key k m)))
  | inr other ↦ rw other (ap (view_entry now) (rw other at (lookup-erase key k m)))
]

-- What is erased because it has expired was seen by nobody.
view-erase_expired :
    (now : ℕ) (key k : String) (m : Dict KvEntry)
    → view now m key ≡ none
    → view now (erase key m) k ≡ view now m k
view-erase_expired now key k m gone = elim (Bool-cases (key == k)) [
  | inl same ↦
      view-erase now key k m ∙ rw same (sym (ap (view now m) (sym ((eq_iff key k).0 same)) ∙ gone))
  | inr other ↦ view-erase now key k m ∙ rw other refl
]

-- `Get` returns what the store holds for the key at the time, and changes nothing that can be seen then.
get-view :
    (key k : String) (now : ℕ) (m : Dict KvEntry)
    → ((get key now m).0 ≡ view now m key) × (view now (get key now m).1 k ≡ view now m k)
unfolding get
get-view key k now m = elim (Option-cases (lookup key m)) [
  | inl e ↦ (rw (e, get) refl, rw (e, get) refl)
  | inr (x, e) ↦ elim (Bool-cases (expired now x)) [
    | inr fresh ↦ (rw (e, fresh, get) refl, rw (e, fresh, get) refl)
    | inl old ↦
        let gone : view now m key ≡ none = rw (e, old) refl in
        (rw (e, old, get) refl, rw (e, old, get) (view-erase_expired now key k m gone))
  ]
]

-- After `Set`, at any time from then on, the key has the value until its time to live has passed, for ever
-- with a time to live of 0, and every other key is as it was.
put-view :
    (key k : String) (value : Value) (ttl now later : ℕ) (m : Dict KvEntry)
    → view later (put key value ttl now m) k ≡ (
        if key == k
        then (if eqb ttl 0 || leb later (now + ttl) then some value else none)
        else view later m k)
unfolding put
put-view key k value ttl now later m = elim (Bool-cases (key == k)) [
  | inl same ↦ rw same (
      ap (view_entry later) (rw same at (lookup-insert key k (entry value ttl now) m))
      ∙ ground arith)
  | inr other ↦
      rw other (ap (view_entry later) (rw other at (lookup-insert key k (entry value ttl now) m)))
]

-- `Delete` tells whether the store held the key at the time, which it then no longer does; every other key
-- is as it was.
delete-view :
    (key k : String) (now : ℕ) (m : Dict KvEntry)
    → ((delete key now m).0 ≡ is_some (view now m key))
      × (view now (delete key now m).1 k ≡ (if key == k then none else view now m k))
unfolding delete
delete-view key k now m = elim (Option-cases (lookup key m)) [
  | inl e ↦ (
    rw (e, delete) refl,
    rw (e, delete)
        (elim (Bool-cases (key == k)) [
          | inl same ↦
              rw same (ap (view now m) (sym ((eq_iff key k).0 same)) ∙ ap (view_entry now) e)
          | inr other ↦ rw other refl
        ]),
  )
  | inr (x, e) ↦ elim (Bool-cases (expired now x)) [
    | inr fresh ↦ (rw (e, fresh, delete) refl, rw (e, fresh, delete) (view-erase now key k m))
    | inl old ↦ (rw (e, old, delete) refl, rw (e, old, delete) (view-erase now key k m))
  ]
]

-- What is seen in the store at a time is a map whose entries end: after `Set` the key is seen with the
-- value until its time to live has passed, for ever with a time to live of 0, and every other key as
-- before; `Get` returns what is seen and changes nothing that is seen; and `Delete` tells whether the key
-- was seen, which it then no longer is, and leaves every other key.
pub operations-Refine :
    (key k : String) (value : Value) (ttl now later : ℕ) (m : Dict KvEntry)
    → (view later (put key value ttl now m) k ≡ (
        if key == k
        then (if eqb ttl 0 || leb later (now + ttl) then some value else none)
        else view later m k))
      × (((get key now m).0 ≡ view now m key) × (view now (get key now m).1 k ≡ view now m k))
      × (((delete key now m).0 ≡ is_some (view now m key))
          × (view now (delete key now m).1 k ≡ (if key == k then none else view now m k)))
operations-Refine key k value ttl now later m =
    (put-view key k value ttl now later m, get-view key k now m, delete-view key k now m)
