-- ===== src/Transactions/Once.antt =====
-- internal/runtime/txregistry.go: a transaction that was begun is open, or has ended once.
use tailflow_agent.Prelude.{
  ℕ, ◌+◌, ◌<◌, String, ◌≡◌, refl, inl, inr, Bool, false, none, some, List, [], ◌∷◌, ◌++◌, arith,
  if◌then◌else◌, eqb, ltb, eq_iff, contains, IsNodup, Bool-cases, Option-cases,
}
use tailflow_agent.Prelude.Dict.{Dict, lookup, insert, erase, keys, insert-IsNodup}
use tailflow_agent.Transactions.{
  MemoryTxRegistry, new_memory_tx_registry, open_txs, begin, rollback_all, Op, apply, run,
}

-- How often a handle stands in a list.
abbrev pub times : ℕ → List ℕ → ℕ
times t [] = 0
times t (x ∷ xs) = (if eqb x t then 1 else 0) + times t xs

times-append : (t : ℕ) (xs ys : List ℕ) → times t (xs ++ ys) ≡ times t xs + times t ys
times-append t [] ys = omega arith
times-append t (x ∷ xs) ys = omega (arith, times-append t xs ys)

times-insert :
    (t tx : ℕ) (k : String) (m : Dict ℕ)
    → lookup k m ≡ none
    → times t (open_txs (insert k tx m)) ≡ times t (open_txs m) + (if eqb tx t then 1 else 0)
unfolding lookup insert
times-insert t tx k [] h = ground arith
times-insert t tx k ((j, x) ∷ m) h = ground (arith, times-insert t tx k m, eq_iff j k)

erase_absent :
    (t : ℕ) (k : String) (m : Dict ℕ)
    → contains k (keys m) ≡ false
    → times t (open_txs (erase k m)) ≡ times t (open_txs m)
unfolding erase
erase_absent t k [] h = refl
erase_absent t k ((j, x) ∷ m) h = ground (arith, erase_absent t k m, eq_iff j k)

times-erase :
    (t tx : ℕ) (k : String) (m : Dict ℕ)
    → IsNodup (keys m)
    → lookup k m ≡ some tx
    → times t (open_txs m) ≡ times t (open_txs (erase k m)) + (if eqb tx t then 1 else 0)
unfolding lookup erase
times-erase t tx k [] n h = absurd (cc h)
times-erase t tx k ((j, x) ∷ m) n h =
    ground (arith, times-erase t tx k m, erase_absent t k m, eq_iff j k)

contains-keys-erase :
    (i k : String) (m : Dict ℕ)
    → contains i (keys m) ≡ false
    → contains i (keys (erase k m)) ≡ false
unfolding erase
contains-keys-erase i k [] h = refl
contains-keys-erase i k ((j, x) ∷ m) h = ground (arith, contains-keys-erase i k m)

erase-IsNodup : (k : String) (m : Dict ℕ) → IsNodup (keys m) → IsNodup (keys (erase k m))
unfolding erase
erase-IsNodup k [] h = tt
erase-IsNodup k ((j, x) ∷ m) h = ground (arith, erase-IsNodup k m, contains-keys-erase j k m)

-- A name has one open transaction at most, and a handle that was given out stands once among the open
-- and the ended ones.
pub record IsSound (r : MemoryTxRegistry) : Type 0 where
  pub names : IsNodup (keys r.txs)
  pub once : (t : ℕ) → times t (open_txs r.txs) + times t r.ended ≡ (if ltb t r.next then 1 else 0)

begin-IsSound :
    (opens : Bool) (name : String) (r : MemoryTxRegistry)
    → IsSound r
    → IsSound (begin opens name r).0
unfolding begin
begin-IsSound opens name r v = elim (Option-cases (lookup name r.txs)) [
  | inr (tx, e) ↦ rw (e, begin) v
  | inl e ↦ elim (Bool-cases opens) [
    | inr fails ↦ rw (e, fails, begin) v
    | inl works ↦
        rw (e, works, begin)
          (record {
            names = insert-IsNodup name r.next r.txs v.names;
            once = λ t. ground (arith, times-insert t r.next name r.txs, v.once t);
          })
  ]
]

-- What `Commit` and `Rollback` do to the registry.
end-IsSound :
    (tx : ℕ) (name : String) (r : MemoryTxRegistry)
    → lookup name r.txs ≡ some tx
    → IsSound r
    → IsSound (record r { txs = erase name r.txs; ended = tx ∷ r.ended })
end-IsSound tx name r e v = record {
  names = erase-IsNodup name r.txs v.names;
  once = λ t. omega (arith, times-erase t tx name r.txs v.names e, v.once t);
}

apply-IsSound : (op : Op) (r : MemoryTxRegistry) → IsSound r → IsSound (apply op r)
unfolding apply
apply-IsSound (Op.begin_op opens name) r v = begin-IsSound opens name r v
apply-IsSound (Op.commit_op errors name) r v = elim (Option-cases (lookup name r.txs)) [
  | inl e ↦ rw (e, apply) v
  | inr (tx, e) ↦ rw (e, apply) (end-IsSound tx name r e v)
]
apply-IsSound (Op.rollback_op errors name) r v = elim (Option-cases (lookup name r.txs)) [
  | inl e ↦ rw (e, apply) v
  | inr (tx, e) ↦ rw (e, apply) (end-IsSound tx name r e v)
]
apply-IsSound Op.rollback_all_op r v = record {
  names = tt;
  once = λ t. omega (arith, times-append t (open_txs r.txs) r.ended, v.once t);
}

run_keeps : (ops : List Op) (r : MemoryTxRegistry) → IsSound r → IsSound (run ops r)
unfolding run
run_keeps [] r v = v
run_keeps (op ∷ ops) r v = run_keeps ops (apply op r) (apply-IsSound op r v)

-- After any operations on a new registry, no name has two open transactions, every transaction that was
-- begun is either open under one name or was committed or rolled back, once, and once RollbackAll is
-- called it was ended exactly once.
pub run-IsSound :
    (ops : List Op)
    → IsSound (run ops new_memory_tx_registry)
      × ((t : ℕ)
          → t < (run ops new_memory_tx_registry).next
          → times t (rollback_all (run ops new_memory_tx_registry)).ended ≡ 1)
unfolding rollback_all
run-IsSound ops =
    let r = run ops new_memory_tx_registry in
    let v =
      run_keeps ops new_memory_tx_registry (record { names = tt; once = λ t. ground arith }) in
    (v, λ t h. ground (arith, times-append t (open_txs r.txs) r.ended, v.once t))
