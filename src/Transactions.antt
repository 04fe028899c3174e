-- ===== src/Transactions.antt =====
-- internal/runtime/txregistry.go: the registry of open transactions. The database is a supply of
-- handles: `next` is the next one, and `ended` are those whose Commit or Rollback was called.
pub mod Once
pub mod Samples
use tailflow_agent.Prelude.{
  ℕ, suc, String, Bool, true, false, Option, none, some, List, [], ◌∷◌, ◌++◌, if◌then◌else◌,
}
use tailflow_agent.Prelude.Dict.{Dict, lookup, insert, erase, is_some}

pub record MemoryTxRegistry : Type 0 where
  pub txs : Dict ℕ
  pub next : ℕ
  pub ended : List ℕ

abbrev pub new_memory_tx_registry : MemoryTxRegistry
new_memory_tx_registry = record { txs = []; next = 0; ended = [] }

-- The handles of the open transactions.
abbrev pub open_txs : Dict ℕ → List ℕ
open_txs [] = []
open_txs ((k, tx) ∷ txs) = tx ∷ open_txs txs

-- `opens` says whether the database's `BeginTx` succeeds; it is called if the name is free. The result
-- is the transaction, or `none` for an error.
unfoldable pub begin : Bool → String → MemoryTxRegistry → MemoryTxRegistry × Option ℕ
begin opens name r =
    if is_some (lookup name r.txs)
    then (r, none)
    else if opens
    then (record r { txs = insert name r.next r.txs; next = suc r.next }, some r.next)
    else (r, none)

unfoldable pub get_tx : String → MemoryTxRegistry → Option ℕ
get_tx name r = lookup name r.txs

-- `Commit` and `Rollback` differ in what they call at the database. The result is the transaction that
-- was ended, or `none` for an error.
-- What Commit and Rollback return: an error of their own, or what the handle's method returned.
pub data Ending : Type 0 where
  not_found : Ending
  committed : ℕ → Option String → Ending
  rolled_back : ℕ → Option String → Ending

-- `tx_commit` is the error of the handle's method Commit.
unfoldable pub commit : (ℕ → Option String) → String → MemoryTxRegistry → MemoryTxRegistry × Ending
commit tx_commit name r = elim (lookup name r.txs) [
  | none ↦ (r, Ending.not_found)
  | some tx ↦ (
    record r { txs = erase name r.txs; ended = tx ∷ r.ended },
    Ending.committed tx (tx_commit tx),
  )
]

-- `tx_rollback` is the error of the handle's method Rollback.
unfoldable pub rollback :
    (ℕ → Option String) → String → MemoryTxRegistry → MemoryTxRegistry × Ending
rollback tx_rollback name r = elim (lookup name r.txs) [
  | none ↦ (r, Ending.not_found)
  | some tx ↦ (
    record r { txs = erase name r.txs; ended = tx ∷ r.ended },
    Ending.rolled_back tx (tx_rollback tx),
  )
]

unfoldable pub rollback_all : MemoryTxRegistry → MemoryTxRegistry
rollback_all r = record r { txs = []; ended = open_txs r.txs ++ r.ended }

-- The operations, each of which holds the registry's lock.
pub data Op : Type 0 where
  begin_op : Bool → String → Op
  commit_op : (ℕ → Option String) → String → Op
  rollback_op : (ℕ → Option String) → String → Op
  rollback_all_op : Op

unfoldable pub apply : Op → MemoryTxRegistry → MemoryTxRegistry
unfolding begin commit rollback rollback_all
apply (Op.begin_op opens name) r = (begin opens name r).0
apply (Op.commit_op errors name) r = (commit errors name r).0
apply (Op.rollback_op errors name) r = (rollback errors name r).0
apply Op.rollback_all_op r = rollback_all r

unfoldable pub run : List Op → MemoryTxRegistry → MemoryTxRegistry
unfolding apply
run [] r = r
run (op ∷ ops) r = run ops (apply op r)
