-- ===== src/Transactions/Samples.antt =====
-- Two transactions, one committed and one left open, and the theorem there.
use tailflow_agent.Prelude.{ℕ, ◌<◌, ◌≡◌, refl, true, none, some, List, [], ◌∷◌}
use tailflow_agent.Prelude.Dict.{lookup, insert, erase}
use tailflow_agent.Transactions.{Op, new_memory_tx_registry, run, rollback_all}
use tailflow_agent.Transactions.Once.{IsSound, times, run-IsSound}

abbrev ops : List Op
ops =
    Op.begin_op true "a"
    ∷ Op.begin_op true "b"
    ∷ Op.begin_op true "a"
    ∷ Op.commit_op (λ tx. some "connection lost") "a"
    ∷ Op.commit_op (λ tx. none) "a"
    ∷ []

ended : (run ops new_memory_tx_registry).ended ≡ 0 ∷ []
unfolding run lookup insert erase
ended = refl

run-IsSound_example :
    IsSound (run ops new_memory_tx_registry)
    × ((t : ℕ)
        → t < (run ops new_memory_tx_registry).next
        → times t (rollback_all (run ops new_memory_tx_registry)).ended ≡ 1)
run-IsSound_example = run-IsSound ops
