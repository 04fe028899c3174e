-- ===== src/Engine/Execute/Ended.antt =====
-- internal/engine/engine_node.go: a step that returns no error has a result.
use tailflow_agent.Prelude.{
  ℕ, ◌≡◌, refl, inl, inr, true, false, ◌||◌, Option, none, some, arith, ◌==◌, Bool-cases,
  Option-cases,
}
use tailflow_agent.Prelude.Dict.{get_or}
use tailflow_agent.Value.{Value}
use tailflow_agent.Parser.Schema.{Step, TestCase}
use tailflow_agent.Runtime.{ExecutionContext}
use tailflow_agent.Engine.Node.{
  Failure, other, Services, execute_with_retry, record_step_success, handle_step_error,
  handle_recovery,
}
use tailflow_agent.Engine.Node.Errors.{KeepsSteps, Avoids, handle_step_error_correct}
use tailflow_agent.Engine.Node.Recovery.{HasStatus, Settled, get-set, handle_recovery_correct}
use tailflow_agent.Engine.TestCase.{apply_test_mock}
use tailflow_agent.Engine.Execute.{
  evaluate_when, resolve_step_config, call_action, finish_action, run_action, mock_of, run_mock,
  run_step, execute_node,
}
use tailflow_agent.Status

-- The step has a result: a success or a skip, or a failure that its error policy tolerates.
pub data Finished (s : Step) (c : ExecutionContext) : Type 0 where
  succeeded : HasStatus s.id Status.success c → Finished s c
  skipped : HasStatus s.id Status.skipped c → Finished s c
  tolerated :
      (s.error_policy == "continue" || s.error_policy == "ignore") ≡ true
      → HasStatus s.id Status.failed c
      → Finished s c

-- No error means a result.
abbrev Good : Step → Option Failure × ExecutionContext → Type 0
Good s t = t.0 ≡ none → Finished s t.1

failing : (s : Step) (f : Failure) (c : ExecutionContext) → Good s (some f, c)
failing s f c e = absurd (cc e)

record_step_success-Finished :
    (s : Step) (started now : ℕ) (output : Value) (c : ExecutionContext)
    → Finished s (record_step_success s output started now c)
unfolding record_step_success
record_step_success-Finished s started now output c = succeeded (_, get-set s.id _ c, refl)

module _ (s : Step) (started now : ℕ) where
  module _ (sv : Services) (keeps : KeepsSteps sv) (avoids : Avoids s.id s.on_error) where
    handle_step_error-Good :
        (output : Value) (f : Failure) (c : ExecutionContext)
        → Good s (handle_step_error sv s output f started now c)
    handle_step_error-Good output f c e =
        let (returned, result) =
          handle_step_error_correct sv s output f started now c keeps avoids in
        elim (Bool-cases (s.error_policy == "ignore")) [
          | inl ignored ↦ succeeded (_, result, rw ignored refl)
          | inr strict ↦ elim (Bool-cases (s.error_policy == "continue")) [
            | inl goes_on ↦ tolerated (ground (arith, goes_on)) (_, result, rw strict refl)
            | inr stops ↦ absurd (cc (rw (strict, stops) at returned, e))
          ]
        ]

    finish_action-Good :
        (r : (Value × Option Failure) × ExecutionContext)
        → Good s (finish_action sv s started now r)
    finish_action-Good ((output, none), c) e = record_step_success-Finished s started now output c
    finish_action-Good ((output, some f), c) e = handle_step_error-Good output f c e

    run_action-Good : (c : ExecutionContext) → Good s (run_action sv s started now c)
    unfolding run_action
    run_action-Good c = elim (Option-cases (resolve_step_config sv s c)) [
      | inl bad ↦ rw (bad, run_action) (failing s (other "resolve config") c)
      | inr (config, good) ↦ elim (Bool-cases (sv.registered s.action)) [
        | inr unknown ↦ rw (good, unknown, run_action) (failing s (other "unknown action") c)
        | inl known ↦ elim (Option-cases (sv.validate s.action config c)) [
          | inr (f, invalid) ↦ rw (good, known, invalid, run_action) (failing s _ c)
          | inl valid ↦
              rw (good, known, valid, run_action)
                (finish_action-Good
                  (execute_with_retry sv.interrupted (call_action sv s config) s.retry c))
        ]
      ]
    ]

  apply_test_mock-Good :
      (tc : TestCase) (c : ExecutionContext) → Good s (apply_test_mock s tc now c)
  unfolding apply_test_mock
  apply_test_mock-Good tc c = elim (Option-cases (tc.error)) [
    | inl fine ↦
        rw (fine, apply_test_mock)
          (λ e. record_step_success-Finished s now now (get_or tc.output Value.null) c)
    | inr (x, failed) ↦
        elim (Bool-cases (s.error_policy == "continue" || s.error_policy == "ignore")) [
          | inl goes_on ↦
              rw (failed, goes_on, apply_test_mock)
                (λ e. tolerated goes_on (_, get-set s.id _ c, refl))
          | inr stops ↦ rw (failed, stops, apply_test_mock) (failing s _ _)
        ]
  ]

  run_mock-Good : (tc : TestCase) (c : ExecutionContext) → Good s (run_mock s tc now c)
  unfolding run_mock
  run_mock-Good tc c = elim (Option-cases ((apply_test_mock s tc now c).0)) [
    | inl fine ↦ rw (fine, run_mock) (λ e. apply_test_mock-Good tc c fine)
    | inr (f, failed) ↦ rw (failed, run_mock) (failing s f _)
  ]

  -- The step that the condition skips has a result that says so.
  evaluate_when-Good :
      (sv : Services) (c : ExecutionContext)
      → (evaluate_when sv s c).0 ≡ true
      → Finished s (evaluate_when sv s c).2
  unfolding evaluate_when
  evaluate_when-Good sv c skips = elim (Bool-cases (s.when == "")) [
    | inl unset ↦ absurd (cc (rw (unset, evaluate_when) at skips))
    | inr set ↦ elim (Option-cases (sv.eval_bool s.when c)) [
      | inl bad ↦ absurd (cc (rw (set, bad, evaluate_when) at skips))
      | inr (true, holds) ↦ absurd (cc (rw (set, holds, evaluate_when) at skips))
      | inr (false, fails) ↦ rw (set, fails, evaluate_when) (skipped (_, get-set s.id _ c, refl))
    ]
  ]

-- What recovery leaves of a step that is not run again and has no error.
settled-Finished :
    (s : Step) (err : Option Failure) (c : ExecutionContext)
    → Settled s.id err c
    → err ≡ none
    → Finished s c
settled-Finished s err c (inl (none_there, inl good)) e = succeeded good
settled-Finished s err c (inl (none_there, inr skip)) e = skipped skip
settled-Finished s err c (inr ((f, failed), bad)) e = absurd (cc (failed, e))

handle_recovery-Finished :
    (s : Step) (now : ℕ) (c : ExecutionContext)
    → (handle_recovery s now c).0 ≡ true
    → (handle_recovery s now c).1 ≡ none
    → Finished s (handle_recovery s now c).2
unfolding handle_recovery
handle_recovery-Finished s now c skips fine = elim (Bool-cases c.resumed) [
  | inr fresh ↦ absurd (cc (rw (fresh, handle_recovery) at skips))
  | inl resumed ↦ elim ((handle_recovery_correct s now c resumed).0) [
    | inl (_, settled) ↦ settled-Finished s _ _ settled fine
    | inr (again, _) ↦ absurd (cc (again, skips))
  ]
]

-- If the actions leave the step results alone and no step of `on_error` has the step's id, a step that
-- `executeNode` runs without an error has a result: a success, a skip, or a failure that its error policy
-- tolerates.
pub execute_node-Finished :
    (sv : Services) (s : Step) (started now : ℕ) (c : ExecutionContext)
    → KeepsSteps sv
    → Avoids s.id s.on_error
    → (execute_node sv s started now c).0 ≡ none
    → Finished s (execute_node sv s started now c).1
unfolding execute_node run_step
execute_node-Finished sv s started now c keeps avoids =
    let c₁ = (handle_recovery s started c).2 in
    elim (Bool-cases ((handle_recovery s started c).0)) [
      | inl recovered ↦
          rw (recovered, execute_node) (handle_recovery-Finished s started c recovered)
      | inr ahead ↦ elim (Bool-cases ((evaluate_when sv s c₁).0)) [
        | inl skips ↦
            rw (ahead, skips, execute_node) (λ e. evaluate_when-Good s started now sv c₁ skips)
        | inr holds ↦ elim (Option-cases ((evaluate_when sv s c₁).1)) [
          | inr (f, bad) ↦ rw (ahead, holds, bad, execute_node) (failing s f _)
          | inl fine ↦
              let c₂ = (evaluate_when sv s c₁).2 in
              rw (ahead, holds, fine, execute_node)
                (elim (Option-cases (mock_of s c₂)) [
                  | inl real ↦
                      rw (real, run_step) (run_action-Good s started now sv keeps avoids c₂)
                  | inr (tc, mocked) ↦ rw (mocked, run_step) (run_mock-Good s started now tc c₂)
                ])
        ]
      ]
    ]
