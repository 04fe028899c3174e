-- ===== src/Engine/Execute/Frame.antt =====
-- internal/engine/engine_node.go: a step changes its own result only.
use tailflow_agent.Prelude.{
  ℕ, String, ◌≡◌, refl, ◌∙◌, ap, inl, inr, true, false, Option, none, some, ◌==◌, ◌||◌, Bool-cases,
  Option-cases,
}
use tailflow_agent.Prelude.Dict.{Dict, lookup, lookup-erase, is_some}
use tailflow_agent.Value.{Value}
use tailflow_agent.Parser.Schema.{Step, TestCase}
use tailflow_agent.Runtime.{
  StepResult, ExecutionContext, set_step_result, get_step_result, clear_step_result,
}
use tailflow_agent.Engine.Node.{
  Failure, Services, execute_with_retry, record_step_success, handle_recovery,
}
use tailflow_agent.Engine.Node.Errors.{
  KeepsSteps, Avoids, set_step_result-others, handle_step_error-others,
}
use tailflow_agent.Engine.Node.Recovery.{handle_recovery-others}
use tailflow_agent.Engine.Node.Retry.{retry_from-keeps}
use tailflow_agent.Engine.TestCase.{apply_test_mock}
use tailflow_agent.Engine.Execute.{
  evaluate_when, resolve_step_config, call_action, finish_action, run_action, mock_of, run_mock,
  run_step, execute_node,
}

module _ (s : Step) (k : String) (apart : (s.id == k) ≡ false) where
  -- The result of `k` is what it was in `c`.
  abbrev Same : ExecutionContext → ExecutionContext → Type 0
  Same c d = get_step_result k d ≡ get_step_result k c

  set-Same : (r : StepResult) (c : ExecutionContext) → Same c (set_step_result s.id r c)
  unfolding get_step_result
  set-Same r c = set_step_result-others s.id k r c apart

  clear-Same : (c : ExecutionContext) → Same c (clear_step_result s.id c)
  unfolding get_step_result clear_step_result
  clear-Same c = rw apart at (lookup-erase s.id k c.steps)

  success-Same :
      (output : Value) (started now : ℕ) (c : ExecutionContext)
      → Same c (record_step_success s output started now c)
  unfolding record_step_success
  success-Same output started now c = set-Same _ c

  handle_recovery-Same : (now : ℕ) (c : ExecutionContext) → Same c (handle_recovery s now c).2
  handle_recovery-Same now c = handle_recovery-others s now c k apart

  evaluate_when-Same : (sv : Services) (c : ExecutionContext) → Same c (evaluate_when sv s c).2
  unfolding evaluate_when
  evaluate_when-Same sv c = elim (Bool-cases (s.when == "")) [
    | inl unset ↦ rw (unset, evaluate_when) refl
    | inr set ↦ elim (Option-cases (sv.eval_bool s.when c)) [
      | inl bad ↦ rw (set, bad, evaluate_when) refl
      | inr (true, holds) ↦ rw (set, holds, evaluate_when) refl
      | inr (false, fails) ↦ rw (set, fails, evaluate_when) (set-Same _ c)
    ]
  ]

  apply_test_mock-Same :
      (tc : TestCase) (now : ℕ) (c : ExecutionContext) → Same c (apply_test_mock s tc now c).1
  unfolding apply_test_mock
  apply_test_mock-Same tc now c = elim (Option-cases (tc.error)) [
    | inl fine ↦ rw (fine, apply_test_mock) (success-Same _ now now c)
    | inr (x, failed) ↦ rw (failed, apply_test_mock) (set-Same _ c)
  ]

  run_mock-Same : (tc : TestCase) (now : ℕ) (c : ExecutionContext) → Same c (run_mock s tc now c).1
  unfolding run_mock
  run_mock-Same tc now c = elim (Option-cases ((apply_test_mock s tc now c).0)) [
    | inl fine ↦ rw (fine, run_mock) (apply_test_mock-Same tc now c)
    | inr (f, failed) ↦ rw (failed, run_mock) (apply_test_mock-Same tc now c)
  ]

  module _ (sv : Services) (keeps : KeepsSteps sv) (avoids : Avoids k s.on_error)
      (started now : ℕ) where
    execute_with_retry-Same :
        (config : Dict Value) (c : ExecutionContext)
        → Same c (execute_with_retry sv.interrupted (call_action sv s config) s.retry c).1
    unfolding execute_with_retry get_step_result
    execute_with_retry-Same config c =
        retry_from-keeps sv.interrupted (call_action sv s config) (Same c)
          (λ a d same. ap (lookup k) (keeps.keeps s.action config d) ∙ same) _ 1 _ refl

    finish_action-Same :
        (r : (Value × Option Failure) × ExecutionContext)
        → Same r.1 (finish_action sv s started now r).1
    finish_action-Same ((output, none), c) = success-Same output started now c
    finish_action-Same ((output, some f), c) =
        handle_step_error-others sv s output f started now c k keeps apart avoids

    run_action-Same : (c : ExecutionContext) → Same c (run_action sv s started now c).1
    unfolding run_action
    run_action-Same c = elim (Option-cases (resolve_step_config sv s c)) [
      | inl bad ↦ rw (bad, run_action) refl
      | inr (config, good) ↦ elim (Bool-cases (sv.registered s.action)) [
        | inr unknown ↦ rw (good, unknown, run_action) refl
        | inl known ↦ elim (Option-cases (sv.validate s.action config c)) [
          | inr (f, invalid) ↦ rw (good, known, invalid, run_action) refl
          | inl valid ↦
              rw (good, known, valid, run_action)
                (finish_action-Same
                    (execute_with_retry sv.interrupted (call_action sv s config) s.retry c)
                  ∙ execute_with_retry-Same config c)
        ]
      ]
    ]

    run_step-Same : (c : ExecutionContext) → Same c (run_step sv s started now c).1
    unfolding run_step
    run_step-Same c = elim (Option-cases (mock_of s c)) [
      | inl real ↦ rw (real, run_step) (run_action-Same c)
      | inr (tc, mocked) ↦ rw (mocked, run_step) (run_mock-Same tc now c)
    ]

    -- If the actions leave the step results alone, `executeNode` changes the result of no step other than
    -- the one it runs and those of its `on_error`.
    pub execute_node-others :
        (c : ExecutionContext)
        → get_step_result k (execute_node sv s started now c).1 ≡ get_step_result k c
    unfolding execute_node
    execute_node-others c =
        let c₁ = (handle_recovery s started c).2 in
        let first = handle_recovery-Same started c in
        elim (Bool-cases ((handle_recovery s started c).0)) [
          | inl recovered ↦ rw (recovered, execute_node) first
          | inr ahead ↦
              elim (Bool-cases ((evaluate_when sv s c₁).0 || is_some (evaluate_when sv s c₁).1)) [
                | inl stops ↦ rw (ahead, stops, execute_node) (evaluate_when-Same sv c₁ ∙ first)
                | inr goes ↦
                    rw (ahead, goes, execute_node)
                      (run_step-Same (evaluate_when sv s c₁).2 ∙ evaluate_when-Same sv c₁ ∙ first)
              ]
        ]
