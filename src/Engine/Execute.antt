-- ===== src/Engine/Execute.antt =====
-- internal/engine/engine_node.go: `executeNode`, from the recovery of a step to its recorded result. The
-- texts of errors of the evaluator and of the registry are left out, and so are events and traces.
pub mod Ended
pub mod Frame
pub mod Samples
use tailflow_agent.Prelude.{
  ℕ, String, Bool, true, false, not, ◌&&◌, ◌||◌, Option, none, some, List, [], ◌∷◌, if◌then◌else◌,
  ◌==◌,
}
use tailflow_agent.Prelude.Dict.{Dict, lookup, insert, erase, is_some}
use tailflow_agent.Value.{Value, Items, Fields, as_object, as_array}
use tailflow_agent.Value.Print.{append}
use tailflow_agent.Parser.Schema.{Step, TestCase}
use tailflow_agent.Runtime.{StepResult, ExecutionContext, set_step_result, get_step_result}
use tailflow_agent.Engine.Node.{
  Failure, deadline_exceeded, canceled, other, Outcome, Services, bare_result, execute_with_retry,
  record_step_success, handle_step_error, handle_recovery,
}
use tailflow_agent.Engine.TestCase.{find_test_case, apply_test_mock, check_test_expect}
use tailflow_agent.Status

-- `fmt.Errorf("...: %w", err)`
abbrev pub wrap : String → Failure → Failure
wrap prefix (deadline_exceeded m) = deadline_exceeded (append prefix m)
wrap prefix (canceled m) = canceled (append prefix m)
wrap prefix (other m) = other (append prefix m)

-- `evaluateWhenCondition`: whether the step is skipped, the error if so, and the context.
unfoldable pub evaluate_when :
    Services → Step → ExecutionContext → Bool × Option Failure × ExecutionContext
unfolding set_step_result
evaluate_when sv s c = if s.when == "" then (false, none, c) else elim (sv.eval_bool s.when c) [
  | none ↦ (false, some (other "eval when condition"), c)
  | some true ↦ (false, none, c)
  | some false ↦ (true, none, set_step_result s.id (bare_result Status.skipped Value.null none) c)
]

-- The entry of the configuration that is a map, or a list.
abbrev raw_object : Option Value → Option Value
raw_object none = none
raw_object (some v) = elim (as_object v) [ none ↦ none | some fs ↦ some (Value.object fs) ]

abbrev raw_array : Option Value → Option Value
raw_array none = none
raw_array (some v) = elim (as_array v) [ none ↦ none | some xs ↦ some (Value.array xs) ]

-- `extractLoopConfig`: the configuration to resolve, and what a loop keeps unresolved.
unfoldable pub extract_loop_config : Step → Dict Value × Option Value × Option Value
extract_loop_config s =
    if s.action == "loop"
    then (
      erase "action_config" (erase "actions" s.config),
      raw_object (lookup "action_config" s.config),
      raw_array (lookup "actions" s.config),
    )
    else (s.config, none, none)

-- An entry that is put back, if there is one.
abbrev put_back : String → Option Value → Dict Value → Dict Value
put_back k none config = config
put_back k (some v) config = insert k v config

-- `resolveStepConfig`
unfoldable pub resolve_step_config : Services → Step → ExecutionContext → Option (Dict Value)
unfolding extract_loop_config
resolve_step_config sv s c =
    let (to_resolve, action_config, actions) = extract_loop_config s in
    elim (sv.resolve_config to_resolve c) [
      | none ↦ none
      | some config ↦
          some (put_back "actions" actions (put_back "action_config" action_config config))
    ]

-- `prepareStepInput`, which the events and the traces of a step show.
abbrev config_fields : Dict Value → Fields
config_fields [] = Fields.end
config_fields ((k, v) ∷ config) =
    let rest = config_fields config in if k == "script" then rest else Fields.field k v rest

abbrev is_null : Value → Bool
is_null Value.null = true
is_null v = false

abbrev dependency_fields : List String → ExecutionContext → Fields
dependency_fields [] c = Fields.end
dependency_fields (dep ∷ deps) c =
    let rest = dependency_fields deps c in
    elim (lookup dep c.steps) [
      | none ↦ rest
      | some r ↦ if is_null r.output then rest else Fields.field dep r.output rest
    ]

-- A map that is empty is left out.
abbrev if_any : String → Fields → Fields → Fields
if_any k Fields.end rest = rest
if_any k (Fields.field j v fs) rest = Fields.field k (Value.object (Fields.field j v fs)) rest

pub prepare_step_input : Step → Dict Value → ExecutionContext → Fields
prepare_step_input s config c =
    if_any "config" (config_fields config) (
      if_any "trigger" c.trigger_data (if_any "deps" (dependency_fields s.depends_on c) Fields.end))

-- One call of the action.
abbrev pub call_action :
    Services
    → Step
    → Dict Value
    → ℕ
    → ExecutionContext
    → (Value × Option Failure) × ExecutionContext
call_action sv s config attempt c =
    let r = sv.execute s.action config c in ((r.output, r.error), r.context)

-- The expectation of the test case that is run, once the step has succeeded.
unfoldable pub expected : Step → ExecutionContext → Option Failure
unfolding find_test_case check_test_expect
expected s c =
    if c.test_case_name == "" then none else elim (find_test_case c.test_case_name s.testing) [
      | none ↦ none
      | some tc ↦ elim (tc.expect) [ none ↦ none | some x ↦ check_test_expect s x c ]
    ]

-- What is done with what the action returned.
abbrev pub finish_action :
    Services
    → Step
    → ℕ
    → ℕ
    → (Value × Option Failure) × ExecutionContext
    → Option Failure × ExecutionContext
finish_action sv s started now r = elim (r.0.1) [
  | some f ↦ handle_step_error sv s r.0.0 f started now r.1
  | none ↦ let done = record_step_success s r.0.0 started now r.1 in (expected s done, done)
]

-- The action of a step: configured, created, validated and run.
unfoldable pub run_action :
    Services → Step → ℕ → ℕ → ExecutionContext → Option Failure × ExecutionContext
unfolding resolve_step_config execute_with_retry
run_action sv s started now c = elim (resolve_step_config sv s c) [
  | none ↦ (some (other "resolve config"), c)
  | some config ↦
      if sv.registered s.action
      then elim (sv.validate s.action config c) [
        | some f ↦ (some (wrap "validate: " f), c)
        | none ↦
            finish_action sv s started now
              (execute_with_retry sv.interrupted (call_action sv s config) s.retry c)
      ]
      else (some (other "unknown action"), c)
]

-- The test case that mocks the step: it has the name that is run, and an output or an error.
unfoldable pub mock_of : Step → ExecutionContext → Option TestCase
unfolding find_test_case
mock_of s c =
    if c.test_case_name == "" then none else elim (find_test_case c.test_case_name s.testing) [
      | none ↦ none
      | some tc ↦ if is_some tc.output || is_some tc.error then some tc else none
    ]

-- A mocked step: its expectation is checked only if the mock is no error.
unfoldable pub run_mock : Step → TestCase → ℕ → ExecutionContext → Option Failure × ExecutionContext
unfolding apply_test_mock check_test_expect
run_mock s tc now c =
    let (err, c') = apply_test_mock s tc now c in
    elim err [
      | some f ↦ (some f, c')
      | none ↦ (elim (tc.expect) [ none ↦ none | some x ↦ check_test_expect s x c' ], c')
    ]

-- The step once it is not recovered and not skipped.
unfoldable pub run_step :
    Services → Step → ℕ → ℕ → ExecutionContext → Option Failure × ExecutionContext
unfolding mock_of run_mock run_action
run_step sv s started now c = elim (mock_of s c) [
  | some tc ↦ run_mock s tc now c
  | none ↦ run_action sv s started now c
]

unfoldable pub execute_node :
    Services → Step → ℕ → ℕ → ExecutionContext → Option Failure × ExecutionContext
unfolding handle_recovery evaluate_when run_step
execute_node sv s started now c =
    let (recovered, err, c₁) = handle_recovery s started c in
    if recovered
    then (err, c₁)
    else (let (skipped, failed, c₂) = evaluate_when sv s c₁ in
        if skipped || is_some failed then (failed, c₂) else run_step sv s started now c₂)
