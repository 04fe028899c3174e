-- ===== src/Engine/TestCase.antt =====
-- internal/engine/engine_testcase.go: the mocks and the expectations of a test case. The text of an
-- expectation that is not met is left out.
pub mod Matching
pub mod Samples
use tailflow_agent.Prelude.{
  ℕ, String, Bool, true, false, not, ◌&&◌, ◌||◌, Option, none, some, List, [], ◌∷◌, if◌then◌else◌,
  ◌==◌,
}
use tailflow_agent.Prelude.Dict.{get_or}
use tailflow_agent.Value.{Value, Items, Fields, field_of}
use tailflow_agent.Value.Print.{print_value}
use tailflow_agent.Parser.Schema.{Step, TestCase, TestCaseExpect, TestCaseError}
use tailflow_agent.Runtime.{
  StepResult, StepError, ExecutionContext, set_step_result, get_step_result,
}
use tailflow_agent.Engine.Node.{Failure, other, bare_result, record_step_success}
use tailflow_agent.Status

unfoldable pub find_test_case : String → List TestCase → Option TestCase
find_test_case name [] = none
find_test_case name (tc ∷ tcs) =
    let rest = find_test_case name tcs in if tc.name == name then some tc else rest

-- `partialMatch`: true for no error.
unfoldable mutual
  pub partial_match : Value → Value → Bool
  partial_match (Value.object fs) (Value.object gs) = match_fields fs gs
  partial_match (Value.object fs) actual = false
  partial_match (Value.array xs) (Value.array ys) = match_items xs ys
  partial_match (Value.array xs) actual = false
  partial_match expected actual = print_value expected == print_value actual

  pub match_fields : Fields → Fields → Bool
  match_fields Fields.end gs = true
  match_fields (Fields.field k v fs) gs = elim (field_of k gs) [
    | none ↦ false
    | some w ↦ partial_match v w && match_fields fs gs
  ]

  pub match_items : Items → Items → Bool
  match_items Items.nil Items.nil = true
  match_items (Items.cons v xs) (Items.cons w ys) = partial_match v w && match_items xs ys
  match_items xs ys = false

-- The three checks of `checkTestExpect` on a result.
abbrev meets_output : Option Value → Value → Bool
meets_output none v = true
meets_output (some expected) v = partial_match expected v

abbrev meets_error : Option TestCaseError → Option StepError → Bool
meets_error none e = true
meets_error (some expected) none = false
meets_error (some expected) (some e) =
    (expected.message == "" || e.message == expected.message)
    && (expected.code == "" || e.code == expected.code)

abbrev pub meets : TestCaseExpect → StepResult → Bool
meets x r =
    (x.status == "" || r.status == x.status)
    && meets_output x.output r.output
    && meets_error x.error r.error

unfoldable pub check_test_expect : Step → TestCaseExpect → ExecutionContext → Option Failure
check_test_expect s x c = elim (get_step_result s.id c) [
  | none ↦ some (other "test expect")
  | some r ↦ if meets x r then none else some (other "test expect")
]

-- The mocked error, recorded as a failure of the step.
abbrev pub mock_error : Step → TestCaseError → StepError
mock_error s e = record {
  message = e.message;
  code = if e.code == "" then "action_failed" else e.code;
  step_id = s.id;
}

unfoldable pub apply_test_mock :
    Step → TestCase → ℕ → ExecutionContext → Option Failure × ExecutionContext
unfolding set_step_result record_step_success
apply_test_mock s tc now c = elim (tc.error) [
  | none ↦ (none, record_step_success s (get_or tc.output Value.null) now now c)
  | some e ↦ (
    if s.error_policy == "continue" || s.error_policy == "ignore"
        then none
        else some (other e.message),
    set_step_result s.id
        (record (bare_result Status.failed Value.null (some (mock_error s e))) {
          started_at = some now;
          finished_at = some now;
        })
        c,
  )
]
