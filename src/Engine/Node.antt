-- ===== src/Engine/Node.antt =====
-- internal/engine/engine_node.go, engine_retry.go, engine_outcome.go and engine_result.go: what the
-- executor does for one step. The evaluator of expressions and the actions are parameters
-- (`Services`). Events, logs and traces are left out, and a time is the one number `now`.
pub mod Retry
pub mod Errors
pub mod Recovery
pub mod Samples
use tailflow_agent.Prelude.{
  ℕ, zero, suc, ◌+◌, String, Bool, true, false, ◌||◌, ◌&&◌, Option, none, some, List, [], ◌∷◌,
  if◌then◌else◌, ◌==◌, ltb,
}
use tailflow_agent.Prelude.Dict.{Dict, is_some}
use tailflow_agent.Prelude.Int.{ℤ, pos, negsuc}
use tailflow_agent.Value.{Value, Fields, append_fields}
use tailflow_agent.Parser.Schema.{Step, ErrorStep, RetryConfig}
use tailflow_agent.Runtime.{
  StepError, StepResult, ExecutionContext, set_step_result, get_step_result, clear_step_result,
  has_failed_steps,
}
use tailflow_agent.Status

-- A Go error, as far as `errors.Is` tells errors apart here.
pub data Failure : Type 0 where
  deadline_exceeded : String → Failure
  canceled : String → Failure
  other : String → Failure

-- `err.Error()`
abbrev pub message : Failure → String
message (deadline_exceeded m) = m
message (canceled m) = m
message (other m) = m

-- What a call of an action returns, with the context that it leaves.
pub record Outcome : Type 0 where
  pub output : Value
  pub error : Option Failure
  pub context : ExecutionContext

pub record Services : Type 0 where
  -- `e.eval.EvalBool` and `e.eval.ResolveConfig`; `none` is an error
  pub eval_bool : String → ExecutionContext → Option Bool
  pub resolve_config : Dict Value → ExecutionContext → Option (Dict Value)
  -- `e.registry.Create`; a created action is its name
  pub registered : String → Bool
  -- `act.Validate` and `act.Execute`
  pub validate : String → Dict Value → ExecutionContext → Option Failure
  pub execute : String → Dict Value → ExecutionContext → Outcome
  -- the error of a context that ends in the wait before an attempt
  pub interrupted : ℕ → Option Failure

-- How often the loop of `executeWithRetry` goes round: not at all for a number below 1.
abbrev pub max_attempts : Option RetryConfig → ℕ
max_attempts none = 1
max_attempts (some r) = elim r.max_attempts [ pos n ↦ n | negsuc n ↦ 0 ]

-- The loop of `executeWithRetry` from attempt `attempt` on, with `n` attempts left: `wait` is
-- `waitForRetry`, an error when the context ends first, and `run` the call of the action.
module _ {C : Type 0} (wait : ℕ → Option Failure) (run : ℕ → C → (Value × Option Failure) × C) where
  unfoldable pub retry_from : ℕ → ℕ → (Value × Option Failure) × C → (Value × Option Failure) × C
  retry_from zero attempt last = last
  retry_from (suc n) attempt last = elim (if ltb 1 attempt then wait attempt else none) [
    | some f ↦ ((Value.null, some f), last.1)
    | none ↦ elim ((run attempt last.1).0.1) [
      | none ↦ run attempt last.1
      | some f ↦ retry_from n (suc attempt) (run attempt last.1)
    ]
  ]

  unfoldable pub execute_with_retry : Option RetryConfig → C → (Value × Option Failure) × C
  unfolding retry_from
  execute_with_retry retry c = retry_from (max_attempts retry) 1 ((Value.null, none), c)

-- `stepError`
abbrev pub error_code : Failure → String
error_code (deadline_exceeded m) = "timeout"
error_code (canceled m) = "cancelled"
error_code (other m) = "action_failed"

abbrev pub step_error : String → Failure → StepError
step_error id f = record { message = message f; code = error_code f; step_id = id }

-- A result without times.
abbrev pub bare_result : String → Value → Option StepError → StepResult
bare_result status output error = record {
  status = status;
  input = Value.null;
  output = output;
  error = error;
  started_at = none;
  finished_at = none;
}

-- One round of the loop of `executeOnError`.
unfoldable pub execute_error_step : Services → ErrorStep → ExecutionContext → ExecutionContext
unfolding set_step_result
execute_error_step sv s c = elim (sv.resolve_config s.config c) [
  | none ↦ c
  | some config ↦
      if sv.registered s.action
      then (let r = sv.execute s.action config c in
          elim (r.error) [
            | some f ↦
                set_step_result s.id
                  (bare_result Status.failed Value.null (some (step_error s.id f))) r.context
            | none ↦ set_step_result s.id (bare_result Status.success r.output none) r.context
          ])
      else c
]

unfoldable pub execute_on_error : Services → List ErrorStep → ExecutionContext → ExecutionContext
unfolding execute_error_step
execute_on_error sv [] c = c
execute_on_error sv (s ∷ ss) c = execute_on_error sv ss (execute_error_step sv s c)

-- `{"_suppressed_error": ...}` with the fields of the output, if that is a map, over it.
abbrev pub suppressed_output : Failure → Value → Value
suppressed_output f (Value.object fields) =
    Value.object
      (append_fields fields (Fields.field "_suppressed_error" (Value.text (message f)) Fields.end))
suppressed_output f v =
    Value.object (Fields.field "_suppressed_error" (Value.text (message f)) Fields.end)

unfoldable pub handle_ignored_error :
    Step → Value → Failure → ℕ → ℕ → ExecutionContext → Option Failure × ExecutionContext
unfolding set_step_result
handle_ignored_error s output f started now c = (
  none,
  set_step_result s.id
      (record (bare_result Status.success (suppressed_output f output) none) {
        started_at = some started;
        finished_at = some now;
      })
      c,
)

unfoldable pub handle_step_error :
    Services → Step → Value → Failure → ℕ → ℕ → ExecutionContext → Option Failure × ExecutionContext
unfolding set_step_result handle_ignored_error execute_on_error
handle_step_error sv s output f started now c =
    let failed =
      set_step_result s.id
        (record (bare_result Status.failed output (some (step_error s.id f))) {
          started_at = some started;
          finished_at = some now;
        })
        c in
    let after = execute_on_error sv s.on_error failed in
    if s.error_policy == "ignore"
    then handle_ignored_error s output f started now c
    else (if s.error_policy == "continue" then none else some f, after)

-- `recordStepSuccess`
unfoldable pub record_step_success : Step → Value → ℕ → ℕ → ExecutionContext → ExecutionContext
unfolding set_step_result
record_step_success s output started now =
    set_step_result s.id (record (bare_result Status.success output none) {
      started_at = some started;
      finished_at = some now;
    })

-- `handleRecovery`: whether the step is not to be run, the error if so, and the context. The text of
-- the error is kept without the step's name, which the source puts before it.
unfoldable pub handle_recovery :
    Step → ℕ → ExecutionContext → Bool × Option Failure × ExecutionContext
unfolding set_step_result get_step_result clear_step_result
handle_recovery s now c = elim (if c.resumed then get_step_result s.id c else none) [
  | none ↦ (false, none, c)
  | some r ↦
      if r.status == Status.success || r.status == Status.skipped
      then (true, none, c)
      else if r.status == Status.running
      then (if s.on_recovery == "skip"
          then (
            true,
            none,
            set_step_result s.id
                (record (bare_result Status.success Value.null none) {
                  started_at = r.started_at;
                  finished_at = some now;
                })
                c,
          )
          else if s.on_recovery == "fail"
          then (
            true,
            some (other "recovery failed, manual intervention required"),
            set_step_result s.id
                (record (bare_result Status.failed Value.null (
                  some (record {
                    message = "step was running at crash time and on_recovery=fail";
                    code = "recovery_failed";
                    step_id = s.id;
                  }))) { started_at = r.started_at; finished_at = some now })
                c,
          )
          else (false, none, clear_step_result s.id c))
      else (false, none, c)
]

-- `determineStatus`: `cancelled` says that the context of the execution has ended.
unfoldable pub determine_status : Bool → Option Failure → ExecutionContext → String × Bool
unfolding has_failed_steps
determine_status cancelled error c =
    if is_some error && cancelled
    then (Status.cancelled, false)
    else if is_some error
    then (Status.failed, false)
    else if has_failed_steps c
    then (Status.completed_with_errors, true)
    else (Status.success, false)
