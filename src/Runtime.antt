-- ===== src/Runtime.antt =====
-- internal/runtime/context.go: the results of the steps, and the part of an execution's context that the
-- executor itself reads and writes. Each operation holds the context's lock from its start to its end.
pub mod Expression
use tailflow_agent.Prelude.{ℕ, String, Bool, false, ◌||◌, Option, [], ◌∷◌, ◌==◌}
use tailflow_agent.Prelude.Dict.{Dict, lookup, insert, erase}
use tailflow_agent.Value.{Value, Fields}
use tailflow_agent.Status

pub record StepError : Type 0 where
  pub message : String
  pub code : String
  pub step_id : String

pub record StepResult : Type 0 where
  pub status : String
  pub input : Value
  pub output : Value
  pub error : Option StepError
  pub started_at : Option ℕ
  pub finished_at : Option ℕ

pub record ExecutionContext : Type 0 where
  pub steps : Dict StepResult
  pub variables : Dict Value
  pub trigger_data : Fields
  pub test_case_name : String
  pub resumed : Bool

unfoldable pub set_step_result : String → StepResult → ExecutionContext → ExecutionContext
set_step_result id r c = record c { steps = insert id r c.steps }

unfoldable pub get_step_result : String → ExecutionContext → Option StepResult
get_step_result id c = lookup id c.steps

unfoldable pub clear_step_result : String → ExecutionContext → ExecutionContext
clear_step_result id c = record c { steps = erase id c.steps }

-- The loop of `HasFailedSteps`; Go visits the map in any order.
unfoldable pub any_failed : Dict StepResult → Bool
any_failed [] = false
any_failed ((k, r) ∷ steps) = let rest = any_failed steps in r.status == Status.failed || rest

unfoldable pub has_failed_steps : ExecutionContext → Bool
unfolding any_failed
has_failed_steps c = any_failed c.steps

unfoldable pub set_variable : String → Value → ExecutionContext → ExecutionContext
set_variable key v c = record c { variables = insert key v c.variables }

unfoldable pub get_variable : String → ExecutionContext → Option Value
get_variable key c = lookup key c.variables
