-- ===== src/Engine/Node/Samples.antt =====
-- A step that fails, a retry that succeeds, and the theorems about one step there.
use tailflow_agent.Prelude.{
  ℕ, suc, ◌≡◌, refl, true, ◌||◌, Option, none, some, [], ◌∷◌, arith, if◌then◌else◌, ◌==◌, eqb,
}
use tailflow_agent.Prelude.Int.{pos}
use tailflow_agent.Value.{Value, Fields}
use tailflow_agent.Parser.Schema.{Step, RetryConfig}
use tailflow_agent.Engine.Dag.Samples.{step}
use tailflow_agent.Runtime.{ExecutionContext, get_step_result}
use tailflow_agent.Engine.Node.{
  Failure, other, canceled, Services, retry_from, execute_with_retry, handle_step_error,
  handle_recovery, bare_result,
}
use tailflow_agent.Status
use tailflow_agent.Engine.Node.Retry.{execute_with_retry-call, execute_with_retry-failure}
use tailflow_agent.Engine.Node.Errors.{KeepsSteps, recorded, handle_step_error_correct}
use tailflow_agent.Engine.Node.Recovery.{Recovered, Recovers, handle_recovery_correct}

-- An action that counts its calls and fails at the first one.
abbrev flaky : ℕ → ℕ → (Value × Option Failure) × ℕ
flaky attempt calls = ((Value.null, if eqb calls 0 then some (other "busy") else none), suc calls)

abbrev no_wait : ℕ → Option Failure
no_wait attempt = none

abbrev interrupted : ℕ → Option Failure
interrupted attempt = some (canceled "context canceled")

abbrev thrice : Option RetryConfig
thrice = some (record { max_attempts = pos 3; delay = "" })

abbrev once : Option RetryConfig
once = some (record { max_attempts = pos 1; delay = "" })

execute_with_retry-call_example :
    execute_with_retry no_wait flaky thrice 0 ≡ ((Value.null, none), 2)
execute_with_retry-call_example =
    execute_with_retry-call no_wait flaky 1 thrice 0 (omega arith) (refl, (other "busy", refl), tt)
      refl refl

execute_with_retry-failure_example :
    execute_with_retry no_wait flaky once 0 ≡ ((Value.null, some (other "busy")), 1)
execute_with_retry-failure_example =
    execute_with_retry-failure no_wait flaky 0 once 0 refl (refl, (other "busy", refl), tt)

-- A retry block without `max_attempts`: nothing is called, and there is no error.
never_called :
    execute_with_retry no_wait flaky (some (record { max_attempts = pos 0; delay = "1s" })) 0
    ≡ ((Value.null, none), 0)
unfolding execute_with_retry retry_from
never_called = refl

-- Services whose only action succeeds and changes nothing.
abbrev pub services : Services
services = record {
  eval_bool = λ s c. some true;
  resolve_config = λ config c. some config;
  registered = λ action. action == "log";
  validate = λ action config c. none;
  interrupted = λ attempt. none;
  execute = λ action config c. record { output = Value.null; error = none; context = c };
}

abbrev pub failing : Step
failing = record (step "a" [] none) {
  error_policy = "continue";
  on_error = record { id = "n"; action = "log"; config = [] } ∷ [];
}

abbrev pub empty : ExecutionContext
empty = record {
  steps = [];
  variables = [];
  resumed = true;
  trigger_data = Fields.end;
  test_case_name = "";
}

pub services-KeepsSteps : KeepsSteps services
services-KeepsSteps = record { keeps = λ action config c. refl }

handle_step_error_correct_example :
    ((handle_step_error services failing Value.null (other "x") 1 2 empty).0 ≡ (
      if failing.error_policy == "ignore" || failing.error_policy == "continue"
      then none
      else some (other "x")))
    × (get_step_result "a" (handle_step_error services failing Value.null (other "x") 1 2 empty).1
        ≡ some (recorded failing Value.null (other "x") 1 2))
handle_step_error_correct_example =
    handle_step_error_correct services failing Value.null (other "x") 1 2 empty services-KeepsSteps
      (refl, tt)

-- A resumed execution, at whose interruption the step was running.
abbrev crashed : ExecutionContext
crashed = record empty { steps = ("a", bare_result Status.running Value.null none) ∷ [] }

handle_recovery_correct_example :
    Recovered "a" (handle_recovery failing 5 crashed)
    × Recovers failing crashed (handle_recovery failing 5 crashed)
handle_recovery_correct_example = handle_recovery_correct failing 5 crashed refl
