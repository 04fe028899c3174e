-- ===== src/Parser/Validate/Samples.antt =====
-- A small workflow, and the theorems of the validation at it.
use tailflow_agent.Prelude.{◌≡◌, refl, ◌↔◌, none, some, [], ◌∷◌, arith, if◌then◌else◌, ◌==◌, false}
use tailflow_agent.Prelude.Int.{negsuc}
use tailflow_agent.Parser.Schema.{Workflow}
use tailflow_agent.Parser.Validate.{
  self_dependency, duplicate_step, unknown_stage, negative_cap, step_fields, check_steps,
  check_deps, check_all_deps, validate_steps, check_stages, check_step_stages, validate_stages,
  validate_params, validate_trigger, validate_testing, validate_on_error, validate_persistence,
  validate_header, validate,
}
use tailflow_agent.Parser.Validate.Steps.{ValidSteps, validate_steps_iff}
use tailflow_agent.Parser.Validate.Whole.{ValidWorkflow, validate-ValidWorkflow, build_dag-validate}
use tailflow_agent.Engine.Dag.{Dag, ok, build_dag}
use tailflow_agent.Engine.Dag.Samples.{step}

abbrev sample : Workflow
sample = record {
  version = "2.0";
  name = "sample";
  params = [];
  env = [];
  sensitive = [];
  trigger = some (record {
    http = some (record { method = "POST"; path = "/run"; async = false; idempotency_key = "" });
    webhook = none;
    schedule = none;
    rabbitmq = none;
  });
  recovery = false;
  persistence = none;
  stages = record { name = "main"; line = 3 } ∷ [];
  on_error = [];
  steps = step "a" [] none ∷ step "b" ("a" ∷ []) none ∷ [];
}

program : Unit {0}
unfolding validate validate_header validate_stages check_stages check_step_stages validate_steps
    check_steps step_fields check_deps check_all_deps validate_params validate_trigger
    validate_on_error validate_testing validate_persistence
program = tt

accepted : validate sample ≡ []
unfolding program
accepted = refl

rejected :
    (validate_steps (step "a" ("a" ∷ []) none ∷ step "a" [] none ∷ [])
      ≡ duplicate_step 0 "a" ∷ self_dependency 0 "a" ∷ [])
    × (validate_stages (record { name = "other"; line = 3 } ∷ []) (step "a" [] none ∷ [])
        ≡ unknown_stage 0 "a" "main" ∷ [])
    × (validate_persistence (
          some (record {
            type = "";
            memory = some (record { max_executions = negsuc 0 });
            mariadb = none;
          }))
        ≡ negative_cap ∷ [])
unfolding program
rejected = (refl, refl, refl)

validate-ValidWorkflow_example : ValidWorkflow sample
validate-ValidWorkflow_example = validate-ValidWorkflow sample accepted

validate_steps_iff_example : (validate_steps sample.steps ≡ []) ↔ ValidSteps sample.steps
validate_steps_iff_example = validate_steps_iff sample.steps

build_dag-validate_example : (d : Dag) × (build_dag sample.steps ≡ ok d)
build_dag-validate_example =
    build_dag-validate sample (λ k. if k == "a" then 0 else 1) accepted
      (tt, ((omega arith, tt), tt)) (refl, (refl, tt))
