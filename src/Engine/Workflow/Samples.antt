-- ===== src/Engine/Workflow/Samples.antt =====
-- A workflow with a required parameter, its execution, and the theorems there.
use tailflow_agent.Prelude.{
  String, ◌≡◌, ◌≢◌, refl, Bool, Option, none, some, List, [], ◌∷◌, false, true, ◌==◌, if◌then◌else◌,
}
use tailflow_agent.Prelude.Dict.{Dict, lookup, insert}
use tailflow_agent.Value.{Value, Fields}
use tailflow_agent.Parser.Schema.{Param, Workflow}
use tailflow_agent.Runtime.{ExecutionContext}
use tailflow_agent.Engine.Dag.{Dag, ok, build_dag}
use tailflow_agent.Engine.Dag.Samples.{step, program}
use tailflow_agent.Engine.Node.{Failure}
use tailflow_agent.Engine.Node.Samples.{services}
use tailflow_agent.Engine.Workflow.{
  Environment, resolve_params, resolve_env, ExecuteOptions, ExecuteResult, execute,
}
use tailflow_agent.Engine.Workflow.Params.{IsResolved, resolve_params-IsResolved}
use tailflow_agent.Engine.Workflow.Outcome.{IsTold, execute_outcome}
use tailflow_agent.Status

abbrev environment : Environment
environment = record {
  eval = λ e params. if e == "now()" then some (Value.text "12:00") else none;
  resolve_template = λ s params. some s;
  match_string = λ pattern_ s. some true;
  expand_env = λ s. s;
}

abbrev param : String → Bool → Option Value → Param
param name required default = record {
  name = name;
  type = "string";
  required = required;
  default = default;
  pattern_ = "";
  line = 0;
}

abbrev declared : List Param
declared = param "user" true none ∷ param "at" false (some (Value.text "{{ now() }}")) ∷ []

abbrev given : Dict Value
given = ("user", Value.text "ann") ∷ ("extra", Value.null) ∷ []

abbrev resolved : Dict Value
resolved = ("user", Value.text "ann") ∷ ("at", Value.text "12:00") ∷ ("extra", Value.null) ∷ []

resolves : resolve_params environment declared given ≡ some resolved
unfolding resolve_params lookup insert
resolves = refl

missing : resolve_params environment declared [] ≡ none
unfolding resolve_params lookup insert
missing = refl

resolve_params-IsResolved_example : IsResolved environment declared given resolved
resolve_params-IsResolved_example =
    resolve_params-IsResolved environment declared given resolved resolves

abbrev workflow : Workflow
workflow = record {
  version = "1";
  name = "w";
  params = declared;
  env = ("HOME", "/root") ∷ [];
  sensitive = [];
  trigger = none;
  recovery = false;
  persistence = none;
  stages = [];
  on_error = record { id = "n"; action = "log"; config = [] } ∷ [];
  steps = step "a" [] none ∷ [];
}

environs : resolve_env environment workflow.env resolved ≡ some (("HOME", "/root") ∷ [])
unfolding resolve_env
environs = refl

builds : (d : Dag) × (build_dag workflow.steps ≡ ok d)
unfolding program
builds = (_, refl)

abbrev options : ExecuteOptions
options = record {
  trigger_data = Fields.end;
  test_case_name = "";
  resumed = false;
  recovered_steps = [];
}

-- A run that leaves nothing behind.
abbrev idle : Dag → Dict Value → Dict String → ExecutionContext → Option Failure × ExecutionContext
idle d params env c = (none, c)

abbrev never : ExecutionContext → Bool
never c = false

execute_outcome_example :
    (r : ExecuteResult) × (execute environment services idle never never workflow given options
      ≡ some r)
    × IsTold r
    × (((c : ExecutionContext) → (never c ≡ false) × (never c ≡ false))
        → r.status ≢ Status.cancelled)
execute_outcome_example =
    execute_outcome environment services idle never never workflow given options resolved
      (("HOME", "/root") ∷ []) builds.0 resolves environs builds.1
