-- ===== src/Engine/Workflow.antt =====
-- internal/engine/engine_result.go and engine.go: the parameters of an execution, and the execution of a
-- workflow. The expression language, regular expressions and the environment of the process are
-- parameters; the run of the graph, which `Scheduler` models step by step, is one function here.
pub mod Params
pub mod Outcome
pub mod Samples
use tailflow_agent.Prelude.{
  ℕ, String, Bool, true, false, not, ◌&&◌, ◌||◌, Option, none, some, List, [], ◌∷◌, length,
  if◌then◌else◌, ◌==◌, ltb,
}
use tailflow_agent.Prelude.Dict.{Dict, lookup, insert, is_some}
use tailflow_agent.Prelude.Texts.{contains_text, trim_prefix, trim_suffix, trim_space}
use tailflow_agent.Value.{Value, Fields}
use tailflow_agent.Value.Print.{append}
use tailflow_agent.Parser.Schema.{Param, Workflow}
use tailflow_agent.Runtime.{StepResult, ExecutionContext, has_failed_steps}
use tailflow_agent.Engine.Dag.{Dag, Result, ok, err, build_dag}
use tailflow_agent.Engine.Node.{Failure, Services, execute_on_error, determine_status}
use tailflow_agent.Status

pub record Environment : Type 0 where
  -- `e.eval.Eval` and `e.eval.ResolveTemplate` where "params" holds the parameters; `none` is an error
  pub eval : String → Dict Value → Option Value
  pub resolve_template : String → Dict Value → Option String
  -- `regexp.Compile` and `MatchString`; `none` is a pattern that does not compile
  pub match_string : String → String → Option Bool
  -- `os.ExpandEnv`
  pub expand_env : String → String

-- The first loop of `resolveParams`: what is given, else the default.
unfoldable pub given_or_default : List Param → Dict Value → Dict Value → Option (Dict Value)
given_or_default [] params resolved = some resolved
given_or_default (p ∷ ps) params resolved = elim (lookup p.name params) [
  | some v ↦ given_or_default ps params (insert p.name v resolved)
  | none ↦ elim (p.default) [
    | some v ↦ given_or_default ps params (insert p.name v resolved)
    | none ↦ if p.required then none else given_or_default ps params resolved
  ]
]

-- The expression of a default such as "{{ now() }}".
abbrev pub template_body : String → String
template_body s = trim_space (trim_suffix (trim_prefix s "{{") "}}")

-- The value of a default that is a template, where it has one.
abbrev template_value : Environment → Option Value → Dict Value → Option Value
template_value env (some (Value.text s)) resolved =
    if contains_text s "{{" then env.eval (template_body s) resolved else none
template_value env v resolved = none

-- The second loop: the defaults that are templates are evaluated; one that fails stays as it is.
unfoldable pub evaluate_defaults : Environment → List Param → Dict Value → Dict Value → Dict Value
evaluate_defaults env [] params resolved = resolved
evaluate_defaults env (p ∷ ps) params resolved = evaluate_defaults env ps params (
    if not (is_some p.default) || is_some (lookup p.name params)
    then resolved
    else elim (template_value env (lookup p.name resolved) resolved) [
      | none ↦ resolved
      | some v ↦ insert p.name v resolved
    ])

-- One round of the third loop: whether the value of a parameter has its pattern.
abbrev pub has_pattern : Environment → Param → Option Value → Bool
has_pattern env p (some (Value.text s)) =
    if p.pattern_ == ""
    then true
    else elim (env.match_string (append "^(?:" (append p.pattern_ ")$")) s) [
      | none ↦ false
      | some b ↦ b
    ]
has_pattern env p v = true

unfoldable pub check_patterns : Environment → List Param → Dict Value → Bool
check_patterns env [] resolved = true
check_patterns env (p ∷ ps) resolved =
    has_pattern env p (lookup p.name resolved) && check_patterns env ps resolved

-- The last loop: what is given and not declared is passed on.
unfoldable pub pass_on : Dict Value → Dict Value → Dict Value
pass_on [] resolved = resolved
pass_on ((k, v) ∷ params) resolved =
    pass_on params (if is_some (lookup k resolved) then resolved else insert k v resolved)

-- `none` stands for the error of a missing parameter or of a pattern.
unfoldable pub resolve_params : Environment → List Param → Dict Value → Option (Dict Value)
unfolding given_or_default evaluate_defaults check_patterns pass_on
resolve_params env ps params = elim (given_or_default ps params []) [
  | none ↦ none
  | some first ↦
      let resolved = evaluate_defaults env ps params first in
      if check_patterns env ps resolved then some (pass_on params resolved) else none
]

unfoldable pub resolve_env : Environment → Dict String → Dict Value → Option (Dict String)
resolve_env env [] params = some []
resolve_env env ((k, v) ∷ vars) params = elim (env.resolve_template (env.expand_env v) params) [
  | none ↦ none
  | some s ↦ elim (resolve_env env vars params) [ none ↦ none | some rest ↦ some ((k, s) ∷ rest) ]
]

-- What `Execute` is given beyond the workflow: the fields of `ExecuteOptions` that it reads.
pub record ExecuteOptions : Type 0 where
  pub trigger_data : Fields
  pub test_case_name : String
  pub resumed : Bool
  pub recovered_steps : Dict StepResult

pub record ExecuteResult : Type 0 where
  pub status : String
  pub has_errors : Bool
  pub steps : Dict StepResult
  pub error : Option Failure

-- The context that an execution starts with.
abbrev pub start_context : ExecuteOptions → ExecutionContext
start_context o = record {
  steps = if o.resumed then o.recovered_steps else [];
  variables = [];
  trigger_data = o.trigger_data;
  test_case_name = o.test_case_name;
  resumed = o.resumed;
}

-- `buildExecuteResult`
unfoldable pub build_execute_result : Bool → Option Failure → ExecutionContext → ExecuteResult
unfolding determine_status
build_execute_result cancelled error c =
    let (status, has_errors) = determine_status cancelled error c in
    record { status = status; has_errors = has_errors; steps = c.steps; error = error }

-- The `on_error` steps of the workflow.
unfoldable pub report_errors :
    Services → Workflow → Option Failure → ExecutionContext → ExecutionContext
unfolding execute_on_error has_failed_steps
report_errors sv wf error c =
    if ltb 0 (length wf.on_error) && (is_some error || has_failed_steps c)
    then execute_on_error sv wf.on_error c
    else c

-- The result, where an execution that can be recovered is not reported as finished. Whether the
-- execution's context has ended is asked twice: `cancelled` is the first answer and `later` that of
-- `determineStatus`.
unfoldable pub conclude : Workflow → Bool → Bool → Option Failure → ExecutionContext → ExecuteResult
unfolding build_execute_result
conclude wf cancelled later error c =
    if cancelled && wf.recovery
    then record { status = Status.cancelled; has_errors = false; steps = c.steps; error = error }
    else build_execute_result later error c

-- `Execute`: `run` is `executeDAG`, and `ends` and `ends_later` tell whether the execution's context has ended
-- after it, at the two times when this is asked.
unfoldable pub execute :
    Environment
    → Services
    → (Dag → Dict Value → Dict String → ExecutionContext → Option Failure × ExecutionContext)
    → (ExecutionContext → Bool)
    → (ExecutionContext → Bool)
    → Workflow
    → Dict Value
    → ExecuteOptions
    → Option ExecuteResult
unfolding resolve_params resolve_env report_errors conclude
execute env sv run ends ends_later wf params o = elim (resolve_params env wf.params params) [
  | none ↦ none
  | some resolved ↦ elim (resolve_env env wf.env resolved) [
    | none ↦ none
    | some vars ↦ elim (build_dag wf.steps) [
      | err e ↦ none
      | ok d ↦
          let (error, c) = run d resolved vars (start_context o) in
          let after = report_errors sv wf error c in
          some (conclude wf (ends after) (ends_later after) error after)
    ]
  ]
]
