-- ===== src/Engine/Workflow/Outcome.antt =====
-- internal/engine/engine.go and engine_result.go: what the status of an execution says.
use tailflow_agent.Prelude.{
  String, ◌≡◌, ◌≢◌, ◌↔◌, refl, inl, inr, Bool, true, false, ◌&&◌, Option, none, some, arith,
  Bool-cases,
}
use tailflow_agent.Prelude.Dict.{Dict, is_some}
use tailflow_agent.Value.{Value}
use tailflow_agent.Parser.Schema.{Workflow}
use tailflow_agent.Runtime.{ExecutionContext, any_failed, has_failed_steps}
use tailflow_agent.Engine.Dag.{Dag, ok, build_dag}
use tailflow_agent.Engine.Node.{Failure, Services, determine_status}
use tailflow_agent.Engine.Workflow.{
  Environment, resolve_params, resolve_env, ExecuteOptions, ExecuteResult, build_execute_result,
  start_context, report_errors, conclude, execute,
}
use tailflow_agent.Status

-- What a status says of the error, of the steps and of the flag beside it.
abbrev pub Says : String → Bool → Option Failure → Bool → Type 0
Says status has_errors error failed_steps =
    (status ≡ Status.success → (error ≡ none) × (failed_steps ≡ false))
    × (status ≡ Status.failed → is_some error ≡ true)
    × (status ≡ Status.completed_with_errors → (error ≡ none) × (failed_steps ≡ true))
    × ((has_errors ≡ true) ↔ (status ≡ Status.completed_with_errors))

abbrev pub IsTold : ExecuteResult → Type 0
IsTold r = Says r.status r.has_errors r.error (any_failed r.steps)

build_execute_result-IsTold :
    (cancelled : Bool) (error : Option Failure) (c : ExecutionContext)
    → IsTold (build_execute_result cancelled error c)
      × (cancelled ≡ false → (build_execute_result cancelled error c).status ≢ Status.cancelled)
unfolding build_execute_result determine_status has_failed_steps
build_execute_result-IsTold true (some f) c = (
  (λ h. absurd (cc h), λ h. refl, λ h. absurd (cc h), (λ h. absurd (cc h), λ h. absurd (cc h))),
  λ h. absurd (cc h),
)
build_execute_result-IsTold false (some f) c = (
  (λ h. absurd (cc h), λ h. refl, λ h. absurd (cc h), (λ h. absurd (cc h), λ h. absurd (cc h))),
  λ h e. absurd (cc e),
)
build_execute_result-IsTold b none c = elim (Bool-cases (has_failed_steps c)) [
  | inl bad ↦ rw bad (
    (λ h. absurd (cc h), λ h. absurd (cc h), λ h. (refl, refl), (λ h. refl, λ h. refl)),
    λ h e. absurd (cc e),
  )
  | inr good ↦ rw good (
    (
      λ h. (refl, refl),
      λ h. absurd (cc h),
      λ h. absurd (cc h),
      (λ h. absurd (cc h), λ h. absurd (cc h)),
    ),
    λ h e. absurd (cc e),
  )
]

conclude-IsTold :
    (wf : Workflow) (cancelled later : Bool) (error : Option Failure) (c : ExecutionContext)
    → IsTold (conclude wf cancelled later error c)
      × (cancelled ≡ false
          → later ≡ false
          → (conclude wf cancelled later error c).status ≢ Status.cancelled)
unfolding conclude
conclude-IsTold wf cancelled later error c = elim (Bool-cases (cancelled && wf.recovery)) [
  | inl keep ↦ rw keep (
      (
        (
          λ h. absurd (cc h),
          λ h. absurd (cc h),
          λ h. absurd (cc h),
          (λ h. absurd (cc h), λ h. absurd (cc h)),
        ),
        λ h g. absurd (ground arith),
      ))
  | inr ends ↦
      let (told, goes_on) = build_execute_result-IsTold later error c in
      rw ends (told, λ h. goes_on)
]

-- Where the parameters, the environment and the graph are in order, `Execute` returns a result whose
-- status is true to it: success has no error and no failed step; failed has an error;
-- completed_with_errors, and it alone, sets `HasErrors`, and has failed steps and no error; and if the
-- execution's context never ends, the status is not cancelled.
pub execute_outcome :
    (env : Environment) (sv : Services)
    (run : Dag → Dict Value → Dict String → ExecutionContext → Option Failure × ExecutionContext)
    (ends ends_later : ExecutionContext → Bool) (wf : Workflow) (params : Dict Value)
    (o : ExecuteOptions) (resolved : Dict Value) (vars : Dict String) (d : Dag)
    → resolve_params env wf.params params ≡ some resolved
    → resolve_env env wf.env resolved ≡ some vars
    → build_dag wf.steps ≡ ok d
    → (r : ExecuteResult) × (execute env sv run ends ends_later wf params o ≡ some r)
      × IsTold r
      × (((c : ExecutionContext) → (ends c ≡ false) × (ends_later c ≡ false))
          → r.status ≢ Status.cancelled)
unfolding execute
execute_outcome env sv run ends ends_later wf params o resolved vars d p v b =
    let error = (run d resolved vars (start_context o)).0 in
    let after = report_errors sv wf error (run d resolved vars (start_context o)).1 in
    let (told, goes_on) = conclude-IsTold wf (ends after) (ends_later after) error after in
    (
      conclude wf (ends after) (ends_later after) error after,
      rw (p, v, b, execute) refl,
      told,
      λ h. goes_on (h after).0 (h after).1,
    )
