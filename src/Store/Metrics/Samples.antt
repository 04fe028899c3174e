-- ===== src/Store/Metrics/Samples.antt =====
-- Two executions of a step, and the theorem of the metrics there.
use tailflow_agent.Prelude.{ℕ, String, ◌≡◌, refl, none, some, List, [], ◌∷◌}
use tailflow_agent.Prelude.Dict.{lookup, insert, get_or}
use tailflow_agent.Value.{Value}
use tailflow_agent.Runtime.{StepResult}
use tailflow_agent.Store.{Execution}
use tailflow_agent.Store.Samples.{execution}
use tailflow_agent.Store.Metrics.{no_metrics, compute_step_metrics, get_step_metrics}
use tailflow_agent.Store.Metrics.Counts.{runs, runs_with, compute_step_metrics-counts}
use tailflow_agent.Status

abbrev result : String → StepResult
result status = record {
  status = status;
  input = Value.null;
  output = Value.null;
  error = none;
  started_at = some 10;
  finished_at = some 14;
}

abbrev two : List Execution
two =
    record (execution "x") { steps = some (("a", result "success") ∷ []) }
    ∷ record (execution "y") {
      steps = some (("a", result "failed") ∷ ("b", result "success") ∷ []);
    }
    ∷ []

abbrev day : ℕ → String
day n = "2026-01-01"

computed :
    get_step_metrics "a" (some (compute_step_metrics day two))
    ≡ some (record {
      total_executions = 2;
      success_count = 1;
      failure_count = 1;
      avg_duration_ms = 4;
      last_execution = "2026-01-01";
    })
unfolding get_step_metrics compute_step_metrics lookup insert
computed = refl

compute_step_metrics-counts_example :
    ((get_or
        (get_step_metrics "a" (some (compute_step_metrics day two)))
        no_metrics).total_executions
      ≡ runs "a" two)
    × ((get_or
          (get_step_metrics "a" (some (compute_step_metrics day two)))
          no_metrics).success_count
        ≡ runs_with Status.success "a" two)
    × ((get_or
          (get_step_metrics "a" (some (compute_step_metrics day two)))
          no_metrics).failure_count
        ≡ runs_with Status.failed "a" two)
compute_step_metrics-counts_example =
    compute_step_metrics-counts day "a" two ((refl, tt), ((refl, (refl, tt)), tt))
