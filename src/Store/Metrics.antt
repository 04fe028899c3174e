-- ===== src/Store/Metrics.antt =====
-- internal/store/execution.go, computeStepMetrics: the metrics of the steps over a list of executions.
pub mod Counts
pub mod Samples
use tailflow_agent.Prelude.{
  ℕ, ◌+◌, ◌-◌, ◌/◌, String, Bool, true, false, ◌||◌, Option, none, some, List, [], ◌∷◌,
  if◌then◌else◌, ◌==◌, ltb,
}
use tailflow_agent.Prelude.Dict.{Dict, lookup, insert, get_or}
use tailflow_agent.Value.Print.{less_text}
use tailflow_agent.Runtime.{StepResult}
use tailflow_agent.Store.{Execution, ExecutionStore, list}
use tailflow_agent.Status

pub record StepMetrics : Type 0 where
  pub total_executions : ℕ
  pub success_count : ℕ
  pub failure_count : ℕ
  pub avg_duration_ms : ℕ
  pub last_execution : String

abbrev pub no_metrics : StepMetrics
no_metrics = record {
  total_executions = 0;
  success_count = 0;
  failure_count = 0;
  avg_duration_ms = 0;
  last_execution = "";
}

-- `FinishedAt.Sub(StartedAt).Milliseconds()`, for a step that does not end before it starts.
abbrev duration_of : StepResult → ℕ
duration_of sr = elim (sr.started_at) [
  | none ↦ 0
  | some from ↦ elim (sr.finished_at) [ none ↦ 0 | some to ↦ to - from ]
]

-- The body of the loop over the steps of an execution; `format` is `Format(time.RFC3339)`.
unfoldable pub add_result : (ℕ → String) → ℕ → StepResult → StepMetrics → StepMetrics
add_result format started_at sr m = record {
  total_executions = m.total_executions + 1;
  success_count = if sr.status == Status.success then m.success_count + 1 else m.success_count;
  failure_count = if sr.status == Status.failed then m.failure_count + 1 else m.failure_count;
  avg_duration_ms = m.avg_duration_ms + duration_of sr;
  last_execution =
      if m.last_execution == "" || less_text m.last_execution (format started_at)
      then format started_at
      else m.last_execution;
}

unfoldable pub add_steps : (ℕ → String) → ℕ → Dict StepResult → Dict StepMetrics → Dict StepMetrics
unfolding add_result
add_steps format started_at [] metrics = metrics
add_steps format started_at ((id, sr) ∷ steps) metrics =
    add_steps format started_at steps
      (insert id (add_result format started_at sr (get_or (lookup id metrics) no_metrics)) metrics)

unfoldable pub add_executions : (ℕ → String) → List Execution → Dict StepMetrics → Dict StepMetrics
unfolding add_steps
add_executions format [] metrics = metrics
add_executions format (e ∷ execs) metrics =
    add_executions format execs (add_steps format e.started_at (get_or e.steps []) metrics)

-- The last loop: the sum of the durations becomes their average.
unfoldable pub average : StepMetrics → StepMetrics
average m =
    if ltb 0 m.total_executions
    then record m { avg_duration_ms = m.avg_duration_ms / m.total_executions }
    else m

unfoldable pub average_all : Dict StepMetrics → Dict StepMetrics
unfolding average
average_all [] = []
average_all ((id, m) ∷ metrics) = (id, average m) ∷ average_all metrics

unfoldable pub compute_step_metrics : (ℕ → String) → List Execution → Dict StepMetrics
unfolding add_executions average_all
compute_step_metrics format execs = average_all (add_executions format execs [])

-- `RefreshStepMetrics`: what the cache holds then.
pub refresh_step_metrics : (ℕ → String) → ExecutionStore → Dict StepMetrics
refresh_step_metrics format s = compute_step_metrics format (list s)

-- `GetStepMetrics` of the cache, which is nil at first.
unfoldable pub get_step_metrics : String → Option (Dict StepMetrics) → Option StepMetrics
get_step_metrics id none = none
get_step_metrics id (some metrics) = lookup id metrics
