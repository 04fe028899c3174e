-- ===== src/Store/Metrics/Counts.antt =====
-- internal/store/execution.go, computeStepMetrics: the counts of a step.
use tailflow_agent.Prelude.{
  ℕ, ◌+◌, String, ◌≡◌, refl, ◌∙◌, ap, inl, inr, Bool, false, Option, none, some, List, [], ◌∷◌,
  arith, if◌then◌else◌, ◌==◌, eq_iff, IsNodup, All, Bool-cases, Option-cases,
}
use tailflow_agent.Prelude.Dict.{
  Dict, lookup, insert, get_or, is_some, keys, contains-keys, lookup-insert,
}
use tailflow_agent.Runtime.{StepResult}
use tailflow_agent.Store.{Execution}
use tailflow_agent.Store.Metrics.{
  StepMetrics, no_metrics, add_result, add_steps, add_executions, average, average_all,
  compute_step_metrics, get_step_metrics,
}
use tailflow_agent.Status

-- The result of a step in an execution, if it has one.
abbrev pub result_in : String → Execution → Option StepResult
result_in k e = lookup k (get_or e.steps [])

-- In how many executions the step has a result, and one with the status.
abbrev pub runs : String → List Execution → ℕ
runs k [] = 0
runs k (e ∷ es) = (if is_some (result_in k e) then 1 else 0) + runs k es

abbrev pub has_status : String → Option StepResult → Bool
has_status status none = false
has_status status (some r) = r.status == status

abbrev pub runs_with : String → String → List Execution → ℕ
runs_with status k [] = 0
runs_with status k (e ∷ es) =
    (if has_status status (result_in k e) then 1 else 0) + runs_with status k es

-- The counts of the metrics `m` for one that had `m₀`, after a result or none.
abbrev metrics_of : String → Dict StepMetrics → StepMetrics
metrics_of k metrics = get_or (lookup k metrics) no_metrics

lookup-add_steps :
    (format : ℕ → String) (at : ℕ) (k : String) (steps : Dict StepResult)
    (metrics : Dict StepMetrics)
    → IsNodup (keys steps)
    → metrics_of k (add_steps format at steps metrics) ≡ elim (lookup k steps) [
      | none ↦ metrics_of k metrics
      | some r ↦ add_result format at r (metrics_of k metrics)
    ]
unfolding add_steps lookup
lookup-add_steps format at k [] metrics h = refl
lookup-add_steps format at k ((id, r) ∷ steps) metrics h =
    let new = insert id (add_result format at r (metrics_of id metrics)) metrics in
    let ih = lookup-add_steps format at k steps new h.1 in
    let put = lookup-insert id k (add_result format at r (metrics_of id metrics)) metrics in
    elim (Bool-cases (id == k)) [
      | inr other ↦ rw other (
          ih
          ∙ ap
              (λ o. elim (lookup k steps) [
                | none ↦ get_or o no_metrics
                | some r ↦ add_result format at r (get_or o no_metrics)
              ])
              {x = lookup k new} {y = lookup k metrics} (put ∙ rw other refl))
      | inl same ↦ elim (Option-cases (lookup k steps)) [
        | inr (x, e) ↦ absurd (ground (arith, contains-keys id steps, eq_iff id k, h))
        | inl gone ↦ rw same (
            ih
            ∙ ap
                (λ o. elim o [
                  | none ↦ metrics_of k new
                  | some r ↦ add_result format at r (metrics_of k new)
                ])
                gone
            ∙ ap (λ o. get_or o no_metrics) put
            ∙ rw same
                (ap (λ j. add_result format at r (metrics_of j metrics)) ((eq_iff id k).0 same)))
      ]
    ]

-- The counts of `m` are those of `m₀` and of the executions.
record Counted (k : String) (es : List Execution) (m₀ m : StepMetrics) : Type 0 where
  total : m.total_executions ≡ m₀.total_executions + runs k es
  success : m.success_count ≡ m₀.success_count + runs_with Status.success k es
  failure : m.failure_count ≡ m₀.failure_count + runs_with Status.failed k es

add_executions-Counted :
    (format : ℕ → String) (k : String) (es : List Execution) (metrics : Dict StepMetrics)
    → All (λ e. IsNodup (keys (get_or e.steps []))) es
    → Counted k es (metrics_of k metrics) (metrics_of k (add_executions format es metrics))
unfolding add_executions add_result
add_executions-Counted format k [] metrics h = record {
  total = omega arith;
  success = omega arith;
  failure = omega arith;
}
add_executions-Counted format k (e ∷ es) metrics h =
    let next = add_steps format e.started_at (get_or e.steps []) metrics in
    let ih = add_executions-Counted format k es next h.1 in
    let one = lookup-add_steps format e.started_at k (get_or e.steps []) metrics h.0 in
    elim (Option-cases (result_in k e)) [
      | inl gone ↦
          let same : metrics_of k next ≡ metrics_of k metrics =
            one
            ∙ ap
                (λ o. elim o [
                  | none ↦ metrics_of k metrics
                  | some r ↦ add_result format e.started_at r (metrics_of k metrics)
                ])
                gone in
          let total = ap (λ m. m.total_executions) same in
          let success = ap (λ m. m.success_count) same in
          let failure = ap (λ m. m.failure_count) same in
          record {
            total = rw gone (omega (arith, ih.total, total));
            success = rw gone (omega (arith, ih.success, success));
            failure = rw gone (omega (arith, ih.failure, failure));
          }
      | inr (r, there) ↦
          let same : metrics_of k next ≡ add_result format e.started_at r (metrics_of k metrics) =
            one
            ∙ ap
                (λ o. elim o [
                  | none ↦ metrics_of k metrics
                  | some r ↦ add_result format e.started_at r (metrics_of k metrics)
                ])
                there in
          let total = ap (λ m. m.total_executions) same in
          let success = ap (λ m. m.success_count) same in
          let failure = ap (λ m. m.failure_count) same in
          record {
            total = rw there (omega (arith, ih.total, total));
            success = rw there (ground (arith, ih.success, success));
            failure = rw there (ground (arith, ih.failure, failure));
          }
    ]

lookup-average_all :
    (k : String) (metrics : Dict StepMetrics)
    → lookup k (average_all metrics)
      ≡ elim (lookup k metrics) [ none ↦ none | some m ↦ some (average m) ]
unfolding average_all lookup
lookup-average_all k [] = refl
lookup-average_all k ((id, m) ∷ metrics) = elim (Bool-cases (id == k)) [
  | inl same ↦ rw same refl
  | inr other ↦ rw other (lookup-average_all k metrics)
]

average-counts :
    (m : StepMetrics)
    → ((average m).total_executions ≡ m.total_executions)
      × ((average m).success_count ≡ m.success_count)
      × ((average m).failure_count ≡ m.failure_count)
unfolding average
average-counts m = (ground arith, ground arith, ground arith)

-- The metrics that `RefreshStepMetrics` computes of a list of executions count, for each step, the
-- executions that have a result of the step, and those where it succeeded and where it failed; a step
-- without results has no metrics or counts of 0.
pub compute_step_metrics-counts :
    (format : ℕ → String) (k : String) (es : List Execution)
    → All (λ e. IsNodup (keys (get_or e.steps []))) es
    → let m = get_or (get_step_metrics k (some (compute_step_metrics format es))) no_metrics in
      (m.total_executions ≡ runs k es)
      × (m.success_count ≡ runs_with Status.success k es)
      × (m.failure_count ≡ runs_with Status.failed k es)
unfolding compute_step_metrics get_step_metrics lookup
compute_step_metrics-counts format k es h =
    let all = add_executions format es [] in
    let counted = add_executions-Counted format k es [] h in
    let found = lookup-average_all k all in
    elim (Option-cases (lookup k all)) [
      | inl gone ↦
          let zero = ap (λ o. get_or o no_metrics) gone in
          rw (found ∙ ap (λ o. elim o [ none ↦ none | some m ↦ some (average m) ]) gone) (
            omega (arith, counted.total, ap (λ m. m.total_executions) zero),
            omega (arith, counted.success, ap (λ m. m.success_count) zero),
            omega (arith, counted.failure, ap (λ m. m.failure_count) zero),
          )
      | inr (m, there) ↦
          let same = ap (λ o. get_or o no_metrics) there in
          let (total, success, failure) = average-counts m in
          rw (found ∙ ap (λ o. elim o [ none ↦ none | some m ↦ some (average m) ]) there) (
            omega (arith, counted.total, total, ap (λ m. m.total_executions) same),
            omega (arith, counted.success, success, ap (λ m. m.success_count) same),
            omega (arith, counted.failure, failure, ap (λ m. m.failure_count) same),
          )
    ]
