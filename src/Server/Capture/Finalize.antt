-- ===== src/Server/Capture/Finalize.antt =====
-- internal/server/handlers_capture.go, finalizeExecution: the result of an execution goes to the store.
use tailflow_agent.Prelude.{
  ℕ, String, ◌≡◌, refl, sym, fun_ext, ◌∙◌, ap, subst, inl, inr, Bool, true, false, Option, none,
  some, [], ◌∷◌, arith, if◌then◌else◌, ◌==◌, eq_iff, eq_refl, IsNodup, Bool-cases, Option-cases,
}
use tailflow_agent.Prelude.Dict.{
  Dict, lookup, insert, get_or, is_some, keys, contains-keys, lookup-insert,
}
use tailflow_agent.Value.{Value}
use tailflow_agent.Runtime.{StepResult}
use tailflow_agent.Store.{Execution, ExecutionStore, get, update_execution}
use tailflow_agent.Store.Index.{IsIndexed, mapped, get-update_execution}
use tailflow_agent.Engine.Node.{Failure, message}
use tailflow_agent.Engine.Workflow.{ExecuteResult}
use tailflow_agent.Status

-- The result of the engine, with the input that the events had recorded.
abbrev pub merge_step : Option StepResult → StepResult → StepResult
merge_step none sr = sr
merge_step (some existing) sr = record sr { input = existing.input }

-- The loop of `mergeStepResults`.
unfoldable pub merge_steps : Dict StepResult → Dict StepResult → Dict StepResult
merge_steps [] steps = steps
merge_steps ((id, sr) ∷ rest) steps =
    merge_steps rest (insert id (merge_step (lookup id steps) sr) steps)

unfoldable pub merge_step_results : Dict StepResult → Option (Dict StepResult) → Dict StepResult
unfolding merge_steps
merge_step_results engine_steps none = engine_steps
merge_step_results engine_steps (some steps) = merge_steps engine_steps steps

-- What `Execute` returned: an error, or a result and the time at which it was finished.
pub data Returned : Type 0 where
  failed : String → Returned
  finished : ExecuteResult → ℕ → Returned

abbrev error_or : Option Failure → String → String
error_or none old = old
error_or (some f) old = message f

-- The function that is passed to `UpdateExecution`; `ended` says that the execution's context has ended.
unfoldable pub finalized : Returned → Bool → ℕ → Execution → Execution
unfolding merge_step_results
finalized (Returned.failed m) ended now e = record e {
  status = if ended then Status.cancelled else Status.failed;
  error = if ended then "execution cancelled" else m;
  finished_at = some (get_or e.finished_at now);
}
finalized (Returned.finished r at) ended now e = record e {
  status = r.status;
  steps = some (merge_step_results r.steps e.steps);
  finished_at = some at;
  error = error_or r.error e.error;
}

pub finalize_execution : String → Returned → Bool → ℕ → ExecutionStore → ExecutionStore
unfolding finalized
finalize_execution id returned ended now = update_execution id (finalized returned ended now)

merge_steps-lookup :
    (k : String) (rest steps : Dict StepResult)
    → IsNodup (keys rest)
    → lookup k (merge_steps rest steps) ≡ elim (lookup k rest) [
      | none ↦ lookup k steps
      | some sr ↦ some (merge_step (lookup k steps) sr)
    ]
unfolding merge_steps lookup
merge_steps-lookup k [] steps h = refl
merge_steps-lookup k ((id, sr) ∷ rest) steps h =
    let new = insert id (merge_step (lookup id steps) sr) steps in
    let ih = merge_steps-lookup k rest new h.1 in
    let put = lookup-insert id k (merge_step (lookup id steps) sr) steps in
    elim (Bool-cases (id == k)) [
      | inr other ↦ rw other (
          ih
          ∙ ap (λ o. elim (lookup k rest) [ none ↦ o | some r ↦ some (merge_step o r) ])
              (put ∙ rw other refl))
      | inl same ↦ elim (Option-cases (lookup k rest)) [
        | inr (r, e) ↦ absurd (ground (arith, contains-keys id rest, eq_iff id k, h))
        | inl gone ↦ rw same (
            ih
            ∙ ap (λ o. elim o [ none ↦ lookup k new | some r ↦ some (merge_step (lookup k new) r) ])
                gone
            ∙ put
            ∙ rw same (ap (λ j. some (merge_step (lookup j steps) sr)) ((eq_iff id k).0 same)))
      ]
    ]

-- The input of a step: the one that was recorded before, if the step was there.
abbrev pub recorded_input : Option StepResult → StepResult → Value
recorded_input none sr = sr.input
recorded_input (some old) sr = old.input

-- What a finished execution holds of the result `r` of the engine, where it was `e` before.
pub record Holds (r : ExecuteResult) (e e' : Execution) : Type 0 where
  pub status : e'.status ≡ r.status
  pub steps :
      (k : String)
      → lookup k (get_or e'.steps []) ≡ elim (lookup k r.steps) [
        | none ↦ lookup k (get_or e.steps [])
        | some sr ↦ some (record sr { input = recorded_input (lookup k (get_or e.steps [])) sr })
      ]

merge_step-input :
    (old : Option StepResult) (sr : StepResult)
    → merge_step old sr ≡ record sr { input = recorded_input old sr }
merge_step-input none sr = refl
merge_step-input (some x) sr = refl

merged_lookup :
    (k : String) (engine_steps : Dict StepResult) (steps : Option (Dict StepResult))
    → IsNodup (keys engine_steps)
    → lookup k (merge_step_results engine_steps steps) ≡ elim (lookup k engine_steps) [
      | none ↦ lookup k (get_or steps [])
      | some sr ↦ some (merge_step (lookup k (get_or steps [])) sr)
    ]
unfolding merge_step_results lookup
merged_lookup k engine_steps (some steps) h = merge_steps-lookup k engine_steps steps h
merged_lookup k engine_steps none h = elim (Option-cases (lookup k engine_steps)) [
  | inl e ↦ e ∙ sym (ap (λ o. elim o [ none ↦ none | some sr ↦ some sr ]) e)
  | inr (sr, e) ↦ e ∙ sym (ap (λ o. elim o [ none ↦ none | some sr ↦ some sr ]) e)
]

-- Finalising an execution that the store has gives it a time of its end and leaves the other executions.
-- After an error its status is failed, or cancelled if its context has ended; after a result it has the
-- status of the result and, for each step that the result names, none of them twice, what the engine says of the step, but
-- with the input that was recorded for it; the steps that the result does not name are kept.
pub finalize_execution_correct :
    (id : String) (returned : Returned) (ended : Bool) (now : ℕ) (s : ExecutionStore)
    (e : Execution)
    → IsIndexed s
    → get id s ≡ some e
    → (e' : Execution) × (get id (finalize_execution id returned ended now s) ≡ some e')
      × (is_some e'.finished_at ≡ true)
      × ((m : String)
          → returned ≡ Returned.failed m
          → e'.status ≡ (if ended then Status.cancelled else Status.failed))
      × ((r : ExecuteResult) (at : ℕ)
          → returned ≡ Returned.finished r at
          → IsNodup (keys r.steps)
          → Holds r e e')
      × ((k : String)
          → (id == k) ≡ false
          → get k (finalize_execution id returned ended now s) ≡ get k s)
unfolding finalize_execution
finalize_execution_correct id returned ended now s e indexed there = (
  finalized returned ended now e,
  get-update_execution id id (finalized returned ended now) s indexed
      ∙ rw (eq_refl id) (ap (mapped (finalized returned ended now)) there),
  finished_at returned,
  λ m same. ap (λ x. (finalized x ended now e).status) same,
  λ r at same nodup. subst (λ x. Holds r e (finalized x ended now e)) (sym same) (holds r at nodup),
  λ k other. get-update_execution id k (finalized returned ended now) s indexed ∙ rw other refl,
)
  where
    finished_at : (x : Returned) → is_some (finalized x ended now e).finished_at ≡ true
    finished_at (Returned.failed m) = refl
    finished_at (Returned.finished r at) = refl

    holds :
        (r : ExecuteResult) (at : ℕ)
        → IsNodup (keys r.steps)
        → Holds r e (finalized (Returned.finished r at) ended now e)
    holds r at nodup = record {
      status = refl;
      steps = λ k.
          merged_lookup k r.steps e.steps nodup
          ∙ ap
              (λ g. elim (lookup k r.steps) [
                | none ↦ lookup k (get_or e.steps [])
                | some sr ↦ some (g sr)
              ])
              (fun_ext (merge_step-input (lookup k (get_or e.steps []))));
    }
