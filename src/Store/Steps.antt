-- ===== src/Store/Steps.antt =====
-- internal/store/execution.go: what `UpdateStep` does to an execution.
use tailflow_agent.Prelude.{
  String, ◌≡◌, refl, ◌∙◌, ap, inl, inr, Bool, true, false, ◌||◌, some, List, [], ◌∷◌, contains,
  eq_iff, arith, if◌then◌else◌, ◌==◌, eq_refl, Bool-cases,
}
use tailflow_agent.Prelude.Dict.{Dict, lookup, get_or, lookup-insert}
use tailflow_agent.Runtime.{StepResult}
use tailflow_agent.Store.{
  Execution, ExecutionStore, new_step, get, set_step, update_step, any_step, derive_status,
}
use tailflow_agent.Store.Index.{IsIndexed, mapped, get-update_execution, update_execution-IsIndexed}
use tailflow_agent.Status

-- The result of a step in an execution, a new one if it has none.
abbrev pub step_of : Execution → String → StepResult
step_of e step = get_or (lookup step (get_or e.steps [])) new_step

-- The execution is running or waiting.
abbrev pub is_active : Execution → Bool
is_active e = e.status == Status.running || e.status == Status.waiting

-- The statuses of the steps.
abbrev statuses_of : Dict StepResult → List String
statuses_of [] = []
statuses_of ((k, r) ∷ steps) = r.status ∷ statuses_of steps

abbrev pub statuses : Execution → List String
statuses e = statuses_of (get_or e.steps [])

-- What `UpdateStep` promises of the execution `e` that becomes `e'`.
pub record Updates (step : String) (f : StepResult → StepResult) (e e' : Execution) : Type 0 where
  pub results :
      (k : String) → step_of e' k ≡ (if step == k then f (step_of e step) else step_of e k)
  -- an execution that has ended keeps its status
  pub ended : is_active e ≡ false → e'.status ≡ e.status
  pub runs :
      is_active e ≡ true → contains Status.running (statuses e') ≡ true → e'.status ≡ Status.running
  pub waits :
      is_active e ≡ true
      → contains Status.running (statuses e') ≡ false
      → contains Status.waiting (statuses e') ≡ true
      → e'.status ≡ Status.waiting
  pub idle :
      is_active e ≡ true
      → contains Status.running (statuses e') ≡ false
      → contains Status.waiting (statuses e') ≡ false
      → e'.status ≡ e.status

any_step-contains :
    (status : String) (steps : Dict StepResult)
    → any_step status steps ≡ contains status (statuses_of steps)
unfolding any_step
any_step-contains status [] = refl
any_step-contains status ((k, r) ∷ steps) =
    ground (arith, any_step-contains status steps, eq_iff r.status status, eq_iff status r.status)

-- In a store whose index is well-formed, `UpdateStep` of an execution that is there applies the
-- function to that step and keeps the other steps. An execution that is neither running nor waiting
-- keeps its status; else it is running if then a step is running, waiting if no step is running but one is
-- waiting, and as before if no step is either. The index stays well-formed.
pub update_step-Updates :
    (id step : String) (f : StepResult → StepResult) (s : ExecutionStore) (e : Execution)
    → IsIndexed s
    → get id s ≡ some e
    → ((e' : Execution) × (get id (update_step id step f s) ≡ some e') × Updates step f e e')
      × IsIndexed (update_step id step f s)
unfolding update_step derive_status
update_step-Updates id step f s e indexed there =
    let steps = set_step step f e in
    let change : Execution → Execution = λ x. record x {
      steps = some (set_step step f x);
      status = derive_status x (set_step step f x);
    } in
    (
      (
        change e,
        get-update_execution id id change s indexed ∙ rw (eq_refl id) (ap (mapped change) there),
        record {
          results = λ k. elim (Bool-cases (step == k)) [
            | inl same ↦ rw same (
                ap (λ o. get_or o new_step)
                  (rw same at (lookup-insert step k (f (step_of e step)) (get_or e.steps []))))
            | inr other ↦ rw other (
                ap (λ o. get_or o new_step)
                  (rw other at (lookup-insert step k (f (step_of e step)) (get_or e.steps []))))
          ];
          ended = λ h. rw h refl;
          runs = λ h run. rw (h, any_step-contains Status.running steps, run) refl;
          waits = λ h run wait.
              rw
                (
                  h,
                  any_step-contains Status.running steps,
                  run,
                  any_step-contains Status.waiting steps,
                  wait,
                )
                refl;
          idle = λ h run wait.
              rw
                (
                  h,
                  any_step-contains Status.running steps,
                  run,
                  any_step-contains Status.waiting steps,
                  wait,
                )
                refl;
        },
      ),
      update_execution-IsIndexed id change s (λ x. refl) indexed,
    )
