-- ===== src/Server/Capture/Shows.antt =====
-- internal/server/handlers_capture.go: what one operation on the store does to the statuses of an execution.
use tailflow_agent.Prelude.{
  String, ◌≡◌, refl, ◌∙◌, ap, inl, inr, ◌||◌, Option, none, some, List, [], ◌∷◌, arith,
  if◌then◌else◌, ◌==◌, eq_iff, eq_refl, contains, Bool-cases, Option-cases,
}
use tailflow_agent.Prelude.Dict.{get_or}
use tailflow_agent.Value.{field_of, as_text}
use tailflow_agent.Event.{Event, EventType}
use tailflow_agent.Runtime.{StepResult}
use tailflow_agent.Store.{
  Execution, ExecutionStore, get, append_event, update_step, incr_step_exec_count,
}
use tailflow_agent.Store.Index.{IsIndexed, mapped, get-update_execution, update_execution-IsIndexed}
use tailflow_agent.Store.Steps.{step_of, update_step-Updates}
use tailflow_agent.Server.Capture.{
  with_status, with_output, apply_workflow_completed, apply_step_event, reset_steps,
}
use tailflow_agent.Status

abbrev pub status_in : Execution → String → String
status_in e step = (step_of e step).status

-- The status that an event of a type gives to its step.
abbrev pub type_status : EventType → Option String
type_status EventType.step_started = some Status.running
type_status EventType.step_waiting = some Status.waiting
type_status EventType.step_completed = some Status.success
type_status EventType.step_failed = some Status.failed
type_status EventType.step_skipped = some Status.skipped
type_status type = none

abbrev pub first_of : Option String → Option String → Option String
first_of none o = o
first_of (some s) o = some s

-- The store `s` shows the execution `e` with the statuses that `change` gives, else the old ones.
pub record Shows (id : String) (e : Execution) (change : String → Option String)
    (s : ExecutionStore) : Type 0 where
  pub now : Execution
  pub there : get id s ≡ some now
  pub indexed : IsIndexed s
  pub statuses : (k : String) → status_in now k ≡ get_or (change k) (status_in e k)

output-status : (ev : Event) (r : StepResult) → (with_output ev r).status ≡ r.status
output-status ev r = elim (Option-cases (field_of "output" ev.payload)) [
  | inl h ↦ rw (h, with_output) refl
  | inr (o, h) ↦ rw (h, with_output) refl
]

module _ (id : String) where
  pub then_Shows :
      (e : Execution) (first next : String → Option String) (s s' : ExecutionStore)
      (v : Shows id e first s)
      → Shows id v.now next s'
      → Shows id e (λ k. first_of (next k) (first k)) s'
  then_Shows e first next s s' v w = record {
    now = w.now;
    there = w.there;
    indexed = w.indexed;
    statuses = λ k. w.statuses k ∙ chain (next k) (first k) _ _ (v.statuses k);
  }
    where
      chain :
          (o p : Option String) (was old : String)
          → was ≡ get_or p old
          → get_or o was ≡ get_or (first_of o p) old
      chain none p was old h = h
      chain (some s) p was old h = refl

  update_step-Shows :
      (step : String) (f : StepResult → StepResult) (o : Option String) (s : ExecutionStore)
      (e : Execution)
      → ((r : StepResult) → (f r).status ≡ get_or o r.status)
      → IsIndexed s
      → get id s ≡ some e
      → Shows id e (λ k. if step == k then o else none) (update_step id step f s)
  update_step-Shows step f o s e sets indexed there =
      let updated = update_step-Updates id step f s e indexed there in
      record {
        now = updated.0.0;
        there = updated.0.1;
        indexed = updated.1;
        statuses = λ k. ap (λ r. r.status) (updated.0.2.results k) ∙ elim (Bool-cases (step == k)) [
          | inl same ↦
              rw same (
                sets (step_of e step) ∙ ap (λ j. get_or o (status_in e j)) ((eq_iff step k).0 same))
          | inr other ↦ rw other refl
        ];
      }

  -- Nothing changes where the heap and the index stay.
  pub keeps_Shows :
      (s : ExecutionStore) (e : Execution)
      → IsIndexed s
      → get id s ≡ some e
      → Shows id e (λ k. none) s
  keeps_Shows s e indexed there = record {
    now = e;
    there = there;
    indexed = indexed;
    statuses = λ k. refl;
  }

  pub append_event-Shows :
      (ev : Event) (e : Execution) (change : String → Option String) (s : ExecutionStore)
      → Shows id e change s
      → Shows id e change (append_event id ev s)
  unfolding append_event get
  append_event-Shows ev e change s v = record {
    now = v.now;
    there = v.there;
    indexed = v.indexed;
    statuses = v.statuses;
  }

  incr-Shows :
      (step : String) (e : Execution) (change : String → Option String) (s : ExecutionStore)
      → Shows id e change s
      → Shows id e change (incr_step_exec_count step s)
  unfolding incr_step_exec_count get
  incr-Shows step e change s v = record {
    now = v.now;
    there = v.there;
    indexed = v.indexed;
    statuses = v.statuses;
  }

  completed-Shows :
      (ev : Event) (s : ExecutionStore) (e : Execution)
      → IsIndexed s
      → get id s ≡ some e
      → Shows id e (λ k. none) (apply_workflow_completed id ev s)
  unfolding apply_workflow_completed
  completed-Shows ev s e indexed there = elim (Option-cases (field_of "status" ev.payload)) [
    | inl h ↦ rw (h, apply_workflow_completed) (keeps_Shows s e indexed there)
    | inr (v, h) ↦ elim (Option-cases (as_text v)) [
      | inl h' ↦ rw (h, h', apply_workflow_completed) (keeps_Shows s e indexed there)
      | inr (status, h') ↦
          let f : Execution → Execution =
            λ e. record e { status = status; finished_at = some ev.timestamp } in
          rw (h, h', apply_workflow_completed)
            (record {
              now = f e;
              there =
                  get-update_execution id id f s indexed ∙ rw (eq_refl id) (ap (mapped f) there);
              indexed = update_execution-IsIndexed id f s (λ x. refl) indexed;
              statuses = λ k. refl;
            })
    ]
  ]

  pub reset_steps-Shows :
      (steps : List String) (s : ExecutionStore) (e : Execution)
      → IsIndexed s
      → get id s ≡ some e
      → Shows id e (λ k. if contains k steps then some "pending" else none) (reset_steps id steps s)
  unfolding reset_steps
  reset_steps-Shows [] s e indexed there = keeps_Shows s e indexed there
  reset_steps-Shows (step ∷ steps) s e indexed there =
      let one =
        update_step-Shows step (with_status "pending") (some "pending") s e (λ r. refl) indexed
          there in
      let rest = reset_steps-Shows steps _ one.now one.indexed one.there in
      let both = then_Shows e _ _ _ _ one rest in
      record {
        now = both.now;
        there = both.there;
        indexed = both.indexed;
        statuses = λ k. both.statuses k ∙ ap (λ o. get_or o (status_in e k)) (same k);
      }
    where
      same :
          (k : String)
          → first_of
              (if contains k steps then some "pending" else none)
              (if step == k then some "pending" else none)
            ≡ (if step == k || contains k steps then some "pending" else none)
      same k = elim (Bool-cases (contains k steps)) [
        | inl h ↦ rw h (ground arith)
        | inr h ↦ rw h (ground arith)
      ]

  nowhere_Shows :
      (ev : Event) (e : Execution) (s : ExecutionStore)
      → Shows id e (λ k. none) s
      → Shows id e (λ k. if ev.step_id == k then none else none) s
  nowhere_Shows ev e s v = record {
    now = v.now;
    there = v.there;
    indexed = v.indexed;
    statuses = λ k.
        v.statuses k
        ∙ elim (Bool-cases (ev.step_id == k)) [ inl h ↦ rw h refl | inr h ↦ rw h refl ];
  }

  pub apply_step_event-Shows :
      (ev : Event) (type : EventType) (s : ExecutionStore) (e : Execution)
      → IsIndexed s
      → get id s ≡ some e
      → Shows id e
          (λ k. if ev.step_id == k then type_status type else none)
          (apply_step_event id ev type s)
  unfolding apply_step_event
  apply_step_event-Shows ev EventType.step_started s e i t =
      incr-Shows ev.step_id e _ _
        (update_step-Shows ev.step_id _ (some Status.running) s e (λ r. refl) i t)
  apply_step_event-Shows ev EventType.step_waiting s e i t =
      update_step-Shows ev.step_id _ (some _) s e (λ r. refl) i t
  apply_step_event-Shows ev EventType.step_input s e i t =
      update_step-Shows ev.step_id _ none s e (λ r. refl) i t
  apply_step_event-Shows ev EventType.step_completed s e i t =
      update_step-Shows ev.step_id _ (some Status.success) s e
        (λ r. output-status ev (with_status Status.success r)) i t
  apply_step_event-Shows ev EventType.step_failed s e i t =
      update_step-Shows ev.step_id _ (some _) s e (λ r. refl) i t
  apply_step_event-Shows ev EventType.step_skipped s e i t =
      update_step-Shows ev.step_id _ (some _) s e (λ r. refl) i t
  apply_step_event-Shows ev EventType.step_output s e i t =
      update_step-Shows ev.step_id _ none s e (output-status ev) i t
  apply_step_event-Shows ev EventType.workflow_completed s e i t =
      nowhere_Shows ev e _ (completed-Shows ev s e i t)
  apply_step_event-Shows ev EventType.workflow_started s e i t =
      nowhere_Shows ev e s (keeps_Shows s e i t)
  apply_step_event-Shows ev EventType.step_log s e i t = nowhere_Shows ev e s (keeps_Shows s e i t)
  apply_step_event-Shows ev EventType.step_goto s e i t = nowhere_Shows ev e s (keeps_Shows s e i t)
  apply_step_event-Shows ev EventType.metrics s e i t = nowhere_Shows ev e s (keeps_Shows s e i t)
  apply_step_event-Shows ev EventType.execution_state s e i t =
      nowhere_Shows ev e s (keeps_Shows s e i t)
  apply_step_event-Shows ev EventType.execution_group s e i t =
      nowhere_Shows ev e s (keeps_Shows s e i t)
