-- ===== src/Server/Capture.antt =====
-- internal/server/handlers_capture.go and the loop tracker of sse.go: how the events of an execution
-- become the state that the store keeps of it. `Store` is the store that it is used with.
pub mod Shows
pub mod Statuses
pub mod Finalize
pub mod Samples
use tailflow_agent.Prelude.{
  ℕ, String, Bool, true, false, not, ◌&&◌, ◌||◌, Option, none, some, List, [], ◌∷◌, if◌then◌else◌,
  ◌==◌, ltb, contains,
}
use tailflow_agent.Prelude.Dict.{Dict, lookup, insert, get_or, is_some}
use tailflow_agent.Value.{Value, Items, Fields, field_of, as_text}
use tailflow_agent.Event.{Event, EventType, is_goto, is_started, is_completed}
use tailflow_agent.Runtime.{StepResult, StepError}
use tailflow_agent.Store.{
  Execution, ExecutionStore, append_event, update_step, update_execution, incr_step_exec_count,
}
use tailflow_agent.Status

-- `body` is nil at first.
pub record LoopTracker : Type 0 where
  pub body : Option (List String)
  pub iteration : ℕ

abbrev texts : Items → List String
texts Items.nil = []
texts (Items.cons v xs) =
    let rest = texts xs in elim (as_text v) [ none ↦ rest | some s ↦ s ∷ rest ]

-- The steps that the data of a goto event lists, if there is a list.
abbrev pub body_of : Event → Option (List String)
body_of ev = elim (field_of "body" ev.payload) [
  | none ↦ none
  | some v ↦ elim v [
    | Value.array xs ↦ some (texts xs)
    | Value.null ↦ none
    | Value.bool b ↦ none
    | Value.number n ↦ none
    | Value.typed w ↦ none
    | Value.text s ↦ none
    | Value.object fs ↦ none
  ]
]

abbrev in_body : String → LoopTracker → Bool
in_body step lt = elim (lt.body) [ none ↦ false | some steps ↦ contains step steps ]

-- The number in `iteration`; `int_of` is the conversion of the text of a number.
abbrev iteration_of : (String → ℕ) → Event → ℕ → ℕ
iteration_of int_of ev old = elim (field_of "iteration" ev.payload) [
  | none ↦ old
  | some v ↦ elim v [
    | Value.number n ↦ int_of n
    | Value.null ↦ old
    | Value.typed w ↦ old
    | Value.bool b ↦ old
    | Value.text s ↦ old
    | Value.array xs ↦ old
    | Value.object fs ↦ old
  ]
]

unfoldable pub track_goto : (String → ℕ) → Event → LoopTracker → LoopTracker
track_goto int_of ev lt = record {
  iteration = iteration_of int_of ev lt.iteration;
  body = elim (body_of ev) [ none ↦ lt.body | some steps ↦ some steps ];
}

unfoldable pub track : (String → ℕ) → Event → LoopTracker → LoopTracker
unfolding track_goto
track int_of ev lt =
    let after = if is_goto ev.type then track_goto int_of ev lt else lt in
    if is_started ev.type && ltb 0 after.iteration && not (in_body ev.step_id after)
    then record { body = none; iteration = 0 }
    else after

unfoldable pub in_loop : Event → LoopTracker → Bool
in_loop ev lt = ltb 1 lt.iteration && in_body ev.step_id lt && not (is_goto ev.type)

-- The functions that `applyStepEvent` passes to `UpdateStep`.
abbrev pub with_status : String → StepResult → StepResult
with_status status r = record r { status = status }

abbrev pub with_output : Event → StepResult → StepResult
with_output ev r = elim (field_of "output" ev.payload) [
  | none ↦ r
  | some o ↦ record r { output = o }
]

abbrev failed_with : Event → StepResult → StepResult
failed_with ev r = record r {
  status = Status.failed;
  error = some (record { message = ev.message; code = "action_failed"; step_id = ev.step_id });
}

unfoldable pub apply_workflow_completed : String → Event → ExecutionStore → ExecutionStore
apply_workflow_completed id ev s = elim (field_of "status" ev.payload) [
  | none ↦ s
  | some v ↦ elim (as_text v) [
    | none ↦ s
    | some status ↦
        update_execution id (λ e. record e { status = status; finished_at = some ev.timestamp }) s
  ]
]

unfoldable pub apply_step_event : String → Event → EventType → ExecutionStore → ExecutionStore
unfolding apply_workflow_completed
apply_step_event id ev EventType.step_started s =
    incr_step_exec_count ev.step_id (update_step id ev.step_id (with_status Status.running) s)
apply_step_event id ev EventType.step_waiting s =
    update_step id ev.step_id (with_status Status.waiting) s
apply_step_event id ev EventType.step_input s =
    update_step id ev.step_id (λ r. record r { input = Value.object ev.payload }) s
apply_step_event id ev EventType.step_completed s =
    update_step id ev.step_id (λ r. with_output ev (with_status Status.success r)) s
apply_step_event id ev EventType.step_failed s = update_step id ev.step_id (failed_with ev) s
apply_step_event id ev EventType.step_skipped s =
    update_step id ev.step_id (with_status Status.skipped) s
apply_step_event id ev EventType.step_output s = update_step id ev.step_id (with_output ev) s
apply_step_event id ev EventType.workflow_completed s = apply_workflow_completed id ev s
apply_step_event id ev type s = s

-- The loop over the body on a goto; Go visits it in any order.
unfoldable pub reset_steps : String → List String → ExecutionStore → ExecutionStore
reset_steps id [] s = s
reset_steps id (step ∷ steps) s =
    reset_steps id steps (update_step id step (with_status "pending") s)

abbrev pub reset_body : String → Event → LoopTracker → ExecutionStore → ExecutionStore
reset_body id ev lt s = if is_goto ev.type then reset_steps id (get_or lt.body []) s else s

pub record Capture : Type 0 where
  pub tracker : LoopTracker
  pub completed_seen : Bool
  pub store : ExecutionStore

unfoldable pub process_event : (String → ℕ) → String → Event → Capture → Capture
unfolding track in_loop apply_step_event reset_steps
process_event int_of id ev c =
    let lt = track int_of ev c.tracker in
    if is_completed ev.type && c.completed_seen
    then record c { tracker = lt }
    else let reset = reset_body id ev lt c.store in
      let logged = if in_loop ev lt then reset else append_event id ev reset in
      record {
        tracker = lt;
        completed_seen = c.completed_seen || is_completed ev.type;
        store = if ev.step_id == "" then logged else apply_step_event id ev ev.type logged;
      }

-- The loop of `captureEvents` over what the subscription delivers.
unfoldable pub capture_events : (String → ℕ) → String → List Event → Capture → Capture
unfolding process_event
capture_events int_of id [] c = c
capture_events int_of id (ev ∷ evs) c =
    capture_events int_of id evs (if ev.execution_id == id then process_event int_of id ev c else c)
