-- ===== src/Server/Capture/Statuses.antt =====
-- internal/server/handlers_capture.go: the status of a step in the store is that of its last event.
use tailflow_agent.Prelude.{
  ℕ, String, ◌≡◌, refl, sym, ◌∙◌, ap, inl, inr, Bool, true, false, ◌&&◌, Option, none, some, List,
  [], ◌∷◌, All, arith, if◌then◌else◌, ◌==◌, contains, Bool-cases,
}
use tailflow_agent.Prelude.Dict.{get_or}
use tailflow_agent.Event.{Event, EventType, is_goto, is_started, is_completed}
use tailflow_agent.Store.{Execution, ExecutionStore, get}
use tailflow_agent.Store.Index.{IsIndexed}
use tailflow_agent.Store.Steps.{step_of}
use tailflow_agent.Server.Capture.{
  LoopTracker, Capture, body_of, track_goto, track, in_loop, apply_step_event, reset_body,
  process_event, capture_events,
}
use tailflow_agent.Server.Capture.Shows.{
  status_in, type_status, first_of, Shows, then_Shows, keeps_Shows, append_event-Shows,
  reset_steps-Shows, apply_step_event-Shows,
}

-- The status that an event gives to the step `k`: a goto sets the steps of its body to pending.
abbrev pub event_status : String → Event → Option String
event_status k ev =
    if is_goto ev.type
    then if contains k (get_or (body_of ev) []) then some "pending" else none
    else if ev.step_id == ""
    then none
    else if ev.step_id == k
    then type_status ev.type
    else none

-- The status that the events of the execution `id` give to the step `k`, the last one first.
abbrev pub last_status : String → String → List Event → Option String
last_status id k [] = none
last_status id k (ev ∷ evs) =
    first_of (last_status id k evs) (if ev.execution_id == id then event_status k ev else none)

-- A goto event of the engine lists the body of its loop.
abbrev pub HasBody : Event → Type 0
HasBody ev = (is_goto ev.type ≡ true) → (steps : List String) × (body_of ev ≡ some steps)

goto_no_status : (t : EventType) → is_goto t ≡ true → type_status t ≡ none
goto_no_status EventType.step_started h = absurd (cc h)
goto_no_status EventType.step_waiting h = absurd (cc h)
goto_no_status EventType.step_completed h = absurd (cc h)
goto_no_status EventType.step_failed h = absurd (cc h)
goto_no_status EventType.step_skipped h = absurd (cc h)
goto_no_status t h = refl

completed_no_status :
    (t : EventType) → is_completed t ≡ true → (is_goto t ≡ false) × (type_status t ≡ none)
completed_no_status EventType.workflow_completed h = (refl, refl)
completed_no_status t h = absurd (cc h)

goto_not_started : (t : EventType) → is_goto t ≡ true → is_started t ≡ false
goto_not_started EventType.step_started h = absurd (cc h)
goto_not_started t h = refl

track-body :
    (int_of : String → ℕ) (ev : Event) (lt : LoopTracker) (steps : List String)
    → is_goto ev.type ≡ true
    → body_of ev ≡ some steps
    → (track int_of ev lt).body ≡ some steps
unfolding track
track-body int_of ev lt steps g b = rw (g, goto_not_started ev.type g) (rw (b, track_goto) refl)

-- What the reset and the step of an event change together.
change_of : Event → String → Option String
change_of ev k =
    first_of
      (if ev.step_id == "" then none else if ev.step_id == k then type_status ev.type else none)
      (if is_goto ev.type
        then if contains k (get_or (body_of ev) []) then some "pending" else none
        else none)

first_of-none : (o : Option String) → first_of o none ≡ o
first_of-none none = refl
first_of-none (some s) = refl

quiet_if : (b : Bool) → ◌≡◌ {A = Option String} (if b then none else none) none
quiet_if true = refl
quiet_if false = refl

change_of-event_status : (ev : Event) (k : String) → change_of ev k ≡ event_status k ev
unfolding change_of
change_of-event_status ev k = elim (Bool-cases (is_goto ev.type)) [
  | inr h ↦ rw h (first_of-none _)
  | inl h ↦
      rw (h, goto_no_status ev.type h)
        (rw (quiet_if (ev.step_id == k), quiet_if (ev.step_id == "")) refl)
]

unheard :
    (ev : Event) (k : String)
    → is_goto ev.type ≡ false
    → type_status ev.type ≡ none
    → event_status k ev ≡ none
unheard ev k plain silent =
    rw (plain, silent) (rw (quiet_if (ev.step_id == k)) (quiet_if (ev.step_id == "")))

module _ (id : String) (int_of : String → ℕ) where
  change_Shows :
      (first second : String → Option String) (e : Execution) (s : ExecutionStore)
      → ((k : String) → first k ≡ second k)
      → Shows id e first s
      → Shows id e second s
  change_Shows first second e s same v = record {
    now = v.now;
    there = v.there;
    indexed = v.indexed;
    statuses = λ k. v.statuses k ∙ ap (λ o. get_or o (status_in e k)) (same k);
  }

  reset_body-Shows :
      (ev : Event) (lt : LoopTracker) (s : ExecutionStore) (e : Execution)
      → HasBody ev
      → IsIndexed s
      → get id s ≡ some e
      → Shows id e
          (λ k.
            if is_goto ev.type
            then if contains k (get_or (body_of ev) []) then some "pending" else none
            else none)
          (reset_body id ev (track int_of ev lt) s)
  reset_body-Shows ev lt s e has i t = elim (Bool-cases (is_goto ev.type)) [
    | inr h ↦ rw h (keeps_Shows id s e i t)
    | inl h ↦
        let (steps, b) = has h in
        rw (h, track-body int_of ev lt steps h b, b) (reset_steps-Shows id steps s e i t)
  ]

  step_Shows :
      (ev : Event) (change : String → Option String) (s : ExecutionStore) (e : Execution)
      → Shows id e change s
      → Shows id e
          (λ k.
            first_of
              (if ev.step_id == ""
                then none
                else if ev.step_id == k
                then type_status ev.type
                else none)
              (change k))
          (if ev.step_id == "" then s else apply_step_event id ev ev.type s)
  step_Shows ev change s e v = elim (Bool-cases (ev.step_id == "")) [
    | inl h ↦ rw h v
    | inr h ↦ rw h (
        then_Shows id e change _ s _ v
          (apply_step_event-Shows id ev ev.type s v.now v.indexed v.there))
  ]

  process_event-Shows :
      (ev : Event) (c : Capture) (e : Execution)
      → HasBody ev
      → IsIndexed c.store
      → get id c.store ≡ some e
      → Shows id e (λ k. event_status k ev) (process_event int_of id ev c).store
  unfolding process_event change_of
  process_event-Shows ev c e has i t =
      let lt = track int_of ev c.tracker in
      let reset = reset_body-Shows ev c.tracker c.store e has i t in
      elim (Bool-cases (is_completed ev.type && c.completed_seen)) [
        | inl again ↦
            let (plain, silent) = completed_no_status ev.type (ground arith) in
            rw (again, process_event)
              (change_Shows (λ k. none) _ e c.store (λ k. sym (unheard ev k plain silent))
                (keeps_Shows id c.store e i t))
        | inr new ↦ elim (Bool-cases (in_loop ev lt)) [
          | inl skip ↦
              rw (new, skip, process_event)
                (change_Shows _ _ e _ (change_of-event_status ev) (step_Shows ev _ _ e reset))
          | inr kept ↦
              rw (new, kept, process_event)
                (change_Shows _ _ e _ (change_of-event_status ev)
                  (step_Shows ev _ _ e (append_event-Shows id ev e _ _ reset)))
        ]
      ]

  capture_events-Shows :
      (evs : List Event) (c : Capture) (e : Execution)
      → All HasBody evs
      → IsIndexed c.store
      → get id c.store ≡ some e
      → Shows id e (λ k. last_status id k evs) (capture_events int_of id evs c).store
  unfolding capture_events
  capture_events-Shows [] c e has i t = keeps_Shows id c.store e i t
  capture_events-Shows (ev ∷ evs) c e has i t = elim (Bool-cases (ev.execution_id == id)) [
    | inr other ↦
        rw (other, capture_events)
          (change_Shows _ _ e _ (λ k. sym (first_of-none (last_status id k evs)))
            (capture_events-Shows evs c e has.1 i t))
    | inl mine ↦
        let one = process_event-Shows ev c e has.0 i t in
        rw (mine, capture_events)
          (then_Shows id e _ _ _ _ one (
            capture_events-Shows evs (process_event int_of id ev c) one.now has.1 one.indexed
              one.there))
  ]

-- After the events of an execution that the store has, in their order and with those of other executions
-- among them, `Get` returns the execution with each step in the status of its last event, pending for a
-- goto whose loop body has the step; a step without such an event has its old status. Every goto event
-- is assumed to list its loop body.
pub capture_events-status :
    (id : String) (int_of : String → ℕ) (evs : List Event) (c : Capture) (e : Execution)
    → All HasBody evs
    → IsIndexed c.store
    → get id c.store ≡ some e
    → (e' : Execution) × (get id (capture_events int_of id evs c).store ≡ some e')
      × ((k : String) → (step_of e' k).status ≡ get_or (last_status id k evs) (step_of e k).status)
capture_events-status id int_of evs c e has i t =
    let v = capture_events-Shows id int_of evs c e has i t in (v.now, v.there, v.statuses)
