-- ===== src/Server/Capture/Samples.antt =====
-- The events of a short execution, its result, and the theorems there.
use tailflow_agent.Prelude.{
  ℕ, String, ◌≡◌, refl, true, false, none, some, List, [], ◌∷◌, if◌then◌else◌, ◌==◌, IsNodup,
}
use tailflow_agent.Prelude.Dict.{get_or, is_some, keys}
use tailflow_agent.Event.{Event, EventType, new_event}
use tailflow_agent.Store.{Execution, add, get}
use tailflow_agent.Store.Index.{IsIndexed, add-IsIndexed}
use tailflow_agent.Store.Samples.{execution, empty, empty-IsIndexed, program}
use tailflow_agent.Store.Steps.{step_of}
use tailflow_agent.Engine.Workflow.{ExecuteResult}
use tailflow_agent.Server.Capture.{Capture, capture_events}
use tailflow_agent.Server.Capture.Statuses.{last_status, capture_events-status}
use tailflow_agent.Server.Capture.Finalize.{
  Returned, Holds, finalize_execution, finalize_execution_correct,
}
use tailflow_agent.Status

abbrev events : List Event
events =
    new_event 1 EventType.step_started "x" "a" ""
    ∷ new_event 2 EventType.step_started "y" "b" ""
    ∷ new_event 3 EventType.step_completed "x" "a" ""
    ∷ new_event 4 EventType.step_started "x" "b" ""
    ∷ []

abbrev start : Capture
start = record {
  tracker = record { body = none; iteration = 0 };
  completed_seen = false;
  store = add (execution "x") empty;
}

stored : get "x" (add (execution "x") empty) ≡ some (execution "x")
unfolding program
stored = refl

indexed : IsIndexed (add (execution "x") empty)
indexed = add-IsIndexed (execution "x") empty empty-IsIndexed

abbrev never : String → ℕ
never s = 0

capture_events-status_example :
    (e' : Execution) × (get "x" (capture_events never "x" events start).store ≡ some e')
    × ((k : String)
        → (step_of e' k).status
          ≡ get_or (last_status "x" k events) (step_of (execution "x") k).status)
capture_events-status_example =
    capture_events-status "x" never events start (execution "x")
      (λ h. absurd (cc h), (λ h. absurd (cc h), (λ h. absurd (cc h), (λ h. absurd (cc h), tt))))
      indexed stored

abbrev returned : Returned
returned =
    Returned.finished (record { status = "success"; has_errors = false; steps = []; error = none })
      9

finalize_execution_correct_example :
    (e' : Execution) × (get "x"
        (finalize_execution "x" returned false 10 (add (execution "x") empty))
      ≡ some e')
    × (is_some e'.finished_at ≡ true)
    × ((m : String)
        → returned ≡ Returned.failed m
        → e'.status ≡ (if false then Status.cancelled else Status.failed))
    × ((r : ExecuteResult) (at : ℕ)
        → returned ≡ Returned.finished r at
        → IsNodup (keys r.steps)
        → Holds r (execution "x") e')
    × ((k : String)
        → ("x" == k) ≡ false
        → get k (finalize_execution "x" returned false 10 (add (execution "x") empty))
          ≡ get k (add (execution "x") empty))
finalize_execution_correct_example =
    finalize_execution_correct "x" returned false 10 (add (execution "x") empty) (execution "x")
      indexed stored
