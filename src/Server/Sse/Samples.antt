-- ===== src/Server/Sse/Samples.antt =====
-- A client that connects when one event is stored, and the theorem of the stream there.
use tailflow_agent.Prelude.{◌≡◌, refl, Bool, true, List, [], ◌∷◌, ◌++◌}
use tailflow_agent.Event.{Event, EventType, new_event}
use tailflow_agent.Server.Sse.{handle_sse, handle_global_sse}

abbrev stored : List Event
stored = new_event 1 EventType.step_started "x" "a" "" ∷ []

abbrev live : List Event
live =
    new_event 2 EventType.step_completed "x" "a" ""
    ∷ new_event 3 EventType.step_started "y" "a" ""
    ∷ new_event 4 EventType.step_started "x" "b" ""
    ∷ []

abbrev all : Event → Bool
all ev = true

-- The completion of step "a", which was published after the client had connected, is not sent.
lost : handle_sse all "x" stored live ≡ stored ++ new_event 4 EventType.step_started "x" "b" "" ∷ []
unfolding handle_sse
lost = refl

global : handle_global_sse all live ≡ live
unfolding handle_global_sse
global = refl
