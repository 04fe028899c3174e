-- ===== src/Event/Bus/Samples.antt =====
-- One event through a bus with one subscriber, which is then closed, and the invariant there.
use tailflow_agent.Prelude.{refl, false, [], ◌∷◌}
use tailflow_agent.Event.{Event, EventType, new_event}
use tailflow_agent.Event.Bus.{Bus, new_bus, subscribe, send, Step, Reach}
use tailflow_agent.Event.Bus.Open.{IsSound, Reach-IsSound}

abbrev event : Event
event = new_event 5 EventType.step_started "x" "a" ""

abbrev one : Bus
one = subscribe 1 false new_bus

abbrev numbered : Bus
numbered = record one { seq = 1; numbered = record event { seq = 1 } ∷ [] }

abbrev begun : Bus
begun = record numbered {
  numbered = [];
  publishers =
      record { event = record event { seq = 1 }; rest = record { ch = 0; lossy = false } ∷ [] }
      ∷ [];
}

abbrev queued : Bus
queued = record begun {
  channels = record { capacity = 1; queue = record event { seq = 1 } ∷ []; closed = false } ∷ [];
}

reached_begun : Reach begun
unfolding subscribe
reached_begun =
    Reach.after numbered begun
      (Reach.after one numbered
        (Reach.after new_bus one Reach.start (Step.subscribes new_bus 1 false refl))
        (Step.numbers one event))
      (Step.begins numbered [] [] (record event { seq = 1 }) refl refl)

abbrev sent : Bus
sent = record queued { publishers = record { event = record event { seq = 1 }; rest = [] } ∷ [] }

reached_sent : Reach sent
unfolding subscribe send
reached_sent = Reach.after begun sent reached_begun (
    Step.sends begun queued [] [] (record event { seq = 1 }) (record { ch = 0; lossy = false }) []
      refl refl)

Reach-IsSound_example : IsSound sent
Reach-IsSound_example = Reach-IsSound sent reached_sent
