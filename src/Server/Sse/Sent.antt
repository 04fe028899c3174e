-- ===== src/Server/Sse/Sent.antt =====
-- internal/server/sse.go: which events reach the client of an execution that is under way.
use tailflow_agent.Prelude.{String, ◌≡◌, Bool, true, false, List, [], ◌∷◌, if◌then◌else◌, ◌==◌}
use tailflow_agent.Event.{Event, is_completed}

-- An event that encodes and does not end the stream.
abbrev pub IsPlain : (Event → Bool) → Event → Type 0
IsPlain encodes ev = (encodes ev ≡ true) × (is_completed ev.type ≡ false)

-- The events of one execution.
abbrev pub mine : String → List Event → List Event
mine id [] = []
mine id (ev ∷ evs) = let rest = mine id evs in if ev.execution_id == id then ev ∷ rest else rest
