-- ===== src/Server/Sse.antt =====
-- internal/server/sse.go: the events that a client is sent. What the subscription delivers until the
-- client leaves is a list; the flushes are left out.
pub mod Sent
pub mod Samples
use tailflow_agent.Prelude.{
  ℕ, zero, suc, String, Bool, true, false, not, ◌&&◌, List, [], ◌∷◌, ◌++◌, if◌then◌else◌, ◌==◌, ltb,
}
use tailflow_agent.Event.{Event, is_completed}

-- The loop of `replayStoredEvents`: what is sent, and whether the workflow has completed. An event that
-- does not encode is counted and not sent; `encodes` is the success of `json.Marshal`.
unfoldable pub replay_stored_events : (Event → Bool) → List Event → List Event × ℕ × Bool
replay_stored_events encodes [] = ([], 0, false)
replay_stored_events encodes (ev ∷ stored) =
    let (sent, n, done) = replay_stored_events encodes stored in
    let first = if encodes ev then ev ∷ [] else [] in
    if is_completed ev.type
    then (first, 1, true)
    else (if encodes ev then ev ∷ sent else sent, suc n, done)

-- `sseEventLoop`, with a filter that keeps a state.
unfoldable pub sse_event_loop {ℓ} :
    {S : Type ℓ} → (Event → Bool) → Bool → (S → Event → Bool × S) → S → List Event → List Event
sse_event_loop encodes close_on_complete filter s [] = []
sse_event_loop encodes close_on_complete filter s (ev ∷ evs) =
    let rest = sse_event_loop encodes close_on_complete filter (filter s ev).1 evs in
    if (filter s ev).0 && encodes ev
    then if close_on_complete && is_completed ev.type then ev ∷ [] else ev ∷ rest
    else rest

-- The filter of `handleSSE`, whose state is `skipped`.
abbrev pub unless_replayed : String → ℕ → ℕ → Event → Bool × ℕ
unless_replayed id replayed skipped ev =
    if not (ev.execution_id == id)
    then (false, skipped)
    else if ltb skipped replayed
    then (false, suc skipped)
    else (true, skipped)

-- What a client of one execution is sent: `stored` are the events in the store, `live` those that the
-- subscription, which is made before, delivers.
unfoldable pub handle_sse : (Event → Bool) → String → List Event → List Event → List Event
unfolding replay_stored_events sse_event_loop
handle_sse encodes id stored live =
    let (sent, replayed, done) = replay_stored_events encodes stored in
    if done then sent else sent ++ sse_event_loop encodes true (unless_replayed id replayed) 0 live

unfoldable pub handle_global_sse : (Event → Bool) → List Event → List Event
unfolding sse_event_loop
handle_global_sse encodes live =
    sse_event_loop encodes false (λ (s : Unit {0}) ev. (true, s)) tt live
