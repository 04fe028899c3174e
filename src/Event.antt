-- ===== src/Event.antt =====
-- internal/event/events.go: events and their types, of which the shared module has the texts. A data map
-- that is nil is empty here: looking up a key gives nothing in both. The execution of an event and the
-- event's time are kept as the source keeps them.
pub mod Bus
use tailflow_agent.Prelude.{ℕ, String, Bool, true, false}
use tailflow_agent.Value.{Fields}

pub data EventType : Type 0 where
  workflow_started : EventType
  workflow_completed : EventType
  step_started : EventType
  step_completed : EventType
  step_failed : EventType
  step_skipped : EventType
  step_log : EventType
  step_waiting : EventType
  step_input : EventType
  step_output : EventType
  step_goto : EventType
  metrics : EventType
  execution_state : EventType
  execution_group : EventType

pub record Event : Type 0 where
  pub type : EventType
  pub timestamp : ℕ
  pub execution_id : String
  pub step_id : String
  pub message : String
  pub payload : Fields
  pub seq : ℕ

-- `NewEvent` at the time `now`
abbrev pub new_event : ℕ → EventType → String → String → String → Event
new_event now type execution_id step_id message = record {
  type = type;
  timestamp = now;
  execution_id = execution_id;
  step_id = step_id;
  message = message;
  payload = Fields.end;
  seq = 0;
}

-- Tests for three of the types.
abbrev pub is_goto : EventType → Bool
is_goto EventType.step_goto = true
is_goto t = false

abbrev pub is_started : EventType → Bool
is_started EventType.step_started = true
is_started t = false

abbrev pub is_completed : EventType → Bool
is_completed EventType.workflow_completed = true
is_completed t = false
