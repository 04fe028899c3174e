-- ===== src/Store.antt =====
-- internal/store/execution.go: the in-memory store of executions, a ring buffer with an index.
-- `buffer` and `byID` hold pointers to the same executions: a pointer is an address in `heap`, where
-- every execution that was added has a cell. A snapshot is a value, so that a deep copy is the value
-- itself. A time is a number. Each operation holds the store's lock from its start to its end.
pub mod Ring
pub mod Index
pub mod Steps
pub mod Metrics
pub mod Samples
use tailflow_agent.Prelude.{
  ℕ, zero, suc, ◌+◌, ◌-◌, ◌%◌, String, Bool, true, false, ◌||◌, not, Option, none, some, List, [],
  ◌∷◌, ◌++◌, length, get_elem?, set, take, drop, replicate, if◌then◌else◌, ◌==◌, leb, ltb,
}
use tailflow_agent.Prelude.Dict.{Dict, lookup, insert, erase, get_or}
use tailflow_agent.Prelude.Int.{ℤ, pos, negsuc}
use tailflow_agent.Value.{Value, Fields}
use tailflow_agent.Event.{Event}
use tailflow_agent.Runtime.{StepResult}
use tailflow_agent.Status

pub record Execution : Type 0 where
  pub id : String
  pub workflow_name : String
  pub status : String
  pub params : Option Fields
  pub steps : Option (Dict StepResult)
  pub started_at : ℕ
  pub finished_at : Option ℕ
  pub error : String

pub record ExecutionStore : Type 0 where
  pub heap : List Execution
  pub buffer : List (Option ℕ)
  pub by_id : Dict ℕ
  pub events : Dict (List Event)
  pub step_exec_counts : Dict ℕ
  pub capacity : ℕ
  pub head : ℕ
  pub count : ℕ

-- A capacity that is not positive falls back to 100.
abbrev pub usable_capacity : ℤ → ℕ
usable_capacity (pos zero) = 100
usable_capacity (pos (suc n)) = suc n
usable_capacity (negsuc n) = 100

pub new_execution_store : ℤ → ExecutionStore
new_execution_store capacity = record {
  heap = [];
  buffer = replicate (usable_capacity capacity) none;
  by_id = [];
  events = [];
  step_exec_counts = [];
  capacity = usable_capacity capacity;
  head = 0;
  count = 0;
}

-- What a slot of the buffer holds.
abbrev pub stored : ExecutionStore → ℕ → Option Execution
stored s i = elim (get_elem? s.buffer i) [
  | none ↦ none
  | some none ↦ none
  | some (some r) ↦ get_elem? s.heap r
]

-- The entry at `head` leaves the index and the event logs.
unfoldable pub evict : ExecutionStore → ExecutionStore
evict s = elim (stored s s.head) [
  | none ↦ s
  | some old ↦ record s { by_id = erase old.id s.by_id; events = erase old.id s.events }
]

unfoldable pub add : Execution → ExecutionStore → ExecutionStore
unfolding evict
add e s =
    let t = if leb s.capacity s.count then evict s else s in
    record t {
      heap = t.heap ++ e ∷ [];
      buffer = set t.buffer t.head (some (length t.heap));
      by_id = insert e.id (length t.heap) t.by_id;
      head = (t.head + 1) % t.capacity;
      count = if ltb t.count t.capacity then t.count + 1 else t.count;
    }

-- `none` stands for the error that wraps `ErrNotFound`.
unfoldable pub get : String → ExecutionStore → Option Execution
get id s = elim (lookup id s.by_id) [ none ↦ none | some r ↦ get_elem? s.heap r ]

-- `f` is applied to the cell of an id, if there is one.
pub update_execution : String → (Execution → Execution) → ExecutionStore → ExecutionStore
update_execution id f s = elim (lookup id s.by_id) [
  | none ↦ s
  | some r ↦ elim (get_elem? s.heap r) [
    | none ↦ s
    | some e ↦ record s { heap = set s.heap r (f e) }
  ]
]

pub update : Execution → ExecutionStore → ExecutionStore
unfolding update_execution
update e = update_execution e.id (λ old. e)

-- The slot that round `i` of the loop of `List` reads.
abbrev pub slot : ExecutionStore → ℕ → ℕ
slot s i = (s.head + s.capacity - 1 - i) % s.capacity

-- Rounds `i`, `i + 1`, ... of that loop, `n` of them.
unfoldable pub collect : ExecutionStore → ℕ → ℕ → List Execution
collect s i zero = []
collect s i (suc n) =
    let rest = collect s (suc i) n in elim (stored s (slot s i)) [ none ↦ rest | some e ↦ e ∷ rest ]

unfoldable pub list : ExecutionStore → List Execution
unfolding collect
list s = collect s 0 s.count

unfoldable pub append_event : String → Event → ExecutionStore → ExecutionStore
append_event id ev s = record s {
  events = insert id (get_or (lookup id s.events) [] ++ ev ∷ []) s.events;
}

pub get_events : String → ExecutionStore → List Event
get_events id s = get_or (lookup id s.events) []

-- For an offset and a limit that are not negative: the part of the log from `offset` on, at most `limit` events, with the number of all.
pub get_events_paginated : String → ℕ → ℕ → ExecutionStore → List Event × ℕ
get_events_paginated id offset limit s =
    let evts = get_or (lookup id s.events) [] in
    let total = length evts in
    let end = if ltb total (offset + limit) then total else offset + limit in
    if leb total offset then ([], total) else (take (end - offset) (drop offset evts), total)

-- Some step has the status.
pub any_step : String → Dict StepResult → Bool
any_step status [] = false
any_step status ((k, r) ∷ steps) = let rest = any_step status steps in r.status == status || rest

-- The status of an active execution follows its steps.
pub derive_status : Execution → Dict StepResult → String
unfolding any_step
derive_status e steps =
    if not (e.status == Status.running || e.status == Status.waiting)
    then e.status
    else if any_step Status.running steps
    then Status.running
    else if any_step Status.waiting steps
    then Status.waiting
    else e.status

-- The result that a step starts with.
abbrev pub new_step : StepResult
new_step = record {
  status = "";
  input = Value.null;
  output = Value.null;
  error = none;
  started_at = none;
  finished_at = none;
}

abbrev pub set_step : String → (StepResult → StepResult) → Execution → Dict StepResult
set_step step f e =
    let steps = get_or e.steps [] in insert step (f (get_or (lookup step steps) new_step)) steps

pub update_step : String → String → (StepResult → StepResult) → ExecutionStore → ExecutionStore
unfolding update_execution derive_status
update_step id step f = update_execution id (λ e.
    let steps = set_step step f e in
    record e { steps = some steps; status = derive_status e steps })

unfoldable pub incr_step_exec_count : String → ExecutionStore → ExecutionStore
incr_step_exec_count step s = record s {
  step_exec_counts = insert step (get_or (lookup step s.step_exec_counts) 0 + 1) s.step_exec_counts;
}

-- A snapshot of the counters; a map is a value here.
pub step_exec_counts_of : ExecutionStore → Dict ℕ
step_exec_counts_of s = s.step_exec_counts

pub count_of : ExecutionStore → ℕ
count_of s = s.count
