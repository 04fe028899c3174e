-- ===== src/Event/Bus.antt =====
-- internal/event/bus.go: the bus, as steps of any number of publishers, subscribers and readers in any
-- interleaving. A channel is a number; its sends and receives are atomic. `Subscribe`, `Unsubscribe` and
-- `Close` hold the write lock, so that they are one step and wait until no publisher holds the read lock.
pub mod Channels
pub mod Open
pub mod Samples
use tailflow_agent.Prelude.{
  ℕ, zero, suc, ◌+◌, ◌%◌, ◌≡◌, Bool, true, false, not, ◌&&◌, ◌||◌, Option, none, some, List, [],
  ◌∷◌, ◌++◌, length, get_elem?, set, if◌then◌else◌, ltb, eqb,
}
use tailflow_agent.Event.{Event}

pub record Channel : Type 0 where
  pub capacity : ℕ
  pub queue : List Event
  pub closed : Bool

pub record Subscription : Type 0 where
  pub ch : ℕ
  pub lossy : Bool

-- A call of `Publish` that holds the read lock, with the subscribers that it has still to reach.
pub record Publisher : Type 0 where
  pub event : Event
  pub rest : List Subscription

-- `panicked` says that a closed channel was closed or sent to, where Go panics; `numbered` are the
-- events of the calls of `Publish` that have their number and wait for the read lock.
pub record Bus : Type 0 where
  pub channels : List Channel
  pub subscribers : List Subscription
  pub closed : Bool
  pub seq : ℕ
  pub dropped : ℕ
  pub numbered : List Event
  pub publishers : List Publisher
  pub panicked : Bool

abbrev pub new_bus : Bus
new_bus = record {
  channels = [];
  subscribers = [];
  closed = false;
  seq = 0;
  dropped = 0;
  numbered = [];
  publishers = [];
  panicked = false;
}

-- `subscribe`; the channel's number is the next one.
unfoldable pub subscribe : ℕ → Bool → Bus → Bus
subscribe buf_size lossy b = record b {
  channels = b.channels ++ record { capacity = buf_size; queue = []; closed = false } ∷ [];
  subscribers = b.subscribers ++ record { ch = length b.channels; lossy = lossy } ∷ [];
}

-- `close(ch)`
unfoldable pub close_channel : ℕ → Bus → Bus
close_channel i b = elim (get_elem? b.channels i) [
  | none ↦ b
  | some c ↦
      if c.closed
      then record b { panicked = true }
      else record b { channels = set b.channels i (record c { closed = true }) }
]

abbrev pub remove_channel : ℕ → List Subscription → List Subscription
remove_channel i [] = []
remove_channel i (s ∷ ss) = let rest = remove_channel i ss in if eqb s.ch i then ss else s ∷ rest

abbrev pub has_channel : ℕ → List Subscription → Bool
has_channel i [] = false
has_channel i (s ∷ ss) = eqb s.ch i || has_channel i ss

unfoldable pub unsubscribe : ℕ → Bus → Bus
unfolding close_channel
unsubscribe i b =
    if has_channel i b.subscribers
    then close_channel i (record b { subscribers = remove_channel i b.subscribers })
    else b

unfoldable pub close_channels : List Subscription → Bus → Bus
unfolding close_channel
close_channels [] b = b
close_channels (s ∷ ss) b = close_channels ss (close_channel s.ch b)

unfoldable pub close_bus : Bus → Bus
unfolding close_channels
close_bus b =
    if b.closed
    then b
    else let done = close_channels b.subscribers (record b { closed = true }) in
      record done { subscribers = [] }

-- `e.Seq = b.seq.Add(1)`, a `uint64`
abbrev pub next_seq : ℕ → ℕ
next_seq n = (n + 1) % 18446744073709551616

-- One round of the loop of `Publish`: `none` where a blocking subscriber has no room and it waits.
unfoldable pub send : Event → Subscription → Bus → Option Bus
send e s b = elim (get_elem? b.channels s.ch) [
  | none ↦ none
  | some c ↦
      if c.closed
      then some (record b { panicked = true })
      else if ltb (length c.queue) c.capacity
      then some
          (record b { channels = set b.channels s.ch (record c { queue = c.queue ++ e ∷ [] }) })
      else if s.lossy
      then some (record b { dropped = next_seq b.dropped })
      else none
]

-- A channel without a buffer, or one that is empty, may hand an event to a waiting reader at once, which
-- changes nothing else here.
pub data Step : Bus → Bus → Type 0 where
  subscribes :
      (b : Bus) (buf_size : ℕ) (lossy : Bool)
      → b.publishers ≡ []
      → Step b (subscribe buf_size lossy b)
  unsubscribes : (b : Bus) (i : ℕ) → b.publishers ≡ [] → Step b (unsubscribe i b)
  closes : (b : Bus) → b.publishers ≡ [] → Step b (close_bus b)
  numbers :
      (b : Bus) (e : Event)
      → Step b (record b {
        seq = next_seq b.seq;
        numbered = record e { seq = next_seq b.seq } ∷ b.numbered;
      })
  -- The read lock: a closed bus returns.
  returns :
      (b : Bus) (before after : List Event) (e : Event)
      → b.numbered ≡ before ++ e ∷ after
      → b.closed ≡ true
      → Step b (record b { numbered = before ++ after })
  begins :
      (b : Bus) (before after : List Event) (e : Event)
      → b.numbered ≡ before ++ e ∷ after
      → b.closed ≡ false
      → Step b (record b {
        numbered = before ++ after;
        publishers = record { event = e; rest = b.subscribers } ∷ b.publishers;
      })
  sends :
      (b b' : Bus) (before after : List Publisher) (e : Event) (s : Subscription)
      (rest : List Subscription)
      → b.publishers ≡ before ++ record { event = e; rest = s ∷ rest } ∷ after
      → send e s b ≡ some b'
      → Step b (record b' { publishers = before ++ record { event = e; rest = rest } ∷ after })
  hands_over :
      (b : Bus) (before after : List Publisher) (e : Event) (s : Subscription)
      (rest : List Subscription) (c : Channel)
      → b.publishers ≡ before ++ record { event = e; rest = s ∷ rest } ∷ after
      → get_elem? b.channels s.ch ≡ some c
      → c.closed ≡ false
      → c.queue ≡ []
      → Step b (record b { publishers = before ++ record { event = e; rest = rest } ∷ after })
  ends :
      (b : Bus) (before after : List Publisher) (e : Event)
      → b.publishers ≡ before ++ record { event = e; rest = [] } ∷ after
      → Step b (record b { publishers = before ++ after })
  receives :
      (b : Bus) (i : ℕ) (c : Channel) (e : Event) (rest : List Event)
      → get_elem? b.channels i ≡ some c
      → c.queue ≡ e ∷ rest
      → Step b (record b { channels = set b.channels i (record c { queue = rest }) })

pub data Reach : Bus → Type 0 where
  start : Reach new_bus
  after : (b b' : Bus) → Reach b → Step b b' → Reach b'
