-- ===== src/Event/Bus/Open.antt =====
-- internal/event/bus.go: in no interleaving is a closed channel sent to or closed.
use tailflow_agent.Prelude.{
  ℕ, ◌≡◌, refl, ◌∙◌, inl, inr, Bool, true, false, some, List, [], ◌∷◌, ◌++◌, length, get_elem?, set,
  if◌then◌else◌, ltb, All, Bool-cases, Option-cases,
}
use tailflow_agent.Event.{Event}
use tailflow_agent.Event.Bus.{
  Subscription, Bus, subscribe, close_channel, remove_channel, has_channel, unsubscribe,
  close_channels, close_bus, next_seq, send, Step, Reach,
}
use tailflow_agent.Event.Bus.Channels.{
  is_open, open_there, open-append, open_last, open-set_same, AllOpen, Distinct, AllOpen-kept,
  All-kept, All-split, nobody, fresh_channel, Distinct-append, All-last, AllOpen-close, removed,
}

-- Nothing has panicked, the channels of the subscribers and those that a publisher has still to reach
-- are open, and no two subscribers share one.
pub record IsSound (b : Bus) : Type 0 where
  pub calm : b.panicked ≡ false
  pub opened : AllOpen b.channels b.subscribers
  pub distinct : Distinct b.subscribers
  pub reaching : All (λ p. AllOpen b.channels p.rest) b.publishers

-- Closing the channel of a subscription that was taken out.
close_channel-IsSound :
    (i : ℕ) (b : Bus)
    → b.panicked ≡ false
    → is_open b.channels i ≡ true
    → (close_channel i b).panicked ≡ false
unfolding close_channel
close_channel-IsSound i b calm o =
    let (c, there, up) = open_there b.channels i o in rw (there, up, close_channel) calm

close_channel-others :
    (i : ℕ) (b : Bus) (ss : List Subscription)
    → has_channel i ss ≡ false
    → AllOpen b.channels ss
    → AllOpen (close_channel i b).channels ss
unfolding close_channel
close_channel-others i b ss h o = elim (Option-cases (get_elem? b.channels i)) [
  | inl e ↦ rw (e, close_channel) o
  | inr (c, e) ↦ elim (Bool-cases (c.closed)) [
    | inl shut ↦ rw (e, shut, close_channel) o
    | inr up ↦ rw (e, up, close_channel) (AllOpen-close b.channels i _ ss h o)
  ]
]

-- What closing leaves alone.
close_channel-rest :
    (i : ℕ) (b : Bus)
    → ((close_channel i b).subscribers ≡ b.subscribers)
      × ((close_channel i b).publishers ≡ b.publishers)
unfolding close_channel
close_channel-rest i b = elim (Option-cases (get_elem? b.channels i)) [
  | inl e ↦ rw (e, close_channel) (refl, refl)
  | inr (c, e) ↦ elim (Bool-cases (c.closed)) [
    | inl shut ↦ rw (e, shut, close_channel) (refl, refl)
    | inr up ↦ rw (e, up, close_channel) (refl, refl)
  ]
]

close_channels-calm :
    (ss : List Subscription) (b : Bus)
    → b.panicked ≡ false
    → AllOpen b.channels ss
    → Distinct ss
    → ((close_channels ss b).panicked ≡ false) × ((close_channels ss b).publishers ≡ b.publishers)
unfolding close_channels
close_channels-calm [] b calm o d = (calm, refl)
close_channels-calm (s ∷ ss) b calm o d =
    let ih =
      close_channels-calm ss (close_channel s.ch b) (close_channel-IsSound s.ch b calm o.0)
        (close_channel-others s.ch b ss d.0 o.1) d.1 in
    (ih.0, ih.1 ∙ (close_channel-rest s.ch b).1)

subscribe-IsSound :
    (b : Bus) (n : ℕ) (lossy : Bool) → b.publishers ≡ [] → IsSound b → IsSound (subscribe n lossy b)
unfolding subscribe
subscribe-IsSound b n lossy quiet v = record {
  calm = v.calm;
  opened =
      All-last _ b.subscribers _
        (AllOpen-kept b.channels _ b.subscribers (λ i h. open-append b.channels _ i h) v.opened)
        (open_last b.channels _ refl);
  distinct =
      Distinct-append b.subscribers _ v.distinct
        (fresh_channel b.channels b.subscribers _ v.opened refl);
  reaching = nobody _ b quiet;
}

unsubscribe-IsSound : (b : Bus) (i : ℕ) → b.publishers ≡ [] → IsSound b → IsSound (unsubscribe i b)
unfolding unsubscribe
unsubscribe-IsSound b i quiet v = elim (Bool-cases (has_channel i b.subscribers)) [
  | inr absent ↦ rw (absent, unsubscribe) v
  | inl there ↦
      let less = record b { subscribers = remove_channel i b.subscribers } in
      let (o, d, gone, keep, up) = removed b.channels i b.subscribers v.opened v.distinct in
      let (same, still) = close_channel-rest i less in
      rw (there, unsubscribe)
        (record {
          calm = close_channel-IsSound i less v.calm (up there);
          opened = rw same (close_channel-others i less (remove_channel i b.subscribers) gone o);
          distinct = rw same d;
          reaching = nobody _ (close_channel i less) (still ∙ quiet);
        })
]

either_IsSound : (t : Bool) {x y : Bus} → IsSound x → IsSound y → IsSound (if t then x else y)
either_IsSound true v w = v
either_IsSound false v w = w

close_bus-IsSound : (b : Bus) → b.publishers ≡ [] → IsSound b → IsSound (close_bus b)
unfolding close_bus
close_bus-IsSound b quiet v =
    let shut = record b { closed = true } in
    let (calm, still) = close_channels-calm b.subscribers shut v.calm v.opened v.distinct in
    either_IsSound b.closed v
      (record { calm = calm; opened = tt; distinct = tt; reaching = rw (still ∙ quiet) tt })

-- What a send to an open channel leaves.
record Sent (b b' : Bus) : Type 0 where
  calm : b'.panicked ≡ false
  keeps : (i : ℕ) → is_open b.channels i ≡ true → is_open b'.channels i ≡ true
  subscribers : b'.subscribers ≡ b.subscribers

send-Sent :
    (e : Event) (s : Subscription) (b b' : Bus)
    → b.panicked ≡ false
    → is_open b.channels s.ch ≡ true
    → send e s b ≡ some b'
    → Sent b b'
unfolding send
send-Sent e s b b' calm o h =
    let (c, there, up) = open_there b.channels s.ch o in
    elim (Bool-cases (ltb (length c.queue) c.capacity)) [
      | inl room ↦
          let same : record b {
            channels = set b.channels s.ch (record c { queue = c.queue ++ e ∷ [] });
          }
              ≡ b' =
            cc (rw (there, up, room, send) at h) in
          rw (← same) (record {
            calm = calm;
            keeps = λ i k. open-set_same b.channels s.ch i c _ there refl ∙ k;
            subscribers = refl;
          })
      | inr full ↦ elim (Bool-cases (s.lossy)) [
        | inr blocks ↦ absurd (cc (rw (there, up, full, blocks, send) at h))
        | inl drops ↦
            let same : record b { dropped = next_seq b.dropped } ≡ b' =
              cc (rw (there, up, full, drops, send) at h) in
            rw (← same) (record { calm = calm; keeps = λ i k. k; subscribers = refl })
      ]
    ]

step-IsSound : {b b' : Bus} → Step b b' → IsSound b → IsSound b'
step-IsSound (Step.subscribes b n lossy quiet) v = subscribe-IsSound b n lossy quiet v
step-IsSound (Step.unsubscribes b i quiet) v = unsubscribe-IsSound b i quiet v
step-IsSound (Step.closes b quiet) v = close_bus-IsSound b quiet v
step-IsSound (Step.numbers b e) v = record {
  calm = v.calm;
  opened = v.opened;
  distinct = v.distinct;
  reaching = v.reaching;
}
step-IsSound (Step.returns b before after e at ended) v = record {
  calm = v.calm;
  opened = v.opened;
  distinct = v.distinct;
  reaching = v.reaching;
}
step-IsSound (Step.begins b before after e at on) v = record {
  calm = v.calm;
  opened = v.opened;
  distinct = v.distinct;
  reaching = (v.opened, v.reaching);
}
step-IsSound (Step.sends b b' before after e s rest at sent) v =
    let (own, put, _) = All-split before after _ (rw at at v.reaching) in
    let w = send-Sent e s b b' v.calm own.0 sent in
    record {
      calm = w.calm;
      opened =
          rw w.subscribers (AllOpen-kept b.channels b'.channels b.subscribers w.keeps v.opened);
      distinct = rw w.subscribers v.distinct;
      reaching =
          All-kept b.channels b'.channels (before ++ record { event = e; rest = rest } ∷ after)
            w.keeps (put (record { event = e; rest = rest }) own.1);
    }
step-IsSound (Step.hands_over b before after e s rest c at there up empty) v =
    let (own, put, _) = All-split before after _ (rw at at v.reaching) in
    record {
      calm = v.calm;
      opened = v.opened;
      distinct = v.distinct;
      reaching = put (record { event = e; rest = rest }) own.1;
    }
step-IsSound (Step.ends b before after e at) v =
    let (own, put, gone) = All-split before after _ (rw at at v.reaching) in
    record { calm = v.calm; opened = v.opened; distinct = v.distinct; reaching = gone }
step-IsSound (Step.receives b i c e rest there at) v =
    let keeps = λ (j : ℕ) (k : is_open b.channels j ≡ true).
      open-set_same b.channels i j c _ there refl ∙ k in
    record {
      calm = v.calm;
      opened = AllOpen-kept b.channels _ b.subscribers keeps v.opened;
      distinct = v.distinct;
      reaching = All-kept b.channels _ b.publishers keeps v.reaching;
    }

-- In every state that the bus can reach, in any interleaving, no closed channel has been closed or sent
-- to, the channels of the subscribers and those that a publisher has still to reach are open, and no two
-- subscribers share one.
pub Reach-IsSound : (b : Bus) → Reach b → IsSound b
Reach-IsSound b Reach.start = record { calm = refl; opened = tt; distinct = tt; reaching = tt }
Reach-IsSound b (Reach.after a b' r s) = step-IsSound s (Reach-IsSound a r)
