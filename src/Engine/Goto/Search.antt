-- ===== src/Engine/Goto/Search.antt =====
-- internal/engine/goto.go, FindLoopBody: the searches end, and find what can be reached.
use tailflow_agent.Prelude.{
  ℕ, zero, suc, ◌+◌, ◌≤◌, String, ◌≡◌, refl, sym, ◌↔◌, inl, inr, true, ◌&&◌, ◌||◌, some, List, [],
  ◌∷◌, ◌++◌, arith, length, contains, count, contains_iff, count-append, contains-append,
  length-append, if◌then◌else◌, eq_iff, Bool-cases, ap, ◌∙◌, append_assoc, append-nil, subst,
}
use tailflow_agent.Prelude.Dict.{is_some, lookup, keys, contains-keys}
use tailflow_agent.Engine.Dag.{Dag, children, parents}
use tailflow_agent.Engine.Dag.Counting.{CountLe, length_le_of_CountLe, count_of_IsNodup}
use tailflow_agent.Engine.Dag.Order.{IsGraph, nodes-length}
use tailflow_agent.Engine.Goto.{offer, search, reachable, intersection, find_loop_body}

-- The ids that a walk from `start` reaches.
pub data Walk (next : String → List String) (start : String) : String → Type 0 where
  here : Walk next start start
  further : {p c : String} → Walk next start p → contains c (next p) ≡ true → Walk next start c

-- What `offer` does: new ids go to the end of both lists, each once.
pub record Offered (cs seen queue seen' queue' : List String) : Type 0 where
  pub added : List String
  pub seen_more : seen' ≡ seen ++ added
  pub queue_more : queue' ≡ queue ++ added
  pub holds : (k : String) → contains k seen' ≡ (contains k seen || contains k cs)
  pub once :
      (k : String)
      → count k seen'
        ≡ count k seen + (if contains k seen then 0 else if contains k cs then 1 else 0)

offer-Offered :
    (cs seen queue : List String)
    → Offered cs seen queue (offer cs seen queue).0 (offer cs seen queue).1
unfolding offer
offer-Offered [] seen queue = record {
  added = [];
  seen_more = sym (append-nil seen);
  queue_more = sym (append-nil queue);
  holds = λ k. ground arith;
  once = λ k. ground arith;
}
offer-Offered (c ∷ cs) seen queue = elim (Bool-cases (contains c seen)) [
  | inl old ↦
      let r = offer-Offered cs seen queue in
      rw (old, offer)
        (record {
          added = r.added;
          seen_more = r.seen_more;
          queue_more = r.queue_more;
          holds = λ k. ground (arith, r.holds k, eq_iff c k);
          once = λ k. ground (arith, r.once k, eq_iff c k);
        })
  | inr new ↦
      let r = offer-Offered cs (seen ++ c ∷ []) (queue ++ c ∷ []) in
      rw (new, offer)
        (record {
          added = c ∷ r.added;
          seen_more = r.seen_more ∙ append_assoc seen (c ∷ []) r.added;
          queue_more = r.queue_more ∙ append_assoc queue (c ∷ []) r.added;
          holds = λ k. ground (arith, r.holds k, contains-append k seen (c ∷ []));
          once = λ k. ground (
            arith,
            r.once k,
            contains-append k seen (c ∷ []),
            count-append k seen (c ∷ []),
            eq_iff c k,
          );
        })
]

module _ (next : String → List String) (start : String) (universe : List String) where
  -- `done` are the ids whose neighbours have been offered.
  pub record Inv (done seen queue : List String) : Type 0 where
    pub split : seen ≡ done ++ queue
    pub within : CountLe seen universe
    pub started : contains start seen ≡ true
    pub sound : (k : String) → contains k seen ≡ true → Walk next start k
    pub closed :
        (p c : String)
        → contains p done ≡ true
        → contains c (next p) ≡ true
        → contains c seen ≡ true

  -- With an empty queue, what is seen is closed under the neighbours.
  complete :
      (done seen : List String)
      → Inv done seen []
      → {k : String} → Walk next start k
      → contains k seen ≡ true
  complete done seen inv here = inv.started
  complete done seen inv (further {p} {c} w e) =
      inv.closed p c
        (ap (contains p) (sym (append-nil done) ∙ sym inv.split) ∙ complete done seen inv w) e

  module _
      (inside : (p c : String)
        → contains p universe ≡ true
        → contains c (next p) ≡ true
        → contains c universe ≡ true)
      (one : (k : String) → count k universe ≡ (if contains k universe then 1 else 0)) where
    Inv-step :
        (id : String) (done seen queue : List String)
        → Inv done seen (id ∷ queue)
        → Inv (done ++ id ∷ []) (offer (next id) seen queue).0 (offer (next id) seen queue).1
    Inv-step id done seen queue inv =
        let r = offer-Offered (next id) seen queue in
        let here_seen : contains id seen ≡ true =
          ap (contains id) inv.split
          ∙ contains-append id done (id ∷ queue)
          ∙ ground (arith, eq_iff id id) in
        let here_in : contains id universe ≡ true =
          (contains_iff id universe).1
            (omega (arith, inv.within id, (contains_iff id seen).0 here_seen)) in
        record {
          split = cc (
            r.seen_more,
            inv.split,
            r.queue_more,
            append_assoc done (id ∷ queue) r.added,
            append_assoc done (id ∷ []) (offer (next id) seen queue).1,
          );
          within =
              λ k. ground (arith, r.once k, inv.within k, one k, contains_iff k seen, inside id k);
          started = ground (arith, r.holds start, inv.started);
          sound = λ k h. elim (Bool-cases (contains k seen)) [
            | inl old ↦ inv.sound k old
            | inr new ↦ further (inv.sound id here_seen) (ground (arith, r.holds k))
          ];
          closed = λ p c h e. elim (Bool-cases (contains p done)) [
            | inl old ↦ ground (arith, r.holds c, inv.closed p c old e)
            | inr new ↦
                let same : id ≡ p = ground (arith, contains-append p done (id ∷ []), eq_iff id p) in
                ground (arith, r.holds c, subst (λ q. contains c (next q) ≡ true) (sym same) e)
          ];
        }

    -- The search ends within its fuel and keeps the invariant.
    search_returns :
        (fuel : ℕ) (done seen queue : List String)
        → Inv done seen queue
        → length universe ≤ length done + fuel
        → (found : List String) × (search fuel next seen queue ≡ some found)
          × ((k : String) → (contains k found ≡ true) ↔ Walk next start k)
    unfolding search
    search_returns fuel done seen [] inv h =
        (seen, refl, λ k. (inv.sound k, complete done seen inv))
    search_returns zero done seen (id ∷ queue) inv h = absurd (
        omega (
          arith,
          length_le_of_CountLe seen universe inv.within,
          ap length inv.split,
          length-append done (id ∷ queue),
        ))
    search_returns (suc fuel) done seen (id ∷ queue) inv h =
        search_returns fuel (done ++ id ∷ []) (offer (next id) seen queue).0
          (offer (next id) seen queue).1 (Inv-step id done seen queue inv)
          (omega (arith, length-append done (id ∷ [])))

module _ (d : Dag) (g : IsGraph d) where
  abbrev Closed : (String → List String) → Type 0
  Closed next =
      (p c : String)
      → contains p (keys d.nodes) ≡ true
      → contains c (next p) ≡ true
      → contains c (keys d.nodes) ≡ true

  children-Closed : Closed (children d)
  children-Closed p c h e =
      contains-keys c d.nodes ∙ ground (arith, g.symmetric p c, contains_iff c (children d p))

  parents-Closed : Closed (parents d)
  parents-Closed p c h e =
      contains-keys c d.nodes ∙ ground (arith, g.symmetric c p, contains_iff c (parents d p))

  -- A search from a node ends with the ids that a walk reaches.
  reachable_correct :
      (next : String → List String) (start : String)
      → Closed next
      → is_some (lookup start d.nodes) ≡ true
      → (found : List String) × (reachable d next start ≡ some found)
        × ((k : String) → (contains k found ≡ true) ↔ Walk next start k)
  unfolding reachable
  reachable_correct next start inside node =
      search_returns next start (keys d.nodes) inside (count_of_IsNodup (keys d.nodes) g.distinct)
        (length d.nodes) [] (start ∷ []) (start ∷ [])
        (record {
          split = refl;
          within = λ k. ground (
            arith,
            eq_iff start k,
            count_of_IsNodup (keys d.nodes) g.distinct k,
            contains-keys k d.nodes,
          );
          started = ground (arith, eq_iff start start);
          sound = λ k h. subst (Walk next start) (ground (arith, eq_iff start k)) here;
          closed = λ p c h e. absurd (cc h);
        })
        (omega (arith, nodes-length d))

contains-intersection :
    (xs ys : List String) (k : String)
    → contains k (intersection xs ys) ≡ (contains k xs && contains k ys)
unfolding intersection
contains-intersection [] ys k = refl
contains-intersection (x ∷ xs) ys k = ground (arith, contains-intersection xs ys k, eq_iff x k)

-- If children and parents list the same edges, no id names two nodes, and the target and the goto
-- are nodes, `FindLoopBody` returns, and an id is in the body exactly if a walk along children
-- leads from the target to it and a walk along parents leads from the goto to it.
pub find_loop_body_correct :
    (d : Dag) (target goto : String)
    → IsGraph d
    → is_some (lookup target d.nodes) ≡ true
    → is_some (lookup goto d.nodes) ≡ true
    → (body : List String) × (find_loop_body d target goto ≡ some body)
      × ((k : String)
          → (contains k body ≡ true) ↔ (Walk (children d) target k × Walk (parents d) goto k))
unfolding find_loop_body
find_loop_body_correct d target goto g at_target at_goto =
    let (forward, f, down) =
      reachable_correct d g (children d) target (children-Closed d g) at_target in
    let (backward, b, up) = reachable_correct d g (parents d) goto (parents-Closed d g) at_goto in
    (
      intersection forward backward,
      rw (f, b) refl,
      λ k. (
        λ h. (
          (down k).0 (ground (arith, contains-intersection forward backward k)),
          (up k).0 (ground (arith, contains-intersection forward backward k)),
        ),
        λ (w, v).
            let in_forward = (down k).1 w in
            let in_backward = (up k).1 v in
            ground (arith, contains-intersection forward backward k, in_forward, in_backward),
      ),
    )
