-- ===== src/Trigger/Matching.antt =====
-- internal/trigger/trigger.go: which route serves a request.
use tailflow_agent.Prelude.{
  String, ◌≡◌, refl, ap, ◌∙◌, ◌⊎◌, inl, inr, true, false, none, some, List, [], ◌∷◌, ◌++◌, All,
  arith, ◌==◌, eq_iff, Bool-cases,
}
use tailflow_agent.Trigger.{Route, serves, match_route}

-- A route serves a request of its path, of any method if it is a webhook and else of its own.
pub record Serves (method path : String) (r : Route) : Type 0 where
  pub same_path : r.path ≡ path
  pub served : (r.trigger_type ≡ "webhook") ⊎ (r.method ≡ method)

serves-Serves :
    (method path : String) (r : Route) → serves method path r ≡ true → Serves method path r
serves-Serves method path r h = record {
  same_path = ground (arith, h, eq_iff r.path path);
  served = elim (Bool-cases (r.trigger_type == "webhook")) [
    | inl hook ↦ inl ((eq_iff r.trigger_type "webhook").0 hook)
    | inr other ↦ inr (ground (arith, h, other, eq_iff r.method method))
  ];
}

Serves-serves :
    (method path : String) (r : Route) → Serves method path r → serves method path r ≡ true
Serves-serves method path r h = elim h.served [
  | inl hook ↦
      ground (arith, (eq_iff r.path path).1 h.same_path, (eq_iff r.trigger_type "webhook").1 hook)
  | inr own ↦ ground (arith, (eq_iff r.path path).1 h.same_path, (eq_iff r.method method).1 own)
]

not-Serves :
    (method path : String) (r : Route) → serves method path r ≡ false → ¬ Serves method path r
not-Serves method path r h here = absurd (cc (h, Serves-serves method path r here))

-- A route that serves the request, with none that does before it.
pub record First (method path : String) (routes : List Route) (r : Route) : Type 0 where
  pub before : List Route
  pub behind : List Route
  pub split : routes ≡ before ++ r ∷ behind
  pub earlier : All (λ q. ¬ Serves method path q) before
  pub here : Serves method path r

-- `MatchRoute` returns the first of the routes that have the path of the request and are a webhook or
-- have its method, and an error exactly if there is none.
pub match_route-First :
    (routes : List Route) (method path : String)
    → ((match_route routes method path ≡ none) × All (λ q. ¬ Serves method path q) routes)
      ⊎ ((r : Route) × (match_route routes method path ≡ some r) × First method path routes r)
unfolding match_route
match_route-First [] method path = inl (refl, tt)
match_route-First (r ∷ rs) method path = elim (Bool-cases (serves method path r)) [
  | inl serving ↦ inr (
    r,
    ap (λ b. elim b [ true ↦ some r | false ↦ match_route rs method path ]) serving,
    record {
      before = [];
      behind = rs;
      split = refl;
      earlier = tt;
      here = serves-Serves method path r serving;
    },
  )
  | inr passing ↦
      let skips = ap (λ b. elim b [ true ↦ some r | false ↦ match_route rs method path ]) passing in
      let other = not-Serves method path r passing in
      elim (match_route-First rs method path) [
        | inl (gone, all) ↦ inl (skips ∙ gone, (other, all))
        | inr (q, found, first) ↦ inr (
          q,
          skips ∙ found,
          record {
            before = r ∷ first.before;
            behind = first.behind;
            split = ap (λ qs. r ∷ qs) first.split;
            earlier = (other, first.earlier);
            here = first.here;
          },
        )
      ]
]
