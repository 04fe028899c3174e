-- ===== src/Engine/Workflow/Params.antt =====
-- internal/engine/engine_result.go, resolveParams: what the resolved parameters hold.
use tailflow_agent.Prelude.{
  String, ◌≡◌, refl, sym, ◌∙◌, ap, ◌⊎◌, inl, inr, true, false, not, ◌||◌, Option, none, some, List,
  [], ◌∷◌, if◌then◌else◌, ◌==◌, eq_iff, All, All-map, All-zip, contains, map, arith, Bool-cases,
  Option-cases,
}
use tailflow_agent.Prelude.Dict.{Dict, lookup, insert, is_some, lookup-insert}
use tailflow_agent.Value.{Value}
use tailflow_agent.Parser.Schema.{Param}
use tailflow_agent.Engine.Workflow.{
  Environment, given_or_default, template_value, evaluate_defaults, has_pattern, check_patterns,
  pass_on, resolve_params,
}

abbrev names : List Param → List String
names ps = map (λ p. p.name) ps

pass_on-lookup :
    (k : String) (params r : Dict Value)
    → lookup k (pass_on params r) ≡ (if is_some (lookup k r) then lookup k r else lookup k params)
unfolding pass_on lookup
pass_on-lookup k [] r = ground arith
pass_on-lookup k ((j, v) ∷ params) r = elim (Bool-cases (is_some (lookup j r))) [
  | inl there ↦ rw there (ground (arith, pass_on-lookup k params r, eq_iff j k))
  | inr new ↦
      rw new
        (ground (arith, pass_on-lookup k params (insert j v r), eq_iff j k, lookup-insert j k v r))
]

-- One round of `evaluate_defaults`.
abbrev round : Environment → Dict Value → Param → Dict Value → Dict Value
round env params p r =
    if not (is_some p.default) || is_some (lookup p.name params)
    then r
    else elim (template_value env (lookup p.name r) r) [ none ↦ r | some v ↦ insert p.name v r ]

template_value-none : (env : Environment) (r : Dict Value) → template_value env none r ≡ none
template_value-none env r = refl

-- A round that writes a parameter finds it there and not given.
round-writes :
    (env : Environment) (params : Dict Value) (p : Param) (r : Dict Value) (k : String)
    → (lookup k (round env params p r) ≡ lookup k r)
      ⊎ ((p.name == k) ≡ true)
        × (is_some (lookup k params) ≡ false)
        × (is_some (lookup k r) ≡ true)
        × (is_some (lookup k (round env params p r)) ≡ true)
round-writes env params p r k =
    elim (Bool-cases (not (is_some p.default) || is_some (lookup p.name params))) [
      | inl keep ↦ inl (rw keep refl)
      | inr set ↦ elim (Option-cases (template_value env (lookup p.name r) r)) [
        | inl plain ↦ inl (rw (set, plain) refl)
        | inr (v, new) ↦ elim (Option-cases (lookup p.name r)) [
          | inl absent ↦ absurd (cc (new, ap (λ o. template_value env o r) absent))
          | inr (old, there) ↦
              rw (set, new) (rw (lookup-insert p.name k v r) (ground (arith, eq_iff p.name k)))
        ]
      ]
    ]

evaluate_defaults-given :
    (env : Environment) (ps : List Param) (params r : Dict Value) (k : String)
    → is_some (lookup k params) ≡ true
    → lookup k (evaluate_defaults env ps params r) ≡ lookup k r
unfolding evaluate_defaults
evaluate_defaults-given env [] params r k h = refl
evaluate_defaults-given env (p ∷ ps) params r k h =
    evaluate_defaults-given env ps params (round env params p r) k h
    ∙ elim (round-writes env params p r k) [ inl same ↦ same | inr w ↦ absurd (cc (h, w.1)) ]

evaluate_defaults-keys :
    (env : Environment) (ps : List Param) (params r : Dict Value) (k : String)
    → is_some (lookup k (evaluate_defaults env ps params r)) ≡ is_some (lookup k r)
unfolding evaluate_defaults
evaluate_defaults-keys env [] params r k = refl
evaluate_defaults-keys env (p ∷ ps) params r k =
    evaluate_defaults-keys env ps params (round env params p r) k
    ∙ elim (round-writes env params p r k) [ inl same ↦ ap is_some same | inr w ↦ w.3 ∙ sym w.2 ]

-- One round of the first loop, which found a value for `p` or did not need one.
record Round (p : Param) (params acc acc' : Dict Value) : Type 0 where
  others : (k : String) → (p.name == k) ≡ false → lookup k acc' ≡ lookup k acc
  grows : (k : String) → is_some (lookup k acc) ≡ true → is_some (lookup k acc') ≡ true
  has : p.required ≡ true → is_some (lookup p.name acc') ≡ true
  given : (v : Value) → lookup p.name params ≡ some v → lookup p.name acc' ≡ some v

insert-Round :
    (p : Param) (params acc : Dict Value) (w : Value)
    → ((v : Value) → lookup p.name params ≡ some v → w ≡ v)
    → Round p params acc (insert p.name w acc)
insert-Round p params acc w same = record {
  others = λ k off. rw (lookup-insert p.name k w acc, off) refl;
  grows = λ k h. ground (arith, lookup-insert p.name k w acc);
  has = λ h. ground (arith, lookup-insert p.name p.name w acc, eq_iff p.name p.name);
  given = λ v h. ground (arith, lookup-insert p.name p.name w acc, eq_iff p.name p.name, same v h);
}

given_or_default-Round :
    (p : Param) (ps : List Param) (params acc : Dict Value) {r : Dict Value}
    → given_or_default (p ∷ ps) params acc ≡ some r
    → (acc' : Dict Value) × (given_or_default ps params acc' ≡ some r) × Round p params acc acc'
unfolding given_or_default
given_or_default-Round p ps params acc h = elim (Option-cases (lookup p.name params)) [
  | inr (w, e) ↦ (
    insert p.name w acc,
    rw (e, given_or_default) at h,
    insert-Round p params acc w (λ v g. cc (e, g)),
  )
  | inl off ↦ elim (Option-cases (p.default)) [
    | inr (w, e) ↦ (
      insert p.name w acc,
      rw (off, e, given_or_default) at h,
      insert-Round p params acc w (λ v g. cc (off, g)),
    )
    | inl e ↦ elim (Bool-cases (p.required)) [
      | inl needed ↦ absurd (cc (rw (off, e, needed, given_or_default) at h))
      | inr free ↦ (
        acc,
        rw (off, e, free, given_or_default) at h,
        record {
          others = λ k o. refl;
          grows = λ k g. g;
          has = λ needed. cc (free, needed);
          given = λ v g. cc (off, g);
        },
      )
    ]
  ]
]

-- What the first loop leaves.
record First (ps : List Param) (params acc r : Dict Value) : Type 0 where
  grows : (k : String) → is_some (lookup k acc) ≡ true → is_some (lookup k r) ≡ true
  given :
      (k : String) (v : Value)
      → lookup k params ≡ some v
      → (lookup k acc ≡ none) ⊎ (lookup k acc ≡ some v)
      → (lookup k r ≡ none) ⊎ (lookup k r ≡ some v)
  required : All (λ p. p.required ≡ true → is_some (lookup p.name r) ≡ true) ps
  declared : All (λ p. is_some (lookup p.name params) ≡ true → is_some (lookup p.name r) ≡ true) ps
  undeclared : (k : String) → contains k (names ps) ≡ false → lookup k r ≡ lookup k acc

given_or_default-First :
    (ps : List Param) (params acc r : Dict Value)
    → given_or_default ps params acc ≡ some r
    → First ps params acc r
unfolding given_or_default
given_or_default-First [] params acc r h =
    let same : acc ≡ r = cc h in
    rw (← same) (record {
      grows = λ k g. g;
      given = λ k v g f. f;
      required = tt;
      declared = tt;
      undeclared = λ k o. refl;
    })
given_or_default-First (p ∷ ps) params acc r h =
    let (acc', rest, round) = given_or_default-Round p ps params acc h in
    let later = given_or_default-First ps params acc' r rest in
    record {
      grows = λ k g. later.grows k (round.grows k g);
      given = λ k v g f. later.given k v g (elim (Bool-cases (p.name == k)) [
        | inl at ↦
            let same = (eq_iff p.name k).0 at in
            inr (
              cc (
                round.given v (cc (g, ap (λ n. lookup n params) same)),
                ap (λ n. lookup n acc') same,
              ))
        | inr off ↦ rw (round.others k off) f
      ]);
      required = (λ needed. later.grows p.name (round.has needed), later.required);
      declared = (
        λ g. later.grows p.name (elim (Option-cases (lookup p.name params)) [
          | inl e ↦ absurd (cc (g, e))
          | inr (v, e) ↦ ap is_some (round.given v e)
        ]),
        later.declared,
      );
      undeclared = λ k o. later.undeclared k (ground arith) ∙ round.others k (ground arith);
    }

check_patterns-All :
    (env : Environment) (ps : List Param) (r : Dict Value)
    → check_patterns env ps r ≡ true
    → All (λ p. has_pattern env p (lookup p.name r) ≡ true) ps
unfolding check_patterns
check_patterns-All env [] r h = tt
check_patterns-All env (p ∷ ps) r h = (ground arith, check_patterns-All env ps r (ground arith))

-- The resolved parameters of the declarations `ps` and the given ones.
pub record IsResolved (env : Environment) (ps : List Param) (params r : Dict Value) : Type 0 where
  pub given : (k : String) (v : Value) → lookup k params ≡ some v → lookup k r ≡ some v
  pub required : All (λ p. p.required ≡ true → is_some (lookup p.name r) ≡ true) ps
  pub undeclared :
      (k : String) → contains k (names ps) ≡ false → lookup k params ≡ none → lookup k r ≡ none
  pub patterns : All (λ p. has_pattern env p (lookup p.name r) ≡ true) ps

-- A value that the loops before `pass_on` leave at a key stays; one that is missing is the given one.
pass_on-present :
    (k : String) (params r : Dict Value)
    → is_some (lookup k r) ≡ true
    → lookup k (pass_on params r) ≡ lookup k r
pass_on-present k params r h = ground (arith, pass_on-lookup k params r)

pass_on-absent :
    (k : String) (params r : Dict Value)
    → lookup k r ≡ none
    → lookup k (pass_on params r) ≡ lookup k params
pass_on-absent k params r h = ground (arith, pass_on-lookup k params r)

is_some-none : (o : Option Value) → is_some o ≡ false → o ≡ none
is_some-none none h = refl
is_some-none (some v) h = cc

module _ (env : Environment) (ps : List Param) (params first : Dict Value)
    (from : First ps params [] first) where
  abbrev final : Dict Value
  final = evaluate_defaults env ps params first

  final-given :
      (k : String) (v : Value) → lookup k params ≡ some v → lookup k (pass_on params final) ≡ some v
  unfolding lookup
  final-given k v g =
      let kept = evaluate_defaults-given env ps params first k (ap is_some g) in
      elim (from.given k v g (inl refl)) [
        | inl absent ↦ pass_on-absent k params final (kept ∙ absent) ∙ g
        | inr there ↦ pass_on-present k params final (ap is_some (kept ∙ there)) ∙ kept ∙ there
      ]

  final-present :
      (k : String)
      → is_some (lookup k first) ≡ true
      → is_some (lookup k (pass_on params final)) ≡ true
  final-present k h =
      let there = evaluate_defaults-keys env ps params first k ∙ h in
      ap is_some (pass_on-present k params final there) ∙ there

  final-undeclared :
      (k : String)
      → contains k (names ps) ≡ false
      → lookup k params ≡ none
      → lookup k (pass_on params final) ≡ none
  unfolding lookup
  final-undeclared k off g =
      let gone =
        evaluate_defaults-keys env ps params first k ∙ ap is_some (from.undeclared k off) in
      pass_on-absent k params final (is_some-none _ gone) ∙ g

  final-pattern :
      (p : Param)
      → (is_some (lookup p.name params) ≡ true → is_some (lookup p.name first) ≡ true)
        × (has_pattern env p (lookup p.name final) ≡ true)
      → has_pattern env p (lookup p.name (pass_on params final)) ≡ true
  final-pattern p (declared, fits) = elim (Bool-cases (is_some (lookup p.name first))) [
    | inl there ↦
        ap (has_pattern env p) (
          pass_on-present p.name params final
            (evaluate_defaults-keys env ps params first p.name ∙ there))
        ∙ fits
    | inr absent ↦
        let gone = is_some-none _ (evaluate_defaults-keys env ps params first p.name ∙ absent) in
        elim (Option-cases (lookup p.name params)) [
          | inl e ↦ ap (has_pattern env p) (pass_on-absent p.name params final gone ∙ e)
          | inr (v, e) ↦ absurd (cc (declared (ap is_some e), absent))
        ]
  ]

-- Where `resolveParams` succeeds, every given parameter has its given value, every required one has a
-- value, every declared one has its pattern, and nothing else is there.
pub resolve_params-IsResolved :
    (env : Environment) (ps : List Param) (params r : Dict Value)
    → resolve_params env ps params ≡ some r
    → IsResolved env ps params r
unfolding resolve_params
resolve_params-IsResolved env ps params r h = elim (Option-cases (given_or_default ps params [])) [
  | inl e ↦ absurd (cc (rw (e, resolve_params) at h))
  | inr (first, e) ↦
      elim (Bool-cases (check_patterns env ps (evaluate_defaults env ps params first))) [
        | inr bad ↦ absurd (cc (rw (e, bad, resolve_params) at h))
        | inl good ↦
            let from = given_or_default-First ps params [] first e in
            let same : pass_on params (evaluate_defaults env ps params first) ≡ r =
              cc (rw (e, good, resolve_params) at h) in
            rw (← same) (record {
              given = final-given env ps params first from;
              required =
                  All-map ps
                    (λ p g needed. final-present env ps params first from p.name (g needed))
                    from.required;
              undeclared = final-undeclared env ps params first from;
              patterns =
                  All-map ps (final-pattern env ps params first from)
                    (All-zip _ _ ps from.declared (check_patterns-All env ps _ good));
            })
      ]
]
