-- ===== src/Parser/Validate/Steps.antt =====
-- internal/parser/parser.go, validateSteps: exactly what it accepts.
use tailflow_agent.Prelude.{
  ℕ, suc, String, ◌≡◌, ◌≢◌, refl, sym, ◌↔◌, ◌⊎◌, true, false, ◌||◌, List, [], ◌∷◌, ◌++◌, arith,
  contains, IsNodup, All, All-map, ◌==◌, eq_iff, ◌∙◌,
}
use tailflow_agent.Parser.Schema.{Step}
use tailflow_agent.Parser.Validate.{
  step_fields, check_steps, check_deps, check_all_deps, validate_steps,
}
use tailflow_agent.Engine.Dag.Link.{ids}

pub append_nil_iff {ℓ} : {A : Type ℓ} (xs ys : List A) → (xs ++ ys ≡ []) ↔ ((xs ≡ []) × (ys ≡ []))
append_nil_iff [] ys = (λ e. (refl, e), λ e. e.1)
append_nil_iff (x ∷ xs) ys = (λ e. absurd (cc e), λ e. absurd (cc e.0))

-- The values that the source allows for the fields.
pub record GoodStep (s : Step) : Type 0 where
  pub named : s.id ≢ ""
  pub has_action : s.action ≢ ""
  pub policy :
      (s.error_policy ≡ "")
      ⊎ (s.error_policy ≡ "stop")
      ⊎ (s.error_policy ≡ "continue")
      ⊎ (s.error_policy ≡ "ignore")
  pub recovery :
      (s.on_recovery ≡ "")
      ⊎ (s.on_recovery ≡ "retry")
      ⊎ (s.on_recovery ≡ "skip")
      ⊎ (s.on_recovery ≡ "fail")

-- What a list of steps has to be.
pub record ValidSteps (ss : List Step) : Type 0 where
  pub good : All GoodStep ss
  pub distinct : IsNodup (ids ss)
  pub known : All (λ s. All (λ dep. (dep ≢ s.id) × (contains dep (ids ss) ≡ true)) s.depends_on) ss

step_fields_sound : (s : Step) → s.id ≢ "" → step_fields s ≡ [] → GoodStep s
unfolding step_fields
step_fields_sound s named e = record {
  named = named;
  has_action = λ q. ground (arith, eq_iff s.action "");
  policy = ground (
    arith,
    eq_iff s.error_policy "",
    eq_iff s.error_policy "stop",
    eq_iff s.error_policy "continue",
    eq_iff s.error_policy "ignore",
  );
  recovery = ground (
    arith,
    eq_iff s.on_recovery "",
    eq_iff s.on_recovery "retry",
    eq_iff s.on_recovery "skip",
    eq_iff s.on_recovery "fail",
  );
}

step_fields_complete : (s : Step) → GoodStep s → step_fields s ≡ []
unfolding step_fields
step_fields_complete s g = ground (
  arith,
  g.has_action,
  g.policy,
  g.recovery,
  eq_iff s.action "",
  eq_iff s.error_policy "",
  eq_iff s.error_policy "stop",
  eq_iff s.error_policy "continue",
  eq_iff s.error_policy "ignore",
  eq_iff s.on_recovery "",
  eq_iff s.on_recovery "retry",
  eq_iff s.on_recovery "skip",
  eq_iff s.on_recovery "fail",
)

abbrev Disjoint : List String → List String → Type 0
Disjoint seen xs = (k : String) → contains k seen ≡ true → contains k xs ≡ false

record Fresh (seen : List String) (ss : List Step) : Type 0 where
  good : All GoodStep ss
  distinct : IsNodup (ids ss)
  apart : Disjoint seen (ids ss)

check_steps_sound :
    (i : ℕ) (seen : List String) (ss : List Step) → (check_steps i seen ss).0 ≡ [] → Fresh seen ss
unfolding check_steps
check_steps_sound i seen [] e = record { good = tt; distinct = tt; apart = λ k h. refl }
check_steps_sound i seen (s ∷ ss) e =
    let unnamed : (s.id == "") ≡ false = ground arith in
    let new : contains s.id seen ≡ false = ground arith in
    let parts =
      (append_nil_iff (step_fields s) (check_steps (suc i) (s.id ∷ seen) ss).0).0 (ground arith) in
    let ih = check_steps_sound (suc i) (s.id ∷ seen) ss parts.1 in
    record {
      good = (step_fields_sound s (λ q. ground (arith, eq_iff s.id "")) parts.0, ih.good);
      distinct = (ih.apart s.id (ground (arith, eq_iff s.id s.id)), ih.distinct);
      apart = λ k h. ground (arith, eq_iff s.id k, ih.apart k);
    }

check_steps_complete :
    (i : ℕ) (seen : List String) (ss : List Step) → Fresh seen ss → (check_steps i seen ss).0 ≡ []
unfolding check_steps
check_steps_complete i seen [] h = refl
check_steps_complete i seen (s ∷ ss) h =
    let ih = check_steps_complete (suc i) (s.id ∷ seen) ss (record {
      good = h.good.1;
      distinct = h.distinct.1;
      apart = λ k m. ground (arith, eq_iff s.id k, h.apart k, h.distinct.0);
    }) in
    ground (
      arith,
      ih,
      step_fields_complete s h.good.0,
      h.good.0.named,
      eq_iff s.id "",
      eq_iff s.id s.id,
      h.apart s.id,
    )

-- Without errors, the map of the first loop holds exactly the ids.
check_steps_known :
    (i : ℕ) (seen : List String) (ss : List Step)
    → (check_steps i seen ss).0 ≡ []
    → (k : String) → contains k (check_steps i seen ss).1 ≡ (contains k seen || contains k (ids ss))
unfolding check_steps
check_steps_known i seen [] e k = ground arith
check_steps_known i seen (s ∷ ss) e k =
    let parts =
      (append_nil_iff (step_fields s) (check_steps (suc i) (s.id ∷ seen) ss).0).0 (ground arith) in
    ground (arith, check_steps_known (suc i) (s.id ∷ seen) ss parts.1 k)

abbrev DepsOk : List String → Step → List String → Type 0
DepsOk known s deps = All (λ dep. (dep ≢ s.id) × (contains dep known ≡ true)) deps

check_deps_iff :
    (known : List String) (s : Step) (deps : List String)
    → (check_deps known s deps ≡ []) ↔ DepsOk known s deps
unfolding check_deps
check_deps_iff known s [] = (λ e. tt, λ h. refl)
check_deps_iff known s (dep ∷ deps) = (
  λ e.
      let parts = (append_nil_iff _ (check_deps known s deps)).0 e in
      (
        (λ q. ground (arith, eq_iff dep s.id, parts.0), ground (arith, parts.0)),
        (check_deps_iff known s deps).0 parts.1,
      ),
  λ h.
      let ih = (check_deps_iff known s deps).1 h.1 in
      ground (arith, ih, h.0.0, h.0.1, eq_iff dep s.id),
)

check_all_deps_iff :
    (known : List String) (ss : List Step)
    → (check_all_deps known ss ≡ []) ↔ All (λ s. DepsOk known s s.depends_on) ss
unfolding check_all_deps
check_all_deps_iff known [] = (λ e. tt, λ h. refl)
check_all_deps_iff known (s ∷ ss) =
    let first = check_deps_iff known s s.depends_on in
    let rest = check_all_deps_iff known ss in
    let both = append_nil_iff (check_deps known s s.depends_on) (check_all_deps known ss) in
    (λ e. (first.0 (both.0 e).0, rest.0 (both.0 e).1), λ h. both.1 (first.1 h.0, rest.1 h.1))

-- Membership in two lists that hold the same texts.
DepsOk-same :
    (xs ys : List String) (ss : List Step)
    → ((k : String) → contains k xs ≡ contains k ys)
    → All (λ s. DepsOk xs s s.depends_on) ss
    → All (λ s. DepsOk ys s s.depends_on) ss
DepsOk-same xs ys ss same =
    All-map ss (λ s. All-map s.depends_on (λ p h. (h.0, sym (same p) ∙ h.1)))

-- `validateSteps` finds no error exactly if every step has an id, an action and field values that
-- are allowed, the ids are distinct, and each dependency is another step's id.
pub validate_steps_iff : (ss : List Step) → (validate_steps ss ≡ []) ↔ ValidSteps ss
unfolding validate_steps
validate_steps_iff ss =
    let (errs, known) = check_steps 0 [] ss in
    let both = append_nil_iff errs (check_all_deps known ss) in
    (
      λ e.
          let fresh = check_steps_sound 0 [] ss (both.0 e).0 in
          record {
            good = fresh.good;
            distinct = fresh.distinct;
            known =
                DepsOk-same known (ids ss) ss (check_steps_known 0 [] ss (both.0 e).0)
                  ((check_all_deps_iff known ss).0 (both.0 e).1);
          },
      λ v.
          let clean =
            check_steps_complete 0 [] ss
              (record { good = v.good; distinct = v.distinct; apart = λ k m. absurd (cc m) }) in
          both.1 (
            clean,
            (check_all_deps_iff known ss).1 (
                DepsOk-same (ids ss) known ss (λ k. sym (check_steps_known 0 [] ss clean k))
                  v.known),
          ),
    )
