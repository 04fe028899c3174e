-- ===== src/Engine/TestCase/Matching.antt =====
-- internal/engine/engine_testcase.go: what partialMatch accepts.
use tailflow_agent.Prelude.{
  String, ◌≡◌, refl, sym, ◌∙◌, ap, subst, ◌↔◌, inl, inr, Bool, true, false, ◌&&◌, none, some,
  eq_iff, Option-cases,
}
use tailflow_agent.Value.{Value, Items, Fields, field_of}
use tailflow_agent.Value.Print.{print_value}
use tailflow_agent.Engine.TestCase.{partial_match, match_fields, match_items}

-- An expected map asks for its own fields only, an expected list for as many elements, and any other
-- expected value for one that prints the same.
mutual
  pub Matches : Value → Value → Type 0
  Matches (Value.object fs) (Value.object gs) = FieldsMatch fs gs
  Matches (Value.object fs) actual = ¬ Unit {0}
  Matches (Value.array xs) (Value.array ys) = ItemsMatch xs ys
  Matches (Value.array xs) actual = ¬ Unit {0}
  Matches expected actual = print_value expected ≡ print_value actual

  FieldsMatch : Fields → Fields → Type 0
  FieldsMatch Fields.end gs = Unit
  FieldsMatch (Fields.field k v fs) gs =
      ((w : Value) × (field_of k gs ≡ some w) × Matches v w) × FieldsMatch fs gs

  ItemsMatch : Items → Items → Type 0
  ItemsMatch Items.nil Items.nil = Unit
  ItemsMatch (Items.cons v xs) (Items.cons w ys) = Matches v w × ItemsMatch xs ys
  ItemsMatch xs ys = ¬ Unit {0}

never : (false ≡ true) ↔ (¬ Unit {0})
never = (λ h. absurd (cc h), λ h. absurd (h tt))

both : {P Q : Type 0} (a b : Bool) → (a ≡ true) ↔ P → (b ≡ true) ↔ Q → ((a && b) ≡ true) ↔ (P × Q)
both true b p q = (λ h. (p.0 refl, q.0 h), λ h. q.1 h.1)
both false b p q = (λ h. absurd (cc h), λ h. absurd (cc (p.1 h.0)))

-- The match of a field that is there.
found :
    (k : String) (v w : Value) (fs gs : Fields)
    → field_of k gs ≡ some w
    → match_fields (Fields.field k v fs) gs ≡ (partial_match v w && match_fields fs gs)
unfolding partial_match
found k v w fs gs e =
    ap (λ o. elim o [ none ↦ false | some w ↦ partial_match v w && match_fields fs gs ]) e

missing :
    (k : String) (v : Value) (fs gs : Fields)
    → field_of k gs ≡ none
    → match_fields (Fields.field k v fs) gs ≡ false
unfolding partial_match
missing k v fs gs e =
    ap (λ o. elim o [ none ↦ false | some w ↦ partial_match v w && match_fields fs gs ]) e

mutual
  unfolding partial_match Matches

  matches : (v w : Value) → (partial_match v w ≡ true) ↔ Matches v w
  matches (Value.object fs) (Value.object gs) = fields fs gs
  matches (Value.object fs) Value.null = never
  matches (Value.object fs) (Value.bool b) = never
  matches (Value.object fs) (Value.number n) = never
  matches (Value.object fs) (Value.typed w) = never
  matches (Value.object fs) (Value.text s) = never
  matches (Value.object fs) (Value.array ys) = never
  matches (Value.array xs) (Value.array ys) = items xs ys
  matches (Value.array xs) Value.null = never
  matches (Value.array xs) (Value.bool b) = never
  matches (Value.array xs) (Value.number n) = never
  matches (Value.array xs) (Value.typed w) = never
  matches (Value.array xs) (Value.text s) = never
  matches (Value.array xs) (Value.object gs) = never
  matches Value.null w = eq_iff (print_value Value.null) (print_value w)
  matches (Value.bool b) w = eq_iff (print_value (Value.bool b)) (print_value w)
  matches (Value.typed v) w = eq_iff (print_value (Value.typed v)) (print_value w)
  matches (Value.number n) w = eq_iff (print_value (Value.number n)) (print_value w)
  matches (Value.text s) w = eq_iff (print_value (Value.text s)) (print_value w)

  fields : (fs gs : Fields) → (match_fields fs gs ≡ true) ↔ FieldsMatch fs gs
  fields Fields.end gs = (λ h. tt, λ h. refl)
  fields (Fields.field k v fs) gs = elim (Option-cases (field_of k gs)) [
    | inl e ↦ (λ h. absurd (cc (h, missing k v fs gs e)), λ h. absurd (cc (e, h.0.1)))
    | inr (w, e) ↦
        let iff = both (partial_match v w) (match_fields fs gs) (matches v w) (fields fs gs) in
        (
          λ h. (
            (w, e, (iff.0 (sym (found k v w fs gs e) ∙ h)).0),
            (iff.0 (sym (found k v w fs gs e) ∙ h)).1,
          ),
          λ h.
              let same : h.0.0 ≡ w = cc (e, h.0.1) in
              found k v w fs gs e ∙ iff.1 (subst (Matches v) same h.0.2, h.1),
        )
  ]

  items : (xs ys : Items) → (match_items xs ys ≡ true) ↔ ItemsMatch xs ys
  items Items.nil Items.nil = (λ h. tt, λ h. refl)
  items Items.nil (Items.cons w ys) = never
  items (Items.cons v xs) Items.nil = never
  items (Items.cons v xs) (Items.cons w ys) =
      both (partial_match v w) (match_items xs ys) (matches v w) (items xs ys)

-- `partialMatch` accepts exactly the values that match: every field that is expected is there and its
-- value matches, lists match element by element, and other values print the same.
pub partial_match_iff :
    (expected actual : Value) → (partial_match expected actual ≡ true) ↔ Matches expected actual
partial_match_iff expected actual = matches expected actual
