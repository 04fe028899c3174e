-- ===== src/Runtime/Expression/Relation.antt =====
-- internal/runtime/expression.go: what a configuration is resolved to, as a relation that the evaluator
-- alone determines.
use Prim.Native.String.{◌++◌}
use tailflow_agent.Prelude.{
  String, ◌≡◌, refl, sym, ◌∙◌, inl, inr, true, false, none, some, Bool-cases, Option-cases,
}
use tailflow_agent.Prelude.Texts.{contains_text}
use tailflow_agent.Value.{Value, Items, Fields}
use tailflow_agent.Value.Print.{print_value}
use tailflow_agent.Runtime.Expression.Parts.{
  template_run, template_rest, array_resolved, object_resolved, first_items, rest_items,
  first_fields, rest_fields,
}
use tailflow_agent.Runtime.Expression.{
  Evaluator, Piece, Pieces, replace_pieces, pure_group, resolve_template, resolve_string_value,
  resolve_value, resolve_items, resolve_config,
}

-- A split text with the printed value of its expression for each template.
pub data Rendered (e : Evaluator) : Pieces → String → Type 0 where
  done : Rendered e Pieces.done ""
  kept :
      (s : String) (ps : Pieces) (t : String)
      → Rendered e ps t
      → Rendered e (Pieces.piece (Piece.plain s) ps) (s ++ t)
  filled :
      (match expression : String) (v : Value) (ps : Pieces) (t : String)
      → e.run expression ≡ some v
      → Rendered e ps t
      → Rendered e (Pieces.piece (Piece.template match expression) ps) (print_value v ++ t)

-- What a text stands for.
pub data TextResolves (e : Evaluator) (s : String) : Value → Type 0 where
  plain : contains_text s "{{" ≡ false → TextResolves e s (Value.text s)
  value :
      (expression : String) (v : Value)
      → contains_text s "{{" ≡ true
      → pure_group s ≡ some expression
      → e.run expression ≡ some v
      → TextResolves e s v
  rendered :
      (t : String)
      → contains_text s "{{" ≡ true
      → pure_group s ≡ none
      → Rendered e (e.pieces s) t
      → TextResolves e s (Value.text t)

abbrev mutual
  pub Resolves : Evaluator → Value → Value → Type 0
  Resolves e (Value.text s) w = TextResolves e s w
  Resolves e (Value.object fs) w = (gs : Fields) × (w ≡ Value.object gs) × FieldsResolve e fs gs
  Resolves e (Value.array xs) w = (ys : Items) × (w ≡ Value.array ys) × ItemsResolve e xs ys
  Resolves e (Value.typed v) w = w ≡ Value.typed v
  Resolves e Value.null w = w ≡ Value.null
  Resolves e (Value.bool b) w = w ≡ Value.bool b
  Resolves e (Value.number n) w = w ≡ Value.number n

  pub ItemsResolve : Evaluator → Items → Items → Type 0
  ItemsResolve e Items.nil ys = ys ≡ Items.nil
  ItemsResolve e (Items.cons v xs) ys =
      (w : Value) × (rest : Items) × (ys ≡ Items.cons w rest)
      × Resolves e v w
      × ItemsResolve e xs rest

  pub FieldsResolve : Evaluator → Fields → Fields → Type 0
  FieldsResolve e Fields.end gs = gs ≡ Fields.end
  FieldsResolve e (Fields.field k v fs) gs =
      (w : Value) × (rest : Fields) × (gs ≡ Fields.field k w rest)
      × Resolves e v w
      × FieldsResolve e fs rest

replace_pieces-Rendered :
    (e : Evaluator) (ps : Pieces) (t : String) → replace_pieces e ps ≡ some t → Rendered e ps t
unfolding replace_pieces
replace_pieces-Rendered e Pieces.done t h = let same : "" ≡ t = cc h in rw (← same) Rendered.done
replace_pieces-Rendered e (Pieces.piece (Piece.plain s) ps) t h =
    elim (Option-cases (replace_pieces e ps)) [
      | inl bad ↦ absurd (cc (rw bad at h))
      | inr (rest, good) ↦
          let same : s ++ rest ≡ t = cc (rw good at h) in
          rw (← same) (Rendered.kept s ps rest (replace_pieces-Rendered e ps rest good))
    ]
replace_pieces-Rendered e (Pieces.piece (Piece.template match expression) ps) t h =
    elim (Option-cases (e.run expression)) [
      | inl bad ↦ absurd (cc (h, template_run e match expression ps none bad))
      | inr (v, run) ↦ elim (Option-cases (replace_pieces e ps)) [
        | inl bad ↦
            absurd (
              cc
                (h, template_run e match expression ps (some v) run, template_rest e v ps none bad))
        | inr (rest, good) ↦
            let same : print_value v ++ rest ≡ t = cc (
              h,
              template_run e match expression ps (some v) run,
              template_rest e v ps (some rest) good,
            ) in
            rw (← same) (
              Rendered.filled match expression v ps rest run
                (replace_pieces-Rendered e ps rest good))
      ]
    ]

Rendered-replace_pieces :
    (e : Evaluator) (ps : Pieces) (t : String) → Rendered e ps t → replace_pieces e ps ≡ some t
unfolding replace_pieces
Rendered-replace_pieces e _ _ Rendered.done = refl
Rendered-replace_pieces e _ _ (Rendered.kept s ps t r) = rw (Rendered-replace_pieces e ps t r) refl
Rendered-replace_pieces e _ _ (Rendered.filled match expression v ps t run r) =
    template_run e match expression ps (some v) run
    ∙ template_rest e v ps (some t) (Rendered-replace_pieces e ps t r)

text-Resolves :
    (e : Evaluator) (s : String) (w : Value)
    → resolve_string_value e s ≡ some w
    → TextResolves e s w
unfolding resolve_string_value resolve_template
text-Resolves e s w h = elim (Bool-cases (contains_text s "{{")) [
  | inr none_there ↦
      let same : Value.text s ≡ w = cc (rw none_there at h) in
      rw (← same) (TextResolves.plain none_there)
  | inl there ↦ elim (Option-cases (pure_group s)) [
    | inr (g, pure) ↦ TextResolves.value g w there pure (rw (there, pure) at h)
    | inl mixed ↦ elim (Option-cases (replace_pieces e (e.pieces s))) [
      | inl bad ↦ absurd (cc (rw (there, mixed, bad) at h))
      | inr (t, good) ↦
          let same : Value.text t ≡ w = cc (rw (there, mixed, good) at h) in
          rw (← same)
            (TextResolves.rendered t there mixed (replace_pieces-Rendered e (e.pieces s) t good))
    ]
  ]
]

text_complete :
    (e : Evaluator) (s : String) (w : Value)
    → TextResolves e s w
    → resolve_string_value e s ≡ some w
unfolding resolve_string_value resolve_template
text_complete e s _ (TextResolves.plain none_there) = rw none_there refl
text_complete e s w (TextResolves.value g _ there pure run) = rw (there, pure) run
text_complete e s _ (TextResolves.rendered t there mixed r) =
    let same = Rendered-replace_pieces e (e.pieces s) t r in
    rw (there, mixed) (rw (there, same) refl)

mutual
  unfolding resolve_value

  value-Resolves : (e : Evaluator) (v w : Value) → resolve_value e v ≡ some w → Resolves e v w
  value-Resolves e (Value.text s) w h = text-Resolves e s w h
  value-Resolves e (Value.object fs) w h = elim (Option-cases (resolve_config e fs)) [
    | inl bad ↦ absurd (cc (h, object_resolved e fs none bad))
    | inr (gs, good) ↦
        let same : Value.object gs ≡ w = cc (h, object_resolved e fs (some gs) good) in
        (gs, sym same, fields-Resolve e fs gs good)
  ]
  value-Resolves e (Value.array xs) w h = elim (Option-cases (resolve_items e xs)) [
    | inl bad ↦ absurd (cc (h, array_resolved e xs none bad))
    | inr (ys, good) ↦
        let same : Value.array ys ≡ w = cc (h, array_resolved e xs (some ys) good) in
        (ys, sym same, items-Resolve e xs ys good)
  ]
  value-Resolves e (Value.typed v) w h = cc h
  value-Resolves e Value.null w h = cc h
  value-Resolves e (Value.bool b) w h = cc h
  value-Resolves e (Value.number n) w h = cc h

  items-Resolve :
      (e : Evaluator) (xs ys : Items) → resolve_items e xs ≡ some ys → ItemsResolve e xs ys
  items-Resolve e Items.nil ys h = cc h
  items-Resolve e (Items.cons v xs) ys h = elim (Option-cases (resolve_value e v)) [
    | inl bad ↦ absurd (cc (h, first_items e v xs none bad))
    | inr (w, good) ↦ elim (Option-cases (resolve_items e xs)) [
      | inl bad ↦ absurd (cc (h, first_items e v xs (some w) good, rest_items e w xs none bad))
      | inr (rest, fine) ↦
          let same : Items.cons w rest ≡ ys =
            cc (h, first_items e v xs (some w) good, rest_items e w xs (some rest) fine) in
          (w, rest, sym same, value-Resolves e v w good, items-Resolve e xs rest fine)
    ]
  ]

  pub fields-Resolve :
      (e : Evaluator) (fs gs : Fields) → resolve_config e fs ≡ some gs → FieldsResolve e fs gs
  fields-Resolve e Fields.end gs h = cc h
  fields-Resolve e (Fields.field k v fs) gs h = elim (Option-cases (resolve_value e v)) [
    | inl bad ↦ absurd (cc (h, first_fields e k v fs none bad))
    | inr (w, good) ↦ elim (Option-cases (resolve_config e fs)) [
      | inl bad ↦
          absurd (cc (h, first_fields e k v fs (some w) good, rest_fields e k w fs none bad))
      | inr (rest, fine) ↦
          let same : Fields.field k w rest ≡ gs =
            cc (h, first_fields e k v fs (some w) good, rest_fields e k w fs (some rest) fine) in
          (w, rest, sym same, value-Resolves e v w good, fields-Resolve e fs rest fine)
    ]
  ]

mutual
  unfolding resolve_value

  value_complete : (e : Evaluator) (v w : Value) → Resolves e v w → resolve_value e v ≡ some w
  value_complete e (Value.text s) w h = text_complete e s w h
  value_complete e (Value.object fs) w (gs, same, h) =
      rw same (object_resolved e fs (some gs) (fields_complete e fs gs h))
  value_complete e (Value.array xs) w (ys, same, h) =
      rw same (array_resolved e xs (some ys) (items_complete e xs ys h))
  value_complete e (Value.typed v) w h = rw h refl
  value_complete e Value.null w h = rw h refl
  value_complete e (Value.bool b) w h = rw h refl
  value_complete e (Value.number n) w h = rw h refl

  items_complete :
      (e : Evaluator) (xs ys : Items) → ItemsResolve e xs ys → resolve_items e xs ≡ some ys
  items_complete e Items.nil ys h = rw h refl
  items_complete e (Items.cons v xs) ys (w, rest, same, here, h) = rw same (
      first_items e v xs (some w) (value_complete e v w here)
      ∙ rest_items e w xs (some rest) (items_complete e xs rest h))

  pub fields_complete :
      (e : Evaluator) (fs gs : Fields) → FieldsResolve e fs gs → resolve_config e fs ≡ some gs
  fields_complete e Fields.end gs h = rw h refl
  fields_complete e (Fields.field k v fs) gs (w, rest, same, here, h) = rw same (
      first_fields e k v fs (some w) (value_complete e v w here)
      ∙ rest_fields e k w fs (some rest) (fields_complete e fs rest h))
