-- ===== src/Runtime/Expression/Resolved.antt =====
-- internal/runtime/expression.go, ResolveConfig: what a resolved configuration holds.
use tailflow_agent.Prelude.{◌≡◌, ◌↔◌, refl, ◌∙◌, ap, false, none, some}
use tailflow_agent.Prelude.Texts.{contains_text}
use tailflow_agent.Value.{Value, Items, Fields}
use tailflow_agent.Runtime.Expression.Relation.{FieldsResolve, fields-Resolve, fields_complete}
use tailflow_agent.Runtime.Expression.{
  Evaluator, resolve_string_value, resolve_value, resolve_items, resolve_config,
}

-- No text in the value has a template.
abbrev mutual
  pub IsPlain : Value → Type 0
  IsPlain (Value.text s) = contains_text s "{{" ≡ false
  IsPlain (Value.object fs) = ArePlainFields fs
  IsPlain (Value.array xs) = ArePlain xs
  IsPlain Value.null = Unit
  IsPlain (Value.bool b) = Unit
  IsPlain (Value.number n) = Unit
  IsPlain (Value.typed v) = Unit

  pub ArePlain : Items → Type 0
  ArePlain Items.nil = Unit
  ArePlain (Items.cons v xs) = IsPlain v × ArePlain xs

  pub ArePlainFields : Fields → Type 0
  ArePlainFields Fields.end = Unit
  ArePlainFields (Fields.field k v fs) = IsPlain v × ArePlainFields fs

mutual
  unfolding resolve_value resolve_string_value

  plain_value : (e : Evaluator) (v : Value) → IsPlain v → resolve_value e v ≡ some v
  plain_value e (Value.text s) h = rw h refl
  plain_value e (Value.object fs) h =
      ap (λ o. elim o [ none ↦ none | some gs ↦ some (Value.object gs) ]) (plain_fields e fs h)
  plain_value e (Value.array xs) h =
      ap (λ o. elim o [ none ↦ none | some ys ↦ some (Value.array ys) ]) (plain_items e xs h)
  plain_value e Value.null h = refl
  plain_value e (Value.bool b) h = refl
  plain_value e (Value.number n) h = refl
  plain_value e (Value.typed v) h = refl

  plain_items : (e : Evaluator) (xs : Items) → ArePlain xs → resolve_items e xs ≡ some xs
  plain_items e Items.nil h = refl
  plain_items e (Items.cons v xs) h =
      ap
        (λ o. elim o [
          | none ↦ none
          | some w ↦ elim (resolve_items e xs) [ none ↦ none | some ys ↦ some (Items.cons w ys) ]
        ])
        (plain_value e v h.0)
      ∙ ap (λ o. elim o [ none ↦ none | some ys ↦ some (Items.cons v ys) ]) (plain_items e xs h.1)

  plain_fields : (e : Evaluator) (fs : Fields) → ArePlainFields fs → resolve_config e fs ≡ some fs
  plain_fields e Fields.end h = refl
  plain_fields e (Fields.field k v fs) h =
      ap
        (λ o. elim o [
          | none ↦ none
          | some w ↦ elim (resolve_config e fs) [
            | none ↦ none
            | some gs ↦ some (Fields.field k w gs)
          ]
        ])
        (plain_value e v h.0)
      ∙ ap (λ o. elim o [ none ↦ none | some gs ↦ some (Fields.field k v gs) ])
          (plain_fields e fs h.1)

-- A configuration in which no text has "{{" is resolved to itself. `ResolveConfig` succeeds with a
-- configuration exactly if it has the same keys as the given one and, under each of them, the value with
-- its texts resolved: a text without "{{" is itself; one that `pureTemplateRegex` matches is the value of
-- the expression in the group; and any other is the text in which each template is the printed value of
-- its expression. A slice or a map of another type than []any and map[string]any is itself.
pub resolve_config_correct :
    (e : Evaluator) (fs : Fields)
    → (ArePlainFields fs → resolve_config e fs ≡ some fs)
      × ((gs : Fields) → (resolve_config e fs ≡ some gs) ↔ FieldsResolve e fs gs)
resolve_config_correct e fs =
    (plain_fields e fs, λ gs. (fields-Resolve e fs gs, fields_complete e fs gs))
