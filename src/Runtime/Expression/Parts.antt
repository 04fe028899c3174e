-- ===== src/Runtime/Expression/Parts.antt =====
-- internal/runtime/expression.go: the equations of the resolution, where the parts are known.
use Prim.Native.String.{◌++◌}
use tailflow_agent.Prelude.{String, ◌≡◌, ap, Option, none, some}
use tailflow_agent.Value.{Value, Items, Fields}
use tailflow_agent.Value.Print.{print_value}
use tailflow_agent.Runtime.Expression.{
  Evaluator, Piece, Pieces, replace_pieces, resolve_value, resolve_items, resolve_config,
}

-- The text of a template and of the rest, where its expression or the rest gives what is known.
pub template_run :
    (e : Evaluator) (match expression : String) (ps : Pieces) (o : Option Value)
    → e.run expression ≡ o
    → replace_pieces e (Pieces.piece (Piece.template match expression) ps) ≡ elim o [
      | none ↦ none
      | some v ↦ elim (replace_pieces e ps) [
        | none ↦ none
        | some rest ↦ some (print_value v ++ rest)
      ]
    ]
unfolding replace_pieces
template_run e match expression ps o h =
    ap
      (λ o. elim o [
        | none ↦ none
        | some v ↦ elim (replace_pieces e ps) [
          | none ↦ none
          | some rest ↦ some (print_value v ++ rest)
        ]
      ])
      h

pub template_rest :
    (e : Evaluator) (v : Value) (ps : Pieces) (o : Option String)
    → replace_pieces e ps ≡ o
    → elim (replace_pieces e ps) [ none ↦ none | some rest ↦ some (print_value v ++ rest) ]
      ≡ elim o [ none ↦ none | some rest ↦ some (print_value v ++ rest) ]
template_rest e v ps o h =
    ap (λ o. elim o [ none ↦ none | some rest ↦ some (print_value v ++ rest) ]) h

-- A list, where its items are resolved to what is known.
pub array_resolved :
    (e : Evaluator) (xs : Items) (o : Option Items)
    → resolve_items e xs ≡ o
    → resolve_value e (Value.array xs) ≡ elim o [ none ↦ none | some ys ↦ some (Value.array ys) ]
unfolding resolve_value
array_resolved e xs o h = ap (λ o. elim o [ none ↦ none | some ys ↦ some (Value.array ys) ]) h

-- A map, where its fields are resolved to what is known.
pub object_resolved :
    (e : Evaluator) (fs : Fields) (o : Option Fields)
    → resolve_config e fs ≡ o
    → resolve_value e (Value.object fs) ≡ elim o [ none ↦ none | some gs ↦ some (Value.object gs) ]
unfolding resolve_value
object_resolved e fs o h = ap (λ o. elim o [ none ↦ none | some gs ↦ some (Value.object gs) ]) h

-- The first of the items and the rest, where they are resolved to what is known.
pub first_items :
    (e : Evaluator) (v : Value) (xs : Items) (o : Option Value)
    → resolve_value e v ≡ o
    → resolve_items e (Items.cons v xs) ≡ elim o [
      | none ↦ none
      | some w ↦ elim (resolve_items e xs) [ none ↦ none | some ys ↦ some (Items.cons w ys) ]
    ]
unfolding resolve_value
first_items e v xs o h =
    ap
      (λ o. elim o [
        | none ↦ none
        | some w ↦ elim (resolve_items e xs) [ none ↦ none | some ys ↦ some (Items.cons w ys) ]
      ])
      h

pub rest_items :
    (e : Evaluator) (w : Value) (xs : Items) (o : Option Items)
    → resolve_items e xs ≡ o
    → elim (resolve_items e xs) [ none ↦ none | some ys ↦ some (Items.cons w ys) ]
      ≡ elim o [ none ↦ none | some ys ↦ some (Items.cons w ys) ]
rest_items e w xs o h = ap (λ o. elim o [ none ↦ none | some ys ↦ some (Items.cons w ys) ]) h

-- The first of the fields and the rest, where they are resolved to what is known.
pub first_fields :
    (e : Evaluator) (k : String) (v : Value) (xs : Fields) (o : Option Value)
    → resolve_value e v ≡ o
    → resolve_config e (Fields.field k v xs) ≡ elim o [
      | none ↦ none
      | some w ↦ elim (resolve_config e xs) [ none ↦ none | some ys ↦ some (Fields.field k w ys) ]
    ]
unfolding resolve_value
first_fields e k v xs o h =
    ap
      (λ o. elim o [
        | none ↦ none
        | some w ↦ elim (resolve_config e xs) [ none ↦ none | some ys ↦ some (Fields.field k w ys) ]
      ])
      h

pub rest_fields :
    (e : Evaluator) (k : String) (w : Value) (xs : Fields) (o : Option Fields)
    → resolve_config e xs ≡ o
    → elim (resolve_config e xs) [ none ↦ none | some ys ↦ some (Fields.field k w ys) ]
      ≡ elim o [ none ↦ none | some ys ↦ some (Fields.field k w ys) ]
rest_fields e k w xs o h = ap (λ o. elim o [ none ↦ none | some ys ↦ some (Fields.field k w ys) ]) h
