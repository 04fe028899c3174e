-- ===== src/Engine/Sensitive/Samples.antt =====
-- A nested map with a secret, and the theorem of the masking there.
use tailflow_agent.Prelude.{◌≡◌, refl, [], ◌∷◌}
use tailflow_agent.Value.{Value, Items, Fields}
use tailflow_agent.Engine.Sensitive.{redacted_value, mask_value, mask_any}
use tailflow_agent.Engine.Sensitive.Masking.{Agrees, IsGeneric, IsMasked, mask_any-IsMasked}

abbrev nested : Value
nested =
    Value.array
      (Items.cons (Value.object (Fields.field "token" (Value.text "x") Fields.end)) Items.nil)

mask-nested :
    mask_any ("token" ∷ []) nested
    ≡ Value.array
        (Items.cons (Value.object (Fields.field "token" redacted_value Fields.end)) Items.nil)
unfolding mask_any mask_value
mask-nested = refl

-- A slice of another type, such as the rows of a query, passes with its secret.
mask-typed : mask_any ("token" ∷ []) (Value.typed nested) ≡ Value.typed nested
unfolding mask_any mask_value
mask-typed = refl

mask_any-IsMasked_example :
    Agrees ("token" ∷ []) nested (mask_any ("token" ∷ []) nested)
    × (IsGeneric nested → IsMasked ("token" ∷ []) (mask_any ("token" ∷ []) nested))
mask_any-IsMasked_example = mask_any-IsMasked ("token" ∷ []) nested
