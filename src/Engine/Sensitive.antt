-- ===== src/Engine/Sensitive.antt =====
-- internal/engine/sensitive.go: the masking of sensitive keys. The keys of the registry are a list. A
-- nil map or value is `null`, and a map keeps its fields.
pub mod Masking
pub mod Samples
use tailflow_agent.Prelude.{String, Bool, true, false, List, [], ◌∷◌, contains, if◌then◌else◌}
use tailflow_agent.Value.{Value, Items, Fields}

abbrev pub redacted_value : Value
redacted_value = Value.text "[SENSITIVE]"

unfoldable mutual
  pub mask_value : List String → Value → Value
  mask_value keys (Value.array xs) = Value.array (mask_items keys xs)
  mask_value keys (Value.object fs) = Value.object (mask_fields keys fs)
  mask_value keys Value.null = Value.null
  mask_value keys (Value.bool b) = Value.bool b
  mask_value keys (Value.number n) = Value.number n
  mask_value keys (Value.typed v) = Value.typed v
  mask_value keys (Value.text s) = Value.text s

  pub mask_items : List String → Items → Items
  mask_items keys Items.nil = Items.nil
  mask_items keys (Items.cons v xs) = Items.cons (mask_value keys v) (mask_items keys xs)

  pub mask_fields : List String → Fields → Fields
  mask_fields keys Fields.end = Fields.end
  mask_fields keys (Fields.field k v fs) =
      let masked = mask_value keys v in
      Fields.field k (if contains k keys then redacted_value else masked) (mask_fields keys fs)

-- `MaskAny`
unfoldable pub mask_any : List String → Value → Value
unfolding mask_value
mask_any [] v = v
mask_any (k ∷ keys) v = mask_value (k ∷ keys) v
