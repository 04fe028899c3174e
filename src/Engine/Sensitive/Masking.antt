-- ===== src/Engine/Sensitive/Masking.antt =====
-- internal/engine/sensitive.go: what masking changes and what it leaves.
use tailflow_agent.Prelude.{
  String, ◌≡◌, refl, true, false, inl, inr, List, [], ◌∷◌, contains, Bool-cases,
}
use tailflow_agent.Value.{Value, Items, Fields}
use tailflow_agent.Engine.Sensitive.{redacted_value, mask_value, mask_items, mask_fields, mask_any}

-- No slice or map in the value is of another Go type than []any and map[string]any.
abbrev mutual
  pub IsGeneric : Value → Type 0
  IsGeneric (Value.array xs) = AreGeneric xs
  IsGeneric (Value.object fs) = AreGenericFields fs
  IsGeneric (Value.typed v) = ⊥
  IsGeneric Value.null = Unit
  IsGeneric (Value.bool b) = Unit
  IsGeneric (Value.number n) = Unit
  IsGeneric (Value.text s) = Unit

  AreGeneric : Items → Type 0
  AreGeneric Items.nil = Unit
  AreGeneric (Items.cons v xs) = IsGeneric v × AreGeneric xs

  AreGenericFields : Fields → Type 0
  AreGenericFields Fields.end = Unit
  AreGenericFields (Fields.field k v fs) = IsGeneric v × AreGenericFields fs

-- Every value under a sensitive key, at any depth and in containers of any type, is redacted.
abbrev mutual
  pub IsMasked : List String → Value → Type 0
  IsMasked keys (Value.array xs) = AreMasked keys xs
  IsMasked keys (Value.object fs) = FieldsMasked keys fs
  IsMasked keys (Value.typed v) = IsMasked keys v
  IsMasked keys Value.null = Unit
  IsMasked keys (Value.bool b) = Unit
  IsMasked keys (Value.number n) = Unit
  IsMasked keys (Value.text s) = Unit

  AreMasked : List String → Items → Type 0
  AreMasked keys Items.nil = Unit
  AreMasked keys (Items.cons v xs) = IsMasked keys v × AreMasked keys xs

  FieldsMasked : List String → Fields → Type 0
  FieldsMasked keys Fields.end = Unit
  FieldsMasked keys (Fields.field k v fs) =
      (contains k keys ≡ true → v ≡ redacted_value) × IsMasked keys v × FieldsMasked keys fs

-- The second value is the first one, except under the sensitive keys of its maps, where it may be
-- anything; a container of another type is the same.
abbrev mutual
  pub Agrees : List String → Value → Value → Type 0
  Agrees keys (Value.array xs) w = (ys : Items) × (w ≡ Value.array ys) × ItemsAgree keys xs ys
  Agrees keys (Value.object fs) w = (gs : Fields) × (w ≡ Value.object gs) × FieldsAgree keys fs gs
  Agrees keys (Value.typed v) w = w ≡ Value.typed v
  Agrees keys Value.null w = w ≡ Value.null
  Agrees keys (Value.bool b) w = w ≡ Value.bool b
  Agrees keys (Value.number n) w = w ≡ Value.number n
  Agrees keys (Value.text s) w = w ≡ Value.text s

  ItemsAgree : List String → Items → Items → Type 0
  ItemsAgree keys Items.nil ys = ys ≡ Items.nil
  ItemsAgree keys (Items.cons v xs) ys =
      (w : Value) × (rest : Items) × (ys ≡ Items.cons w rest)
      × Agrees keys v w
      × ItemsAgree keys xs rest

  FieldsAgree : List String → Fields → Fields → Type 0
  FieldsAgree keys Fields.end gs = gs ≡ Fields.end
  FieldsAgree keys (Fields.field k v fs) gs =
      (w : Value) × (rest : Fields) × (gs ≡ Fields.field k w rest)
      × (contains k keys ≡ false → Agrees keys v w)
      × FieldsAgree keys fs rest

mutual
  unfolding mask_value

  mask_value-IsMasked :
      (keys : List String) (v : Value) → IsGeneric v → IsMasked keys (mask_value keys v)
  mask_value-IsMasked keys (Value.array xs) h = mask_items-AreMasked keys xs h
  mask_value-IsMasked keys (Value.object fs) h = mask_fields-FieldsMasked keys fs h
  mask_value-IsMasked keys (Value.typed v) h = absurd h
  mask_value-IsMasked keys Value.null h = tt
  mask_value-IsMasked keys (Value.bool b) h = tt
  mask_value-IsMasked keys (Value.number n) h = tt
  mask_value-IsMasked keys (Value.text s) h = tt

  mask_items-AreMasked :
      (keys : List String) (xs : Items) → AreGeneric xs → AreMasked keys (mask_items keys xs)
  mask_items-AreMasked keys Items.nil h = tt
  mask_items-AreMasked keys (Items.cons v xs) h =
      (mask_value-IsMasked keys v h.0, mask_items-AreMasked keys xs h.1)

  mask_fields-FieldsMasked :
      (keys : List String) (fs : Fields)
      → AreGenericFields fs
      → FieldsMasked keys (mask_fields keys fs)
  mask_fields-FieldsMasked keys Fields.end h = tt
  mask_fields-FieldsMasked keys (Fields.field k v fs) h = elim (Bool-cases (contains k keys)) [
    | inl secret ↦ rw secret (λ _. refl, tt, mask_fields-FieldsMasked keys fs h.1)
    | inr plain ↦ rw plain (
      λ secret. absurd (cc secret),
      mask_value-IsMasked keys v h.0,
      mask_fields-FieldsMasked keys fs h.1,
    )
  ]

mutual
  unfolding mask_value

  mask_value-Agrees : (keys : List String) (v : Value) → Agrees keys v (mask_value keys v)
  mask_value-Agrees keys (Value.array xs) = (_, refl, mask_items-ItemsAgree keys xs)
  mask_value-Agrees keys (Value.object fs) = (_, refl, mask_fields-FieldsAgree keys fs)
  mask_value-Agrees keys (Value.typed v) = refl
  mask_value-Agrees keys Value.null = refl
  mask_value-Agrees keys (Value.bool b) = refl
  mask_value-Agrees keys (Value.number n) = refl
  mask_value-Agrees keys (Value.text s) = refl

  mask_items-ItemsAgree :
      (keys : List String) (xs : Items) → ItemsAgree keys xs (mask_items keys xs)
  mask_items-ItemsAgree keys Items.nil = refl
  mask_items-ItemsAgree keys (Items.cons v xs) =
      (_, _, refl, mask_value-Agrees keys v, mask_items-ItemsAgree keys xs)

  mask_fields-FieldsAgree :
      (keys : List String) (fs : Fields) → FieldsAgree keys fs (mask_fields keys fs)
  mask_fields-FieldsAgree keys Fields.end = refl
  mask_fields-FieldsAgree keys (Fields.field k v fs) =
      (_, _, refl, λ plain. rw plain (mask_value-Agrees keys v), mask_fields-FieldsAgree keys fs)

-- With no sensitive keys there is nothing to redact.
mutual
  no_keys-IsMasked : (v : Value) → IsMasked [] v
  no_keys-IsMasked (Value.array xs) = no_keys-AreMasked xs
  no_keys-IsMasked (Value.object fs) = no_keys-FieldsMasked fs
  no_keys-IsMasked (Value.typed v) = no_keys-IsMasked v
  no_keys-IsMasked Value.null = tt
  no_keys-IsMasked (Value.bool b) = tt
  no_keys-IsMasked (Value.number n) = tt
  no_keys-IsMasked (Value.text s) = tt

  no_keys-AreMasked : (xs : Items) → AreMasked [] xs
  no_keys-AreMasked Items.nil = tt
  no_keys-AreMasked (Items.cons v xs) = (no_keys-IsMasked v, no_keys-AreMasked xs)

  no_keys-FieldsMasked : (fs : Fields) → FieldsMasked [] fs
  no_keys-FieldsMasked Fields.end = tt
  no_keys-FieldsMasked (Fields.field k v fs) =
      (λ secret. absurd (cc secret), no_keys-IsMasked v, no_keys-FieldsMasked fs)

mutual
  no_keys-Agrees : (v : Value) → Agrees [] v v
  no_keys-Agrees (Value.array xs) = (xs, refl, no_keys-ItemsAgree xs)
  no_keys-Agrees (Value.object fs) = (fs, refl, no_keys-FieldsAgree fs)
  no_keys-Agrees (Value.typed v) = refl
  no_keys-Agrees Value.null = refl
  no_keys-Agrees (Value.bool b) = refl
  no_keys-Agrees (Value.number n) = refl
  no_keys-Agrees (Value.text s) = refl

  no_keys-ItemsAgree : (xs : Items) → ItemsAgree [] xs xs
  no_keys-ItemsAgree Items.nil = refl
  no_keys-ItemsAgree (Items.cons v xs) = (v, xs, refl, no_keys-Agrees v, no_keys-ItemsAgree xs)

  no_keys-FieldsAgree : (fs : Fields) → FieldsAgree [] fs fs
  no_keys-FieldsAgree Fields.end = refl
  no_keys-FieldsAgree (Fields.field k v fs) =
      (v, fs, refl, λ plain. no_keys-Agrees v, no_keys-FieldsAgree fs)

-- What `MaskAny` returns has all that the value has, but for what stands under a sensitive key of a
-- map[string]any that is reached through []any and map[string]any alone; a slice or a map of another Go
-- type is returned as it is, secrets in it included. In a value without such slices and maps, every
-- value under a sensitive key, at any depth, is the redacted one afterwards.
pub mask_any-IsMasked :
    (keys : List String) (v : Value)
    → Agrees keys v (mask_any keys v) × (IsGeneric v → IsMasked keys (mask_any keys v))
unfolding mask_any
mask_any-IsMasked [] v = (no_keys-Agrees v, λ h. no_keys-IsMasked v)
mask_any-IsMasked (k ∷ keys) v = (mask_value-Agrees (k ∷ keys) v, mask_value-IsMasked (k ∷ keys) v)
