-- ===== src/Action/Array/Pick.antt =====
-- internal/action/array.go, array.pick: which fields of an item are kept.
use tailflow_agent.Prelude.{
  String, ◌≡◌, refl, inl, inr, none, some, List, [], ◌∷◌, map, arith, if◌then◌else◌, eq_iff,
  contains, Bool-cases, Option-cases,
}
use tailflow_agent.Prelude.Dict.{Dict, lookup, is_some}
use tailflow_agent.Value.{Value, Fields, field_of}
use tailflow_agent.Value.Print.{print_value}
use tailflow_agent.Action.Array.{array_input, as_any_slice, pick_fields, pick_item, array_pick}

field_of-pick_fields :
    (f : String) (fs : List String) (m : Fields)
    → field_of f (pick_fields fs m) ≡ (if contains f fs then field_of f m else none)
unfolding pick_fields
field_of-pick_fields f [] m = refl
field_of-pick_fields f (g ∷ fs) m = elim (Option-cases (field_of g m)) [
  | inl gone ↦ rw (gone, pick_fields) (ground (arith, field_of-pick_fields f fs m, eq_iff g f))
  | inr (v, there) ↦ elim (Bool-cases (is_some (field_of g (pick_fields fs m)))) [
    | inl again ↦
        rw (there, again, pick_fields)
          (ground (arith, field_of-pick_fields f fs m, field_of-pick_fields g fs m, eq_iff g f))
    | inr new ↦
        rw (there, new, pick_fields) (ground (arith, field_of-pick_fields f fs m, eq_iff g f))
  ]
]

-- `x` with the fields in `fs` and no others; what is not an object stays as it is.
abbrev IsPicked : List String → Value → Value → Type 0
IsPicked fs (Value.object m) y =
    (n : Fields) × (y ≡ Value.object n)
    × ((f : String) → field_of f n ≡ (if contains f fs then field_of f m else none))
IsPicked fs x y = y ≡ x

abbrev ArePicked : List String → List Value → List Value → Type 0
ArePicked fs [] ys = ys ≡ []
ArePicked fs (x ∷ xs) ys =
    (y : Value) × (rest : List Value) × (ys ≡ y ∷ rest) × IsPicked fs x y × ArePicked fs xs rest

pick_item-IsPicked : (fs : List String) (x : Value) → IsPicked fs x (pick_item fs x)
unfolding pick_item
pick_item-IsPicked fs (Value.object m) = (pick_fields fs m, refl, λ f. field_of-pick_fields f fs m)
pick_item-IsPicked fs Value.null = refl
pick_item-IsPicked fs (Value.bool b) = refl
pick_item-IsPicked fs (Value.number n) = refl
pick_item-IsPicked fs (Value.typed v) = refl
pick_item-IsPicked fs (Value.text s) = refl
pick_item-IsPicked fs (Value.array xs) = refl

map-ArePicked : (fs : List String) (xs : List Value) → ArePicked fs xs (map (pick_item fs) xs)
map-ArePicked fs [] = refl
map-ArePicked fs (x ∷ xs) =
    (pick_item fs x, map (pick_item fs) xs, refl, pick_item-IsPicked fs x, map-ArePicked fs xs)

-- `array.pick` returns one item for each of the input, in order: an object with exactly those of its
-- fields that are asked for, and anything else as it is.
array_pick-ArePicked :
    (config : Dict Value) (items raw : List Value)
    → array_input config ≡ some items
    → as_any_slice (lookup "fields" config) ≡ some raw
    → (out : List Value) × (array_pick config ≡ some out)
      × ArePicked (map print_value raw) items out
unfolding array_pick
array_pick-ArePicked config items raw h r = (
  map (pick_item (map print_value raw)) items,
  rw (h, r, array_pick) refl,
  map-ArePicked (map print_value raw) items,
)
