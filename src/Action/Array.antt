-- ===== src/Action/Array.antt =====
-- internal/action/array.go: the actions on arrays, without the sort. The expression language is a
-- parameter of the filter and of the map; `none` stands for every error.
pub mod Uniq
pub mod Pick
pub mod Samples
use tailflow_agent.Prelude.{
  ℕ, suc, String, Bool, true, false, not, ◌&&◌, Option, none, some, List, [], ◌∷◌, ◌++◌, map,
  if◌then◌else◌, contains,
}
use tailflow_agent.Prelude.Dict.{Dict, lookup, get_or, is_some}
use tailflow_agent.Prelude.Texts.{print_nat}
use tailflow_agent.Value.{Value, Items, Fields, field_of, as_array, to_list, of_list}
use tailflow_agent.Value.Print.{print_value}

-- `toAnySlice`
abbrev pub to_any_slice : Option Value → Option (List Value)
to_any_slice (some (Value.array xs)) = some (to_list xs)
to_any_slice (some (Value.typed (Value.array xs))) = some (to_list xs)
to_any_slice _ = none

-- The type assertion to []any, which a slice of another type fails.
abbrev pub as_any_slice : Option Value → Option (List Value)
as_any_slice (some (Value.array xs)) = some (to_list xs)
as_any_slice _ = none

abbrev pub array_input : Dict Value → Option (List Value)
array_input config = to_any_slice (lookup "input" config)

-- `fmt.Sprintf("%v", config[k])`
abbrev pub printed : String → Dict Value → String
printed k config = print_value (get_or (lookup k config) Value.null)

unfoldable pub field_value : Value → String → Value
field_value (Value.object fs) field = get_or (field_of field fs) Value.null
field_value item field = Value.null

-- Every key is in the configuration: what the actions validate.
abbrev pub has_keys : List String → Dict Value → Bool
has_keys [] config = true
has_keys (k ∷ ks) config = is_some (lookup k config) && has_keys ks config

-- The loop of `array.filter`, which stops at the first error.
unfoldable pub filter_items : (Value → Option Bool) → List Value → Option (List Value)
filter_items matches [] = some []
filter_items matches (item ∷ items) = elim (matches item) [
  | none ↦ none
  | some match ↦ elim (filter_items matches items) [
    | none ↦ none
    | some kept ↦ if match then some (item ∷ kept) else some kept
  ]
]

unfoldable pub array_filter : (String → Fields → Option Bool) → Dict Value → Option (List Value)
unfolding filter_items
array_filter eval_bool config = elim (array_input config) [
  | none ↦ none
  | some items ↦
      filter_items
        (λ item. eval_bool (printed "condition" config) (Fields.field "item" item Fields.end)) items
]

-- The loop of `array.map`, from item `i` on.
unfoldable pub map_items : (ℕ → Value → Option Value) → ℕ → List Value → Option (List Value)
map_items f i [] = some []
map_items f i (item ∷ items) = elim (f i item) [
  | none ↦ none
  | some v ↦ elim (map_items f (suc i) items) [ none ↦ none | some vs ↦ some (v ∷ vs) ]
]

unfoldable pub array_map : (String → Fields → Option Value) → Dict Value → Option (List Value)
unfolding map_items
array_map eval config = elim (array_input config) [
  | none ↦ none
  | some items ↦
      map_items
        (λ i item.
          eval (printed "expression" config) (
            Fields.field "item" item
              (Fields.field "index" (Value.number (print_nat i)) Fields.end)))
        0 items
]

-- The loop of `array.uniq`; `seen` are the keys of the items that it kept.
unfoldable pub uniq_items : String → List String → List Value → List Value
uniq_items field seen [] = []
uniq_items field seen (item ∷ items) =
    let key = print_value (field_value item field) in
    let kept = uniq_items field seen items in
    let next = item ∷ uniq_items field (key ∷ seen) items in
    if contains key seen then kept else next

unfoldable pub array_uniq : Dict Value → Option (List Value)
unfolding uniq_items
array_uniq config = elim (array_input config) [
  | none ↦ none
  | some items ↦ some (uniq_items (printed "field" config) [] items)
]

-- `picked[f] = v` for the fields that are there. Go's map takes a repeated field once.
unfoldable pub pick_fields : List String → Fields → Fields
pick_fields [] m = Fields.end
pick_fields (f ∷ fs) m =
    let rest = pick_fields fs m in
    elim (field_of f m) [
      | none ↦ rest
      | some v ↦ if is_some (field_of f rest) then rest else Fields.field f v rest
    ]

unfoldable pub pick_item : List String → Value → Value
unfolding pick_fields
pick_item fields (Value.object m) = Value.object (pick_fields fields m)
pick_item fields item = item

unfoldable pub array_pick : Dict Value → Option (List Value)
unfolding pick_item
array_pick config = elim (array_input config) [
  | none ↦ none
  | some items ↦ elim (as_any_slice (lookup "fields" config)) [
    | none ↦ none
    | some raw ↦ some (map (pick_item (map print_value raw)) items)
  ]
]

-- The loop of `array.concat`.
unfoldable pub concat_items : List Value → Option (List Value)
concat_items [] = some []
concat_items (item ∷ raw) = elim (as_any_slice (some item)) [
  | none ↦ none
  | some arr ↦ elim (concat_items raw) [ none ↦ none | some rest ↦ some (arr ++ rest) ]
]

unfoldable pub array_concat : Dict Value → Option (List Value)
unfolding concat_items
array_concat config = elim (as_any_slice (lookup "arrays" config)) [
  | none ↦ none
  | some raw ↦ concat_items raw
]
