-- ===== src/Value.antt =====
-- The values that flow through a workflow: what Go holds as `any` after the YAML or JSON decoder.
-- A number is kept as the text that `%v` prints for it. A map is a list of fields.
-- A type assertion to []any or map[string]any fails on a slice or a map of another type.
pub mod Print
use Prim.Native.String.{String}
use mathlib.Core.Bool.{Bool}
use mathlib.Core.Option.{Option, none, some}
use mathlib.Core.List.{List, [], ◌∷◌}
use tailflow_agent.Prelude.{if◌then◌else◌, ◌==◌}

mutual
  pub data Value : Type 0 where
    null : Value
    bool : Bool → Value
    number : String → Value
    text : String → Value
    array : Items → Value
    object : Fields → Value
    -- a slice or a map of another Go type than []any and map[string]any, with its content
    typed : Value → Value

  pub data Items : Type 0 where
    nil : Items
    cons : Value → Items → Items

  pub data Fields : Type 0 where
    end : Fields
    field : String → Value → Fields → Fields

-- The fields of one map before those of another.
abbrev pub append_fields : Fields → Fields → Fields
append_fields Fields.end ys = ys
append_fields (Fields.field k v xs) ys = Fields.field k v (append_fields xs ys)

-- What a map holds for a key.
abbrev pub field_of : String → Fields → Option Value
field_of k Fields.end = none
field_of k (Fields.field j v fs) = let rest = field_of k fs in if j == k then some v else rest

-- The string, the map or the list that a value is: Go's type assertion with `ok`.
abbrev pub as_text : Value → Option String
as_text (Value.text s) = some s
as_text v = none

abbrev pub as_object : Value → Option Fields
as_object (Value.object fs) = some fs
as_object v = none

abbrev pub as_array : Value → Option Items
as_array (Value.array xs) = some xs
as_array v = none

-- A string that is missing or something else counts as empty: `s, _ := v.(string)`.
abbrev pub text_or_empty : Option Value → String
text_or_empty (some (Value.text s)) = s
text_or_empty _ = ""

abbrev pub to_list : Items → List Value
to_list Items.nil = []
to_list (Items.cons v xs) = v ∷ to_list xs

abbrev pub of_list : List Value → Items
of_list [] = Items.nil
of_list (v ∷ vs) = Items.cons v (of_list vs)
