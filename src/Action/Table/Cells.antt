-- ===== src/Action/Table/Cells.antt =====
-- internal/action/table.go: the text of a cell.
use Prim.Native.String.{String, [], ◌∷◌, ◌++◌}
use Prim.Native.Char.{code}
use mathlib.Core.List as L
use mathlib.Core.List.{List}
use tailflow_agent.Prelude.{if◌then◌else◌, eqb}
use tailflow_agent.Prelude.Dict.{get_or}
use tailflow_agent.Prelude.Texts.{trim_space}
use tailflow_agent.Value.{Value, field_of}
use tailflow_agent.Value.Print.{print_value}

-- The text up to the first line feed.
abbrev before_line_feed : String → String
before_line_feed [] = []
before_line_feed (c ∷ s) = let rest = before_line_feed s in if eqb (code c) 10 then [] else c ∷ rest

unfoldable pub sanitize_cell : String → String
sanitize_cell s = trim_space (before_line_feed (trim_space s))

-- `strings.Split(field, ".")`, where `part` is what was read of the current part.
abbrev split_dots : String → String → List String
split_dots part [] = L.◌∷◌ part L.[]
split_dots part (c ∷ s) =
    let next = L.◌∷◌ part (split_dots "" s) in
    let longer = split_dots (part ++ (c ∷ [])) s in if eqb (code c) 46 then next else longer

-- The loop of `resolveField`; a missing key gives nil.
unfoldable pub resolve_parts : List String → Value → Value
resolve_parts L.[] current = elim current [
  | Value.null ↦ Value.text ""
  | Value.bool b ↦ Value.bool b
  | Value.number n ↦ Value.number n
  | Value.typed v ↦ Value.typed v
  | Value.text s ↦ Value.text s
  | Value.array xs ↦ Value.array xs
  | Value.object fs ↦ Value.object fs
]
resolve_parts (L.◌∷◌ p ps) (Value.object m) = resolve_parts ps (get_or (field_of p m) Value.null)
resolve_parts (L.◌∷◌ p ps) current = Value.text ""

unfoldable pub cell_text : Value → String → String
unfolding resolve_parts sanitize_cell
cell_text item field = sanitize_cell (print_value (resolve_parts (split_dots "" field) item))
