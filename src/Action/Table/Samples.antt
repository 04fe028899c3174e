-- ===== src/Action/Table/Samples.antt =====
-- A table of two columns, and the theorem of its lines there.
use tailflow_agent.Prelude.{String, ◌≡◌, refl, Option, some, List, [], ◌∷◌}
use tailflow_agent.Prelude.Dict.{Dict, lookup}
use tailflow_agent.Value.{Value, Items, Fields}
use tailflow_agent.Value.Print.{print_value}
use tailflow_agent.Action.Table.{TableColumn, build_rows, sort_rows, table_lines}
use tailflow_agent.Action.Table.Cells.{cell_text}

abbrev column : String → Value
column field = Value.object (Fields.field "field" (Value.text field) Fields.end)

abbrev raw : Option Value
raw = some (Value.array (Items.cons (column "name") (Items.cons (column "a.b") Items.nil)))

abbrev columns : List TableColumn
columns = record { header = "name"; field = "name" } ∷ record { header = "a.b"; field = "a.b" } ∷ []

abbrev item : String → Value
item name = Value.object (
    Fields.field "name" (Value.text name)
      (Fields.field "a" (Value.object (Fields.field "b" (Value.number "7") Fields.end)) Fields.end))

abbrev items : List Value
items = item "maria" ∷ item "bob" ∷ []

abbrev config : Dict Value
config = ("sort", Value.text "name") ∷ []

rows_in_order :
    sort_rows (build_rows items columns) columns config
    ≡ ("bob" ∷ "7" ∷ []) ∷ ("maria" ∷ "7" ∷ []) ∷ []
unfolding sort_rows build_rows cell_text print_value lookup
rows_in_order = refl

drawn :
    table_lines columns (("bob" ∷ "7" ∷ []) ∷ []) (4 ∷ 3 ∷ [])
    ≡ "+------+-----+\n" ∷ "| name | a.b |\n" ∷ "+------+-----+\n" ∷ "| bob  | 7   |\n"
      ∷ "+------+-----+\n" ∷ []
unfolding table_lines
drawn = refl
