-- ===== src/Action/Table.antt =====
-- internal/action/table.go: a list of objects as a table of text, in `Cells` what a cell holds. What is
-- printed of it is left out.
pub mod Cells
pub mod Widths
pub mod Lines
pub mod Samples
use Prim.Native.String.{◌++◌, count}
use tailflow_agent.Prelude.{
  ℕ, zero, suc, ◌+◌, ◌-◌, String, Bool, true, false, ◌||◌, Option, none, some, List, [], ◌∷◌, map,
  if◌then◌else◌, ◌==◌, ltb, length, get_elem?,
}
use mathlib.Core.List as L
use tailflow_agent.Prelude.Dict.{Dict, lookup, get_or}
use tailflow_agent.Value.{Value, Fields, field_of, text_or_empty}
use tailflow_agent.Value.Print.{less_text}
use tailflow_agent.Action.Array.{as_any_slice}
use tailflow_agent.Action.Table.Cells.{cell_text}

pub record TableColumn : Type 0 where
  pub header : String
  pub field : String

abbrev parse_column : Value → Option TableColumn
parse_column (Value.object m) =
    let field = text_or_empty (field_of "field" m) in
    let header = text_or_empty (field_of "header" m) in
    if field == ""
    then none
    else some (record { header = if header == "" then field else header; field = field })
parse_column item = none

unfoldable pub parse_column_list : List Value → Option (List TableColumn)
parse_column_list [] = some []
parse_column_list (item ∷ items) = elim (parse_column item) [
  | none ↦ none
  | some c ↦ elim (parse_column_list items) [ none ↦ none | some cs ↦ some (c ∷ cs) ]
]

-- `none` stands for every error.
unfoldable pub parse_columns : Option Value → Option (List TableColumn)
unfolding parse_column_list
parse_columns raw = elim (as_any_slice raw) [
  | none ↦ none
  | some items ↦ if ltb 0 (length items) then parse_column_list items else none
]

unfoldable pub build_rows : List Value → List TableColumn → List (List String)
build_rows items columns = map (λ item. map (λ c. cell_text item c.field) columns) items

-- The index of the first column that the sort names.
abbrev sort_index : String → List TableColumn → Option ℕ
sort_index name [] = none
sort_index name (c ∷ cs) =
    let rest = sort_index name cs in
    if c.field == name || c.header == name
    then some 0
    else elim rest [ none ↦ none | some j ↦ some (suc j) ]

abbrev at_index : ℕ → List String → String
at_index j row = get_or (get_elem? row j) ""

-- `sort.SliceStable` by a strict order has one result, which an insertion sort has too.
abbrev insert_row : ℕ → List String → List (List String) → List (List String)
insert_row j row [] = row ∷ []
insert_row j row (r ∷ rows) =
    let rest = insert_row j row rows in
    if less_text (at_index j r) (at_index j row) then r ∷ rest else row ∷ r ∷ rows

abbrev sort_by : ℕ → List (List String) → List (List String)
sort_by j [] = []
sort_by j (row ∷ rows) = insert_row j row (sort_by j rows)

unfoldable pub sort_rows : List (List String) → List TableColumn → Dict Value → List (List String)
sort_rows rows columns config = elim (lookup "sort" config) [
  | none ↦ rows
  | some v ↦ elim v [
    | Value.text name ↦ elim (sort_index name columns) [ none ↦ rows | some j ↦ sort_by j rows ]
    | Value.null ↦ rows
    | Value.bool b ↦ rows
    | Value.number n ↦ rows
    | Value.typed w ↦ rows
    | Value.array xs ↦ rows
    | Value.object fs ↦ rows
  ]
]

-- The body of the loop of `computeColumnWidths` over a row.
unfoldable pub widen : List ℕ → List String → List ℕ
widen [] cells = []
widen (w ∷ ws) [] = w ∷ ws
widen (w ∷ ws) (cell ∷ cells) = (if ltb w (count cell) then count cell else w) ∷ widen ws cells

unfoldable pub widen_all : List ℕ → List (List String) → List ℕ
unfolding widen
widen_all ws [] = ws
widen_all ws (row ∷ rows) = widen_all (widen ws row) rows

abbrev pub header_strings : List TableColumn → List String
header_strings columns = map (λ c. c.header) columns

unfoldable pub compute_column_widths : List TableColumn → List (List String) → List ℕ
unfolding widen_all
compute_column_widths columns rows = widen_all (map (λ c. count c.header) columns) rows

-- `strings.Repeat`, which panics where Go's count is negative.
unfoldable pub repeat : String → ℕ → String
repeat s zero = ""
repeat s (suc n) = s ++ repeat s n

unfoldable pub separator_cells : List ℕ → String
unfolding repeat
separator_cells [] = ""
separator_cells (w ∷ ws) = repeat "-" (w + 2) ++ ("+" ++ separator_cells ws)

abbrev pub write_separator : List ℕ → String
write_separator ws = "+" ++ (separator_cells ws ++ "\n")

unfoldable pub row_cells : List ℕ → List String → String
unfolding repeat
row_cells ws [] = ""
row_cells [] (cell ∷ cells) = ""
row_cells (w ∷ ws) (cell ∷ cells) =
    " " ++ (cell ++ (repeat " " (w - count cell) ++ (" |" ++ row_cells ws cells)))

abbrev pub write_row : List ℕ → List String → String
write_row ws cells = "|" ++ (row_cells ws cells ++ "\n")

abbrev pub empty_row : List TableColumn → String → List String
empty_row columns fill = map (λ c. fill) columns

-- The lines of `renderTable` under the title.
unfoldable pub table_lines : List TableColumn → List (List String) → List ℕ → List String
unfolding separator_cells row_cells
table_lines columns rows ws =
    write_separator ws
    ∷ write_row ws (header_strings columns)
    ∷ write_separator ws
    ∷ L.◌++◌ (map (write_row ws) rows) (
        if ltb 0 (length rows)
        then write_separator ws ∷ []
        else write_row ws (empty_row columns "—") ∷ write_separator ws ∷ [])
