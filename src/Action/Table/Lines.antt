-- ===== src/Action/Table/Lines.antt =====
-- internal/action/table.go: the lines of a table.
use Prim.Native.String.{count}
use text.Mathlib.TextLemmas as T
use mathlib.Core.List as L
use tailflow_agent.Prelude.{ℕ, ◌<◌, String, List, [], ◌∷◌, map}
use tailflow_agent.Prelude.Dict.{Dict}
use tailflow_agent.Value.{Value}
use tailflow_agent.Action.Table.{TableColumn}

abbrev header_widths : List TableColumn → List ℕ
header_widths columns = map (λ c. count c.header) columns

-- Every column has a header.
abbrev AreHeaded : List TableColumn → Type 0
AreHeaded [] = Unit
AreHeaded (c ∷ columns) = (0 < count c.header) × AreHeaded columns
