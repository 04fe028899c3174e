-- ===== src/Value/Print.antt =====
-- fmt's `%v` of a value: a list in brackets, a map with its keys in order.
use Prim.Native.String.{String, ◌++◌, compare}
use Prim.Native.Nat.{Ordering}
use mathlib.Core.List.{List, [], ◌∷◌}
use mathlib.Core.Bool.{Bool, true, false}
use tailflow_agent.Prelude.{if◌then◌else◌}
use tailflow_agent.Value.{Value, Items, Fields}

-- Texts one after the other: Go's `+`.
abbrev pub append : String → String → String
append s t = s ++ t

-- The order of texts, by bytes: Go's `<`.
abbrev pub less_text : String → String → Bool
less_text s t = elim (compare s t) [ Ordering.lt ↦ true | _ ↦ false ]

-- `strings.Join`
abbrev pub join : String → List String → String
join sep [] = ""
join sep (x ∷ xs) = elim xs [ [] ↦ x | y ∷ ys ↦ x ++ sep ++ join sep xs ]

-- A key and its text go into a list that is sorted by the keys.
abbrev insert_by_key : String → String → List (String × String) → List (String × String)
insert_by_key k t [] = (k, t) ∷ []
insert_by_key k t (e ∷ es) =
    let rest = insert_by_key k t es in if less_text k e.0 then (k, t) ∷ e ∷ es else e ∷ rest

abbrev pairs : List (String × String) → List String
pairs [] = []
pairs (e ∷ es) = (e.0 ++ ":" ++ e.1) ∷ pairs es

unfoldable mutual
  pub print_value : Value → String
  print_value Value.null = "<nil>"
  print_value (Value.bool true) = "true"
  print_value (Value.bool false) = "false"
  print_value (Value.number n) = n
  print_value (Value.text s) = s
  print_value (Value.array xs) = "[" ++ join " " (print_items xs) ++ "]"
  print_value (Value.object fs) = "map[" ++ join " " (pairs (print_fields fs)) ++ "]"
  print_value (Value.typed v) = print_value v

  pub print_items : Items → List String
  print_items Items.nil = []
  print_items (Items.cons v xs) = print_value v ∷ print_items xs

  pub print_fields : Fields → List (String × String)
  print_fields Fields.end = []
  print_fields (Fields.field k v fs) = insert_by_key k (print_value v) (print_fields fs)
