-- ===== src/Runtime/Expression.antt =====
-- internal/runtime/expression.go: the templates in a configuration. The expression language is a
-- parameter; so is the split of a text by `templateRegex`, which Go's package regexp does.
pub mod Parts
pub mod Relation
pub mod Resolved
pub mod Samples
use Prim.Native.String.{[], ◌∷◌, ◌++◌, len, slice, find}
use Prim.Native.Char.{Char, code}
use text.Mathlib.Text.{starts_with}
use tailflow_agent.Prelude.{
  ℕ, ◌-◌, String, Bool, true, false, ◌&&◌, ◌||◌, Option, none, some, List, if◌then◌else◌, ◌==◌, leb,
  ltb, eqb,
}
use tailflow_agent.Prelude.Texts.{contains_text, ends_with}
use tailflow_agent.Value.{Value, Items, Fields}
use tailflow_agent.Value.Print.{print_value}

-- A part of a text: one that is kept, or a template with its text and its expression.
pub data Piece : Type 0 where
  plain : String → Piece
  template : String → String → Piece

pub data Pieces : Type 0 where
  done : Pieces
  piece : Piece → Pieces → Pieces

pub record Evaluator : Type 0 where
  -- `expr.Compile` and `expr.Run`, where the context is fixed; `none` is an error
  pub run : String → Option Value
  -- the matches of `templateRegex`
  pub pieces : String → Pieces

-- `normalizeResult` changes the Go type of integers, whose text stays the same.
abbrev pub eval : Evaluator → String → Option Value
eval e expression = e.run expression

pub data Truth : Type 0 where
  truth : Bool → Truth
  not_boolean : Truth
  no_result : Truth

abbrev truth_of : Option Value → Truth
truth_of none = Truth.no_result
truth_of (some (Value.bool b)) = Truth.truth b
truth_of (some v) = Truth.not_boolean

unfoldable pub eval_bool : Evaluator → String → Truth
eval_bool e expression = truth_of (eval e expression)

-- The loop of `ReplaceAllStringFunc`; `none` stands for an error of some template.
unfoldable pub replace_pieces : Evaluator → Pieces → Option String
replace_pieces e Pieces.done = some ""
replace_pieces e (Pieces.piece (Piece.plain s) ps) = elim (replace_pieces e ps) [
  | none ↦ none
  | some rest ↦ some (s ++ rest)
]
replace_pieces e (Pieces.piece (Piece.template match expression) ps) = elim (eval e expression) [
  | none ↦ none
  | some v ↦ elim (replace_pieces e ps) [ none ↦ none | some rest ↦ some (print_value v ++ rest) ]
]

unfoldable pub resolve_template : Evaluator → String → Option String
unfolding replace_pieces
resolve_template e tmpl =
    if contains_text tmpl "{{" then replace_pieces e (e.pieces tmpl) else some tmpl

-- `\s` of package regexp
abbrev is_blank : Char → Bool
is_blank c = let n = code c in eqb n 32 || eqb n 9 || eqb n 10 || eqb n 12 || eqb n 13

abbrev drop_blank : String → String
drop_blank [] = []
drop_blank (c ∷ s) = let rest = drop_blank s in if is_blank c then rest else c ∷ s

abbrev drop_blank_end : String → String
drop_blank_end [] = []
drop_blank_end (c ∷ s) =
    let rest = drop_blank_end s in if is_blank c && rest == "" then "" else c ∷ rest

-- The last character that is not a line feed, which is what the group takes of a blank template.
abbrev last_in_line : String → String
last_in_line [] = ""
last_in_line (c ∷ s) =
    let rest = last_in_line s in
    if rest == "" then (if eqb (code c) 10 then "" else c ∷ []) else rest

-- What the group takes of the text between the braces: all but the blanks around it, if it is one line.
abbrev group_of : String → Option String
group_of inner =
    let group = drop_blank_end (drop_blank inner) in
    if group == ""
    then (if last_in_line inner == "" then none else some (last_in_line inner))
    else if contains_text group "\n"
    then none
    else some group

-- The group of `pureTemplateRegex`, which takes what stands between the first braces and the last ones.
unfoldable pub pure_group : String → Option String
pure_group s =
    if starts_with s "{{" && ends_with s "}}" && leb 5 (len s)
    then group_of (slice s 2 (len s - 2))
    else none

unfoldable pub resolve_string_value : Evaluator → String → Option Value
unfolding resolve_template
resolve_string_value e s =
    if contains_text s "{{"
    then elim (pure_group s) [
      | some expression ↦ eval e expression
      | none ↦ elim (resolve_template e s) [ none ↦ none | some t ↦ some (Value.text t) ]
    ]
    else some (Value.text s)

unfoldable mutual
  unfolding resolve_string_value

  pub resolve_value : Evaluator → Value → Option Value
  resolve_value e (Value.text s) = resolve_string_value e s
  resolve_value e (Value.object fs) = elim (resolve_config e fs) [
    | none ↦ none
    | some gs ↦ some (Value.object gs)
  ]
  resolve_value e (Value.array xs) = elim (resolve_items e xs) [
    | none ↦ none
    | some ys ↦ some (Value.array ys)
  ]
  resolve_value e Value.null = some Value.null
  resolve_value e (Value.bool b) = some (Value.bool b)
  resolve_value e (Value.number n) = some (Value.number n)
  resolve_value e (Value.typed v) = some (Value.typed v)

  pub resolve_items : Evaluator → Items → Option Items
  resolve_items e Items.nil = some Items.nil
  resolve_items e (Items.cons v xs) = elim (resolve_value e v) [
    | none ↦ none
    | some w ↦ elim (resolve_items e xs) [ none ↦ none | some ys ↦ some (Items.cons w ys) ]
  ]

  pub resolve_config : Evaluator → Fields → Option Fields
  resolve_config e Fields.end = some Fields.end
  resolve_config e (Fields.field k v fs) = elim (resolve_value e v) [
    | none ↦ none
    | some w ↦ elim (resolve_config e fs) [ none ↦ none | some gs ↦ some (Fields.field k w gs) ]
  ]
