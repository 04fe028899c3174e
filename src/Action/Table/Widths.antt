-- ===== src/Action/Table/Widths.antt =====
-- internal/action/table.go: the cells fit their columns, and the lines are of one width.
use Prim.Native.String.{◌++◌, count}
use text.Mathlib.TextLemmas as T
use tailflow_agent.Prelude.{
  ℕ, zero, suc, ◌+◌, ◌-◌, ◌≤◌, String, ◌≡◌, refl, sym, ◌∙◌, ap, List, [], ◌∷◌, arith, length, All,
  All-map,
}
use tailflow_agent.Action.Table.{
  widen, widen_all, repeat, separator_cells, write_separator, row_cells, write_row,
}

-- A cell for each column, none of which is wider than it: the spaces that fill it up are never negative.
abbrev pub Fits : List ℕ → List String → Type 0
Fits [] [] = Unit
Fits (w ∷ ws) (cell ∷ cells) = (count cell ≤ w) × Fits ws cells
Fits ws cells = ¬ Unit {0}

pub length-widen : (ws : List ℕ) (cells : List String) → length (widen ws cells) ≡ length ws
unfolding widen
length-widen [] cells = refl
length-widen (w ∷ ws) [] = refl
length-widen (w ∷ ws) (cell ∷ cells) = ap suc (length-widen ws cells)

widen-Fits :
    (ws : List ℕ) (cells : List String) → length cells ≡ length ws → Fits (widen ws cells) cells
unfolding widen
widen-Fits [] [] h = tt
widen-Fits [] (cell ∷ cells) h = absurd (omega arith)
widen-Fits (w ∷ ws) [] h = absurd (omega arith)
widen-Fits (w ∷ ws) (cell ∷ cells) h = (ground arith, widen-Fits ws cells (omega arith))

-- Widening for other cells keeps what fits.
widen_keeps-Fits :
    (ws : List ℕ) (other cells : List String) → Fits ws cells → Fits (widen ws other) cells
unfolding widen
widen_keeps-Fits [] other [] h = tt
widen_keeps-Fits [] other (cell ∷ cells) h = absurd (h tt)
widen_keeps-Fits (w ∷ ws) other [] h = absurd (h tt)
widen_keeps-Fits (w ∷ ws) [] (cell ∷ cells) h = h
widen_keeps-Fits (w ∷ ws) (o ∷ other) (cell ∷ cells) h =
    (ground arith, widen_keeps-Fits ws other cells h.1)

pub widen_all_keeps-Fits :
    (ws : List ℕ) (rows : List (List String)) (cells : List String)
    → Fits ws cells
    → Fits (widen_all ws rows) cells
unfolding widen_all
widen_all_keeps-Fits ws [] cells h = h
widen_all_keeps-Fits ws (row ∷ rows) cells h =
    widen_all_keeps-Fits (widen ws row) rows cells (widen_keeps-Fits ws row cells h)

pub widen_all-Fits :
    (ws : List ℕ) (rows : List (List String))
    → All (λ r. length r ≡ length ws) rows
    → All (Fits (widen_all ws rows)) rows
unfolding widen_all
widen_all-Fits ws [] h = tt
widen_all-Fits ws (row ∷ rows) h = (
  widen_all_keeps-Fits (widen ws row) rows row (widen-Fits ws row h.0),
  widen_all-Fits (widen ws row) rows (All-map rows (λ r e. e ∙ sym (length-widen ws row)) h.1),
)

-- The width of the columns with what stands between them.
abbrev pub total : List ℕ → ℕ
total [] = 0
total (w ∷ ws) = (w + 3) + total ws

count-repeat : (s : String) (n : ℕ) → count s ≡ 1 → count (repeat s n) ≡ n
unfolding repeat
count-repeat s zero h = refl
count-repeat s (suc n) h = omega (arith, T.length-append s (repeat s n), count-repeat s n h)

count-separator_cells : (ws : List ℕ) → count (separator_cells ws) ≡ total ws
unfolding separator_cells
count-separator_cells [] = refl
count-separator_cells (w ∷ ws) = omega (
  arith,
  T.length-append (repeat "-" (w + 2)) ("+" ++ separator_cells ws),
  T.length-append "+" (separator_cells ws),
  count-repeat "-" (w + 2) refl,
  count-separator_cells ws,
)

count-row_cells :
    (ws : List ℕ) (cells : List String) → Fits ws cells → count (row_cells ws cells) ≡ total ws
unfolding row_cells
count-row_cells [] [] h = refl
count-row_cells [] (cell ∷ cells) h = absurd (h tt)
count-row_cells (w ∷ ws) [] h = absurd (h tt)
count-row_cells (w ∷ ws) (cell ∷ cells) h =
    let pad = repeat " " (w - count cell) in
    let rest = row_cells ws cells in
    omega (
      arith,
      T.length-append " " (cell ++ (pad ++ (" |" ++ rest))),
      T.length-append cell (pad ++ (" |" ++ rest)),
      T.length-append pad (" |" ++ rest),
      T.length-append " |" rest,
      count-repeat " " (w - count cell) refl,
      count-row_cells ws cells h.1,
      h.0,
    )

abbrev pub IsWide : List ℕ → String → Type 0
IsWide ws line = count line ≡ total ws + 2

pub separator-IsWide : (ws : List ℕ) → IsWide ws (write_separator ws)
separator-IsWide ws = omega (
  arith,
  T.length-append "+" (separator_cells ws ++ "\n"),
  T.length-append (separator_cells ws) "\n",
  count-separator_cells ws,
)

pub row-IsWide :
    (ws : List ℕ) (cells : List String) → Fits ws cells → IsWide ws (write_row ws cells)
row-IsWide ws cells h = omega (
  arith,
  T.length-append "|" (row_cells ws cells ++ "\n"),
  T.length-append (row_cells ws cells) "\n",
  count-row_cells ws cells h,
)
