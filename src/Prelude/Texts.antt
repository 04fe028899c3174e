-- ===== src/Prelude/Texts.antt =====
-- The functions of Go's package strings that the program calls.
use Prim.Native.String.{String, [], ◌∷◌, ◌++◌, len, slice, find}
use Prim.Native.Char.{Char, code}
use Prim.Native.Nat.{ℕ, zero, suc, ◌-◌, ◌/◌, ◌%◌}
use mathlib.Core.Bool.{Bool, ◌&&◌, ◌||◌}
use text.Mathlib.Text.{◌==◌, starts_with}
use tailflow_agent.Prelude.Tests.{if◌then◌else◌, ltb, leb, eqb}

-- `strings.Contains`
abbrev pub contains_text : String → String → Bool
contains_text s t = leb (find s t) (len s)

-- `strings.TrimPrefix` and `strings.TrimSuffix`
abbrev pub trim_prefix : String → String → String
trim_prefix s p = if starts_with s p then slice s (len p) (len s) else s

abbrev pub ends_with : String → String → Bool
ends_with s t = leb (len t) (len s) && slice s (len s - len t) (len s) == t

abbrev pub trim_suffix : String → String → String
trim_suffix s t = if ends_with s t then slice s 0 (len s - len t) else s

-- `unicode.IsSpace`
abbrev pub is_space : Char → Bool
is_space c =
    let n = code c in
    (leb 9 n && leb n 13)
    || eqb n 32
    || eqb n 133
    || eqb n 160
    || eqb n 5760
    || (leb 8192 n && leb n 8202)
    || eqb n 8232
    || eqb n 8233
    || eqb n 8239
    || eqb n 8287
    || eqb n 12288

abbrev pub trim_left : String → String
trim_left [] = []
trim_left (c ∷ s) = let rest = trim_left s in if is_space c then rest else c ∷ s

abbrev pub trim_right : String → String
trim_right [] = []
trim_right (c ∷ s) = let rest = trim_right s in if is_space c && rest == "" then "" else c ∷ rest

-- `strings.TrimSpace`
abbrev pub trim_space : String → String
trim_space s = trim_right (trim_left s)

-- A digit, and a number in decimal; the fuel, one round for each digit, is more than the number.
abbrev digit : ℕ → String
digit d = slice "0123456789" d (suc d)

abbrev print_digits : ℕ → ℕ → String → String
print_digits zero n acc = acc
print_digits (suc f) n acc =
    let rest = print_digits f (n / 10) (digit (n % 10) ++ acc) in
    if ltb n 10 then digit n ++ acc else rest

abbrev pub print_nat : ℕ → String
print_nat n = print_digits (suc n) n ""

-- What follows the last line feed: the last element of `strings.Split(s, "\n")`.
abbrev pub last_line : String → String
last_line [] = []
last_line (c ∷ s) =
    let rest = last_line s in
    if leb (find s "\n") (len s) then rest else if eqb (code c) 10 then s else c ∷ s
