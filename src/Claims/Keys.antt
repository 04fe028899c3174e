-- ===== src/Claims/Keys.antt =====
-- internal/export/memory_claimer.go: the key of a claim tells the workflow and the idempotency key.
use Prim.Native.String.{String, [], ◌∷◌, ◌++◌}
use Prim.Native.Char.{Char, code}
use mathlib.Core.Path.{◌≡◌, refl, sym, ap, ◌∙◌}
use mathlib.Core.Bool.{Bool, false, ◌||◌}
use native.Mathlib.Omega.{arith}
use text.Mathlib.TextLemmas.{nil-append, cons-append}
use tailflow_agent.Prelude.{eqb}
use tailflow_agent.Claims.{claim_key, claim_key_separator}

-- The separator of the keys stands in the text.
abbrev pub has_nul : String → Bool
has_nul [] = false
has_nul (c ∷ s) = eqb (code c) 0 || has_nul s

heads : (c d : Char) (s t : String) → c ∷ s ≡ d ∷ t → c ≡ d
heads c d s t e = cc e

tails : (c d : Char) (s t : String) → c ∷ s ≡ d ∷ t → s ≡ t
tails c d s t e = cc e

abbrev nul : Char
nul = "\0"

nil_key : (k : String) → claim_key "" k ≡ nul ∷ k
nil_key k =
    nil-append (claim_key_separator ++ k) ∙ cons-append nul "" k ∙ ap (λ t. nul ∷ t) (nil-append k)

cons_key : (c : Char) (w k : String) → claim_key (c ∷ w) k ≡ c ∷ claim_key w k
cons_key c w k = cons-append c w (claim_key_separator ++ k)

-- Where no name has the separator, a key belongs to one workflow and one idempotency key only.
pub claim_key_injective :
    (w w' k k' : String)
    → has_nul w ≡ false
    → has_nul w' ≡ false
    → claim_key w k ≡ claim_key w' k'
    → (w ≡ w') × (k ≡ k')
claim_key_injective [] [] k k' h h' e =
    (refl, tails nul nul k k' (sym (nil_key k) ∙ e ∙ nil_key k'))
claim_key_injective [] (c ∷ w') k k' h h' e =
    let same : 0 ≡ code c =
      ap code (heads nul c k (claim_key w' k') (sym (nil_key k) ∙ e ∙ cons_key c w' k')) in
    absurd (ground arith)
claim_key_injective (c ∷ w) [] k k' h h' e =
    let same : code c ≡ 0 =
      ap code (heads c nul (claim_key w k) k' (sym (cons_key c w k) ∙ e ∙ nil_key k')) in
    absurd (ground arith)
claim_key_injective (c ∷ w) (d ∷ w') k k' h h' e =
    let both = sym (cons_key c w k) ∙ e ∙ cons_key d w' k' in
    let rest = tails c d (claim_key w k) (claim_key w' k') both in
    let (names, keys) = claim_key_injective w w' k k' (ground arith) (ground arith) rest in
    (cc (heads c d (claim_key w k) (claim_key w' k') both, names), keys)
