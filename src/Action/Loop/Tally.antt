-- ===== src/Action/Loop/Tally.antt =====
-- internal/action/loop.go, buildLoopOutput: what the output says of the iterations that failed.
use tailflow_agent.Prelude.{
  ℕ, suc, ◌+◌, ◌≤◌, ◌<◌, String, ◌≡◌, ◌≢◌, refl, ap, sym, ◌∙◌, ◌⊎◌, inl, inr, Option, none, some,
  List, [], ◌∷◌, length, map, arith, ltb, ◌==◌, eq_iff, Bool-cases,
}
use tailflow_agent.Prelude.Dict.{Dict, lookup}
use tailflow_agent.Value.{Value, text_or_empty}
use tailflow_agent.Value.Print.{append}
use tailflow_agent.Action.Loop.{
  LoopError, Summary, LoopOutput, loop_errors, first_error, values_of, build_loop_output,
}

nil_of : (xs : List ℕ) → ¬ (0 < length xs) → xs ≡ []
nil_of [] h = refl
nil_of (x ∷ xs) h = absurd (h (omega arith))

length-indices : (es : List LoopError) → length (map (λ e. e.index) es) ≡ length es
length-indices [] = refl
length-indices (e ∷ es) = ap suc (length-indices es)

module _ {T : Type 0} where
  -- The numbers of the iterations that failed.
  abbrev pub failing : ℕ → List (T × Option String) → List ℕ
  failing i [] = []
  failing i ((v, none) ∷ rs) = failing (suc i) rs
  failing i ((v, some m) ∷ rs) = i ∷ failing (suc i) rs

  length-failing : (i : ℕ) (rs : List (T × Option String)) → length (failing i rs) ≤ length rs
  length-failing i [] = omega arith
  length-failing i ((v, none) ∷ rs) = omega (arith, length-failing (suc i) rs)
  length-failing i ((v, some m) ∷ rs) = omega (arith, length-failing (suc i) rs)

  -- Without a summary nothing failed; a summary counts and lists what failed, and is there only where
  -- the policy is to go on.
  abbrev Summarises : List Value → List (T × Option String) → String → Option Summary → Type 0
  Summarises items rs policy none = failing 0 rs ≡ []
  Summarises items rs policy (some s) =
      (map (λ e. e.index) s.errors ≡ failing 0 rs)
      × (s.failed ≡ length s.errors)
      × (0 < s.failed)
      × (s.failed + s.succeeded ≡ length items)
      × (policy ≡ "continue")

  abbrev pub Tally :
      Dict Value → List Value → List (T × Option String) → LoopOutput T ⊎ String → Type 0
  Tally config items rs (inl o) =
      (o.iterations ≡ length items)
      × (o.items ≡ items)
      × (o.results ≡ values_of rs)
      × Summarises items rs (text_or_empty (lookup "error_policy" config)) o.summary
  Tally config items rs (inr m) =
      (m ≡ append "loop iteration failed: " (first_error rs))
      × (0 < length (failing 0 rs))
      × (text_or_empty (lookup "error_policy" config) ≢ "continue")

  map-loop_errors :
      (detail : T → String) (i : ℕ) (items : List Value) (rs : List (T × Option String))
      → length items ≡ length rs
      → map (λ e. e.index) (loop_errors detail i items rs) ≡ failing i rs
  unfolding loop_errors
  map-loop_errors detail i items [] h = refl
  map-loop_errors detail i [] (r ∷ rs) h = absurd (omega arith)
  map-loop_errors detail i (item ∷ items) ((v, none) ∷ rs) h =
      map-loop_errors detail (suc i) items rs (omega arith)
  map-loop_errors detail i (item ∷ items) ((v, some m) ∷ rs) h =
      ap (λ l. i ∷ l) (map-loop_errors detail (suc i) items rs (omega arith))

  -- The output carries all results in their order; it is an error exactly where an iteration failed and
  -- the policy is not to go on, and then tells the first failure; and otherwise it lists the iterations
  -- that failed by their numbers, if any, and its counts of the failed and the others add up.
  pub build_loop_output-Tally :
      (detail : T → String) (config : Dict Value) (items : List Value)
      (rs : List (T × Option String))
      → length items ≡ length rs
      → Tally config items rs (build_loop_output detail config items rs)
  unfolding build_loop_output
  build_loop_output-Tally detail config items rs h =
      let errors = loop_errors detail 0 items rs in
      let same = map-loop_errors detail 0 items rs h in
      let counted : length errors ≡ length (failing 0 rs) =
        sym (length-indices errors) ∙ ap length same in
      elim (Bool-cases (ltb 0 (length errors))) [
        | inr fine ↦ rw fine (refl, refl, refl, nil_of (failing 0 rs) (ground (arith, counted)))
        | inl bad ↦ elim (Bool-cases (text_or_empty (lookup "error_policy" config) == "continue")) [
          | inl on ↦
              rw (bad, on)
                (
                  refl,
                  refl,
                  refl,
                  (
                    same,
                    refl,
                    ground arith,
                    omega (arith, counted, length-failing 0 rs),
                    (eq_iff (text_or_empty (lookup "error_policy" config)) "continue").0 on,
                  ),
                )
          | inr off ↦
              rw (bad, off)
                (
                  refl,
                  ground (arith, counted),
                  λ e.
                      cc (
                        off,
                        (eq_iff (text_or_empty (lookup "error_policy" config)) "continue").1 e,
                      ),
                )
        ]
      ]
