-- ===== src/Engine/Node/Retry.antt =====
-- internal/engine/engine_retry.go: what a retried action returns.
use tailflow_agent.Prelude.{
  ℕ, zero, suc, ◌+◌, ◌<◌, ◌≡◌, true, sym, subst, ◌∙◌, ap, inl, inr, Option, none, some, arith,
  if◌then◌else◌, ltb, Option-cases,
}
use tailflow_agent.Value.{Value}
use tailflow_agent.Parser.Schema.{RetryConfig}
use tailflow_agent.Engine.Node.{Failure, max_attempts, retry_from, execute_with_retry}

module _ {C : Type 0} (wait : ℕ → Option Failure) (run : ℕ → C → (Value × Option Failure) × C) where
  -- The context after `k` calls, the first one being attempt `a`.
  abbrev pub after : ℕ → ℕ → C → C
  after a zero c = c
  after a (suc k) c = after (suc a) k ((run a c).1)

  -- The next `k` attempts, from attempt `a` on, are made and fail.
  abbrev pub Fail : ℕ → ℕ → C → Type 0
  Fail a zero c = Unit
  Fail a (suc k) c =
      ((if ltb 1 a then wait a else none) ≡ none)
      × ((f : Failure) × ((run a c).0.1 ≡ some f))
      × Fail (suc a) k ((run a c).1)

  -- What call number `k` returns, and that its attempt is made.
  abbrev pub call : ℕ → ℕ → C → (Value × Option Failure) × C
  call a zero c = run a c
  call a (suc k) c = call (suc a) k ((run a c).1)

  abbrev pub Made : ℕ → ℕ → Type 0
  Made a zero = (if ltb 1 a then wait a else none) ≡ none
  Made a (suc k) = Made (suc a) k

  -- One round of the loop, by what the wait and the call return.
  abbrev called :
      ℕ → ℕ → (Value × Option Failure) × C → Option Failure → (Value × Option Failure) × C
  called n a last o = elim o [
    | none ↦ run a last.1
    | some f ↦ retry_from wait run n (suc a) (run a last.1)
  ]

  abbrev waited :
      ℕ → ℕ → (Value × Option Failure) × C → Option Failure → (Value × Option Failure) × C
  waited n a last o = elim o [
    | some f ↦ ((Value.null, some f), last.1)
    | none ↦ called n a last ((run a last.1).0.1)
  ]

  one_round :
      (n a : ℕ) (last : (Value × Option Failure) × C)
      → (if ltb 1 a then wait a else none) ≡ none
      → retry_from wait run (suc n) a last ≡ called n a last ((run a last.1).0.1)
  unfolding retry_from
  one_round n a last made = ap (waited n a last) made

  step_fails :
      (n a : ℕ) (f : Failure) (last : (Value × Option Failure) × C)
      → (if ltb 1 a then wait a else none) ≡ none
      → (run a last.1).0.1 ≡ some f
      → retry_from wait run (suc n) a last ≡ retry_from wait run n (suc a) (run a last.1)
  step_fails n a f last made failed = one_round n a last made ∙ ap (called n a last) failed

  retry_from-call :
      (k n a : ℕ) (last : (Value × Option Failure) × C)
      → k < n
      → Fail a k last.1
      → Made a k
      → (call a k last.1).0.1 ≡ none
      → retry_from wait run n a last ≡ call a k last.1
  retry_from-call k zero a last lt fails made good = absurd (omega arith)
  retry_from-call zero (suc n) a last lt fails made good =
      one_round n a last made ∙ ap (called n a last) good
  retry_from-call (suc k) (suc n) a last lt fails made good =
      step_fails n a fails.1.0 last fails.0 fails.1.1
      ∙ retry_from-call k n (suc a) (run a last.1) (omega arith) fails.2 made good

  retry_from-last :
      (n a : ℕ) (last : (Value × Option Failure) × C)
      → Fail a (suc n) last.1
      → retry_from wait run (suc n) a last ≡ call a n last.1
  unfolding retry_from
  retry_from-last zero a last fails = step_fails zero a fails.1.0 last fails.0 fails.1.1
  retry_from-last (suc n) a last fails =
      step_fails (suc n) a fails.1.0 last fails.0 fails.1.1
      ∙ retry_from-last n (suc a) (run a last.1) fails.2

  retry_from-interrupted :
      (k n a : ℕ) (f : Failure) (last : (Value × Option Failure) × C)
      → suc k < n
      → Fail a (suc k) last.1
      → 0 < a
      → wait (a + suc k) ≡ some f
      → retry_from wait run n a last ≡ ((Value.null, some f), after a (suc k) last.1)
  unfolding retry_from
  retry_from-interrupted k zero a f last lt fails one ends = absurd (omega arith)
  retry_from-interrupted k (suc zero) a f last lt fails one ends = absurd (omega arith)
  retry_from-interrupted zero (suc (suc n)) a f last lt fails one ends =
      let late : ltb 1 (suc a) ≡ true = ground arith in
      let ended : wait (suc a) ≡ some f = ap wait {y = a + suc zero} (omega arith) ∙ ends in
      step_fails (suc n) a fails.1.0 last fails.0 fails.1.1
      ∙ ap (waited n (suc a) (run a last.1)) {y = some f} (rw late ended)
  retry_from-interrupted (suc k) (suc (suc n)) a f last lt fails one ends =
      step_fails (suc n) a fails.1.0 last fails.0 fails.1.1
      ∙ retry_from-interrupted k (suc n) (suc a) f (run a last.1) (omega arith) fails.2
          (omega arith) (ap wait {y = a + suc (suc k)} (omega arith) ∙ ends)

  -- What every call keeps, the retries keep.
  pub retry_from-keeps :
      (P : C → Type 0)
      → ((a : ℕ) (c : C) → P c → P ((run a c).1))
      → (n a : ℕ) (last : (Value × Option Failure) × C) → P last.1
      → P ((retry_from wait run n a last).1)
  unfolding retry_from
  retry_from-keeps P keeps zero a last h = h
  retry_from-keeps P keeps (suc n) a last h =
      elim (Option-cases (if ltb 1 a then wait a else none)) [
        | inr (f, ends) ↦ subst P (ap (λ o. (waited n a last o).1) (sym ends)) h
        | inl goes ↦
            let called_once = keeps a last.1 h in
            elim (Option-cases ((run a last.1).0.1)) [
              | inl good ↦
                  subst P
                    (ap (λ r. r.1) (sym (one_round n a last goes ∙ ap (called n a last) good)))
                    called_once
              | inr (f, bad) ↦
                  subst P (ap (λ r. r.1) (sym (step_fails n a f last goes bad)))
                    (retry_from-keeps P keeps n (suc a) (run a last.1) called_once)
            ]
      ]

  -- If the first `k` calls fail and every wait between them ends well, a call `k` that succeeds is the
  -- last one that is made and gives the result, where more than `k` attempts are allowed.
  pub execute_with_retry-call :
      (k : ℕ) (retry : Option RetryConfig) (c : C)
      → k < max_attempts retry
      → Fail 1 k c
      → Made 1 k
      → (call 1 k c).0.1 ≡ none
      → execute_with_retry wait run retry c ≡ call 1 k c
  unfolding execute_with_retry
  execute_with_retry-call k retry c lt =
      retry_from-call k (max_attempts retry) 1 ((Value.null, none), c) lt

  -- If all attempts that are allowed, one at least, are made and fail, the result is that of the last
  -- call.
  pub execute_with_retry-failure :
      (n : ℕ) (retry : Option RetryConfig) (c : C)
      → max_attempts retry ≡ suc n
      → Fail 1 (suc n) c
      → execute_with_retry wait run retry c ≡ call 1 n c
  unfolding execute_with_retry
  execute_with_retry-failure n retry c e fails =
      ap (λ m. retry_from wait run m 1 ((Value.null, none), c)) e
      ∙ retry_from-last n 1 ((Value.null, none), c) fails

  -- If `k + 1` calls fail and the wait for the next attempt is interrupted, no further call is made and
  -- the result is the error of the wait.
  pub execute_with_retry-interrupted :
      (k : ℕ) (f : Failure) (retry : Option RetryConfig) (c : C)
      → suc k < max_attempts retry
      → Fail 1 (suc k) c
      → wait (suc (suc k)) ≡ some f
      → execute_with_retry wait run retry c ≡ ((Value.null, some f), after 1 (suc k) c)
  unfolding execute_with_retry
  execute_with_retry-interrupted k f retry c lt fails ends =
      retry_from-interrupted k (max_attempts retry) 1 f ((Value.null, none), c) lt fails
        (omega arith) (ap wait {x = 1 + suc k} {y = suc (suc k)} (omega arith) ∙ ends)
