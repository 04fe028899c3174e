-- ===== src/Engine/Node/Recovery.antt =====
-- internal/engine/engine_node.go and engine_result.go: what a resumed execution runs again, and the
-- status of an execution.
use tailflow_agent.Prelude.{
  ℕ, String, ◌≡◌, ◌⊎◌, refl, sym, ap, ◌∙◌, if◌then◌else◌, inl, inr, Bool, true, false, ◌||◌, Option,
  none, some, arith, ◌==◌, eq_iff, Bool-cases, Option-cases, subst,
}
use tailflow_agent.Prelude.Dict.{lookup-insert_self, lookup-erase, lookup-erase_self}
use tailflow_agent.Parser.Schema.{Step}
use tailflow_agent.Runtime.{
  StepResult, ExecutionContext, set_step_result, get_step_result, clear_step_result,
}
use tailflow_agent.Engine.Node.{Failure, handle_recovery}
use tailflow_agent.Engine.Node.Errors.{set_step_result-others}
use tailflow_agent.Status

-- The step has a result with the status.
abbrev pub HasStatus : String → String → ExecutionContext → Type 0
HasStatus id status c = (r : StepResult) × (get_step_result id c ≡ some r) × (r.status ≡ status)

-- What a step that is not run again is left with: a success or a skip and no error, or a failure and an
-- error.
abbrev pub Settled : String → Option Failure → ExecutionContext → Type 0
Settled id error c =
    ((error ≡ none) × (HasStatus id Status.success c ⊎ HasStatus id Status.skipped c))
    ⊎ (((f : Failure) × (error ≡ some f)) × HasStatus id Status.failed c)

-- No result, or one that is neither a success nor skipped nor running.
abbrev pub IsOpen : Option StepResult → Type 0
IsOpen none = Unit
IsOpen (some r) =
    (r.status == Status.success || r.status == Status.skipped || r.status == Status.running) ≡ false

-- What a step that is to run again is left with.
abbrev pub RunsAgain : String → Option Failure → ExecutionContext → Type 0
RunsAgain id error c = (error ≡ none) × IsOpen (get_step_result id c)

abbrev pub Recovered : String → Bool × Option Failure × ExecutionContext → Type 0
Recovered id t = ((t.0 ≡ true) × Settled id t.1 t.2) ⊎ ((t.0 ≡ false) × RunsAgain id t.1 t.2)

pub get-set :
    (id : String) (r : StepResult) (c : ExecutionContext)
    → get_step_result id (set_step_result id r c) ≡ some r
unfolding get_step_result set_step_result
get-set id r c = lookup-insert_self id r c.steps

get-clear :
    (id : String) (c : ExecutionContext) → get_step_result id (clear_step_result id c) ≡ none
unfolding get_step_result clear_step_result
get-clear id c = lookup-erase_self id c.steps

module _ (s : Step) (now : ℕ) (c : ExecutionContext) (resumed : c.resumed ≡ true) where
  of_running :
      (r : StepResult)
      → get_step_result s.id c ≡ some r
      → (r.status == Status.success || r.status == Status.skipped) ≡ false
      → (r.status == Status.running) ≡ true
      → Recovered s.id (handle_recovery s now c)
  unfolding handle_recovery
  of_running r e done runs = elim (Bool-cases (s.on_recovery == "skip")) [
    | inl skip ↦
        rw (resumed, e, done, runs, skip, handle_recovery)
          (inl (refl, inl (refl, inl (_, get-set s.id _ c, refl))))
    | inr rest ↦ elim (Bool-cases (s.on_recovery == "fail")) [
      | inl fail ↦
          rw (resumed, e, done, runs, rest, fail, handle_recovery)
            (inl (refl, inr ((_, refl), (_, get-set s.id _ c, refl))))
      | inr retry ↦
          rw (resumed, e, done, runs, rest, retry, handle_recovery)
            (inr (refl, (refl, subst IsOpen (sym (get-clear s.id c)) tt)))
    ]
  ]

  of_result :
      (r : StepResult) → get_step_result s.id c ≡ some r → Recovered s.id (handle_recovery s now c)
  unfolding handle_recovery
  of_result r e = elim (Bool-cases (r.status == Status.success || r.status == Status.skipped)) [
    | inl done ↦
        let result : HasStatus s.id Status.success c ⊎ HasStatus s.id Status.skipped c =
          elim (Bool-cases (r.status == Status.success)) [
            | inl good ↦ inl (r, e, (eq_iff r.status Status.success).0 good)
            | inr not_good ↦ inr (r, e, (eq_iff r.status Status.skipped).0 (rw not_good at done))
          ] in
        rw (resumed, e, done, handle_recovery) (inl (refl, inl (refl, result)))
    | inr ahead ↦ elim (Bool-cases (r.status == Status.running)) [
      | inl runs ↦ of_running r e ahead runs
      | inr idle ↦
          let unsettled : IsOpen (some r) = ground (arith, ahead, idle) in
          rw (resumed, e, ahead, idle, handle_recovery)
            (inr (refl, (refl, subst IsOpen (sym e) unsettled)))
    ]
  ]

clear-others :
    (id k : String) (c : ExecutionContext)
    → (id == k) ≡ false
    → get_step_result k (clear_step_result id c) ≡ get_step_result k c
unfolding get_step_result clear_step_result
clear-others id k c apart = rw apart at (lookup-erase id k c.steps)

pub handle_recovery-others :
    (s : Step) (now : ℕ) (c : ExecutionContext) (k : String)
    → (s.id == k) ≡ false
    → get_step_result k (handle_recovery s now c).2 ≡ get_step_result k c
unfolding handle_recovery
handle_recovery-others s now c k apart =
    elim (Option-cases (if c.resumed then get_step_result s.id c else none)) [
      | inl fresh ↦ rw (fresh, handle_recovery) refl
      | inr (r, e) ↦ elim (Bool-cases (r.status == Status.success || r.status == Status.skipped)) [
        | inl done ↦ rw (e, done, handle_recovery) refl
        | inr ahead ↦ elim (Bool-cases (r.status == Status.running)) [
          | inr idle ↦ rw (e, ahead, idle, handle_recovery) refl
          | inl runs ↦ elim (Bool-cases (s.on_recovery == "skip")) [
            | inl skip ↦
                rw (e, ahead, runs, skip, handle_recovery) (set_step_result-others s.id k _ c apart)
            | inr rest ↦ elim (Bool-cases (s.on_recovery == "fail")) [
              | inl fail ↦
                  rw (e, ahead, runs, rest, fail, handle_recovery)
                    (set_step_result-others s.id k _ c apart)
              | inr retry ↦
                  rw (e, ahead, runs, rest, retry, handle_recovery) (clear-others s.id k c apart)
            ]
          ]
        ]
      ]
    ]

-- What recovery does of the result that the step had.
pub record Recovers (s : Step) (c : ExecutionContext) (t : Bool × Option Failure × ExecutionContext)
    : Type 0 where
  -- a success or a skip is kept, and the step is not run
  pub settled :
      (r : StepResult)
      → get_step_result s.id c ≡ some r
      → (r.status ≡ Status.success) ⊎ (r.status ≡ Status.skipped)
      → t ≡ (true, none, c)
  -- a step that was running is run again, without its old result, if it does not say otherwise
  pub interrupted :
      (r : StepResult)
      → get_step_result s.id c ≡ some r
      → r.status ≡ Status.running
      → ((s.on_recovery ≡ "skip") × (t.0 ≡ true) × HasStatus s.id Status.success t.2)
        ⊎ ((s.on_recovery ≡ "fail") × (t.0 ≡ true) × HasStatus s.id Status.failed t.2)
        ⊎ ((s.on_recovery == "skip" || s.on_recovery == "fail") ≡ false)
          × (t.0 ≡ false)
          × (get_step_result s.id t.2 ≡ none)
  -- any other step is run, with what it had
  pub unsettled : IsOpen (get_step_result s.id c) → t ≡ (false, none, c)
  -- no other step's result changes
  pub others : (k : String) → (s.id == k) ≡ false → get_step_result k t.2 ≡ get_step_result k c

module _ (s : Step) (now : ℕ) (c : ExecutionContext) (resumed : c.resumed ≡ true) where
  found :
      (o : Option StepResult)
      → get_step_result s.id c ≡ o
      → (if c.resumed then get_step_result s.id c else none) ≡ o
  found o e = ap (λ b. if b then get_step_result s.id c else none) resumed ∙ e

  keeps_settled :
      (r : StepResult)
      → get_step_result s.id c ≡ some r
      → (r.status ≡ Status.success) ⊎ (r.status ≡ Status.skipped)
      → handle_recovery s now c ≡ (true, none, c)
  unfolding handle_recovery
  keeps_settled r e (inl good) = rw (found (some r) e, good, handle_recovery) refl
  keeps_settled r e (inr good) = rw (found (some r) e, good, handle_recovery) refl

  runs_open :
      (o : Option StepResult)
      → get_step_result s.id c ≡ o
      → IsOpen o
      → handle_recovery s now c ≡ (false, none, c)
  unfolding handle_recovery
  runs_open none e h = rw (found none e, handle_recovery) refl
  runs_open (some r) e h =
      let ahead : (r.status == Status.success || r.status == Status.skipped) ≡ false =
        ground (arith, h) in
      let idle : (r.status == Status.running) ≡ false = ground (arith, h) in
      rw (found (some r) e, ahead, idle, handle_recovery) refl

  takes_up :
      (r : StepResult)
      → get_step_result s.id c ≡ some r
      → r.status ≡ Status.running
      → let t = handle_recovery s now c in
        ((s.on_recovery ≡ "skip") × (t.0 ≡ true) × HasStatus s.id Status.success t.2)
        ⊎ ((s.on_recovery ≡ "fail") × (t.0 ≡ true) × HasStatus s.id Status.failed t.2)
        ⊎ ((s.on_recovery == "skip" || s.on_recovery == "fail") ≡ false)
          × (t.0 ≡ false)
          × (get_step_result s.id t.2 ≡ none)
  unfolding handle_recovery
  takes_up r e runs = elim (Bool-cases (s.on_recovery == "skip")) [
    | inl skip ↦
        rw (resumed, e, runs, skip, handle_recovery)
          (inl ((eq_iff s.on_recovery "skip").0 skip, refl, (_, get-set s.id _ c, refl)))
    | inr rest ↦ elim (Bool-cases (s.on_recovery == "fail")) [
      | inl fail ↦
          rw (resumed, e, runs, rest, fail, handle_recovery)
            (inr (inl ((eq_iff s.on_recovery "fail").0 fail, refl, (_, get-set s.id _ c, refl))))
      | inr retry ↦
          rw (resumed, e, runs, rest, retry, handle_recovery)
            (inr (inr (refl, refl, get-clear s.id c)))
    ]
  ]

-- In a resumed execution, a step with a success or a skip is not run again and nothing changes. One that
-- was running becomes a success or a failure that is not run again, if it says so for its recovery, and
-- else it loses its result and is run again. Any other step is run, and nothing changes. The results of
-- the other steps stay as they are. So what is not run again has a settled result: a success or a skip
-- without an error, or a failure with one; and what is run again has no error and no result that is a
-- success, skipped or running.
pub handle_recovery_correct :
    (s : Step) (now : ℕ) (c : ExecutionContext)
    → c.resumed ≡ true
    → Recovered s.id (handle_recovery s now c) × Recovers s c (handle_recovery s now c)
unfolding handle_recovery
handle_recovery_correct s now c resumed = (
  elim (Option-cases (get_step_result s.id c)) [
    | inl e ↦ rw (resumed, e, handle_recovery) (inr (refl, (refl, subst IsOpen (sym e) tt)))
    | inr (r, e) ↦ of_result s now c resumed r e
  ],
  record {
    settled = keeps_settled s now c resumed;
    interrupted = takes_up s now c resumed;
    unsettled = runs_open s now c resumed _ refl;
    others = λ k other. handle_recovery-others s now c k other;
  },
)
