-- ===== src/Engine/Node/Errors.antt =====
-- internal/engine/engine_outcome.go and engine_result.go: how a failed step counts.
use tailflow_agent.Prelude.{
  ℕ, String, ◌≡◌, refl, ◌∙◌, ap, inl, inr, false, ◌||◌, none, some, List, [], ◌∷◌, if◌then◌else◌,
  ◌==◌, Bool-cases, Option-cases, All,
}
use tailflow_agent.Prelude.Dict.{Dict, lookup, lookup-insert, lookup-insert_self}
use tailflow_agent.Value.{Value}
use tailflow_agent.Parser.Schema.{Step, ErrorStep}
use tailflow_agent.Runtime.{StepResult, ExecutionContext, set_step_result, get_step_result}
use tailflow_agent.Engine.Node.{
  Failure, Services, execute_error_step, execute_on_error, handle_ignored_error, handle_step_error,
  step_error, suppressed_output,
}
use tailflow_agent.Status

-- The actions leave the results of the steps to the executor.
pub record KeepsSteps (sv : Services) : Type 0 where
  pub keeps :
      (action : String) (config : Dict Value) (c : ExecutionContext)
      → (sv.execute action config c).context.steps ≡ c.steps

-- No step of the list has the id.
abbrev pub Avoids : String → List ErrorStep → Type 0
Avoids k ss = All (λ s. (s.id == k) ≡ false) ss

pub set_step_result-others :
    (id k : String) (r : StepResult) (c : ExecutionContext)
    → (id == k) ≡ false
    → lookup k (set_step_result id r c).steps ≡ lookup k c.steps
unfolding set_step_result
set_step_result-others id k r c other = rw other at (lookup-insert id k r c.steps)

pub set_step_result_self :
    (id : String) (r : StepResult) (c : ExecutionContext)
    → lookup id (set_step_result id r c).steps ≡ some r
unfolding set_step_result
set_step_result_self id r c = lookup-insert_self id r c.steps

module _ (sv : Services) (k : String) (keeps : KeepsSteps sv) where
  -- A round of `executeOnError` leaves the result of every step but its own.
  execute_error_step-others :
      (s : ErrorStep) (c : ExecutionContext)
      → (s.id == k) ≡ false
      → lookup k (execute_error_step sv s c).steps ≡ lookup k c.steps
  unfolding execute_error_step
  execute_error_step-others s c other = elim (Option-cases (sv.resolve_config s.config c)) [
    | inl bad ↦ rw (bad, execute_error_step) refl
    | inr (config, good) ↦ elim (Bool-cases (sv.registered s.action)) [
      | inr unknown ↦ rw (good, unknown, execute_error_step) refl
      | inl known ↦
          let same = ap (lookup k) (keeps.keeps s.action config c) in
          elim (Option-cases ((sv.execute s.action config c).error)) [
            | inl fine ↦
                rw (good, known, fine, execute_error_step)
                  (set_step_result-others s.id k _ ((sv.execute s.action config c).context) other
                    ∙ same)
            | inr (f, failed) ↦
                rw (good, known, failed, execute_error_step)
                  (set_step_result-others s.id k _ ((sv.execute s.action config c).context) other
                    ∙ same)
          ]
    ]
  ]

  execute_on_error-others :
      (ss : List ErrorStep) (c : ExecutionContext)
      → Avoids k ss
      → lookup k (execute_on_error sv ss c).steps ≡ lookup k c.steps
  unfolding execute_on_error
  execute_on_error-others [] c avoids = refl
  execute_on_error-others (s ∷ ss) c avoids =
      execute_on_error-others ss (execute_error_step sv s c) avoids.1
      ∙ execute_error_step-others s c avoids.0

-- The result of a failed step, as its error policy wants it.
abbrev pub recorded : Step → Value → Failure → ℕ → ℕ → StepResult
recorded s output f started now =
    if s.error_policy == "ignore"
    then record {
      status = Status.success;
      input = Value.null;
      output = suppressed_output f output;
      error = none;
      started_at = some started;
      finished_at = some now;
    }
    else record {
      status = Status.failed;
      input = Value.null;
      output = output;
      error = some (step_error s.id f);
      started_at = some started;
      finished_at = some now;
    }

-- If the actions leave the step results alone and no step of `on_error` has the failed step's id,
-- `handleStepError` returns the error exactly if the policy is neither `ignore` nor `continue`, and the
-- step's result is a success under `ignore` and a failure with the error otherwise.
pub handle_step_error_correct :
    (sv : Services) (s : Step) (output : Value) (f : Failure) (started now : ℕ)
    (c : ExecutionContext)
    → KeepsSteps sv
    → Avoids s.id s.on_error
    → ((handle_step_error sv s output f started now c).0
        ≡ (if s.error_policy == "ignore" || s.error_policy == "continue" then none else some f))
      × (get_step_result s.id (handle_step_error sv s output f started now c).1
          ≡ some (recorded s output f started now))
unfolding handle_step_error handle_ignored_error get_step_result
handle_step_error_correct sv s output f started now c keeps avoids =
    elim (Bool-cases (s.error_policy == "ignore")) [
      | inl ignored ↦ (
        rw (ignored, handle_step_error) refl,
        rw (ignored, handle_step_error) (set_step_result_self s.id _ c),
      )
      | inr strict ↦ (
        rw (strict, handle_step_error) refl,
        rw (strict, handle_step_error)
            (execute_on_error-others sv s.id keeps s.on_error _ avoids
              ∙ set_step_result_self s.id _ c),
      )
    ]

-- If the actions leave the step results alone, `handleStepError` changes the result of no step other
-- than the failed one and those of its `on_error`.
pub handle_step_error-others :
    (sv : Services) (s : Step) (output : Value) (f : Failure) (started now : ℕ)
    (c : ExecutionContext) (k : String)
    → KeepsSteps sv
    → (s.id == k) ≡ false
    → Avoids k s.on_error
    → get_step_result k (handle_step_error sv s output f started now c).1 ≡ get_step_result k c
unfolding handle_step_error handle_ignored_error get_step_result
handle_step_error-others sv s output f started now c k keeps other apart =
    elim (Bool-cases (s.error_policy == "ignore")) [
      | inl ignored ↦ rw (ignored, handle_step_error) (set_step_result-others s.id k _ c other)
      | inr strict ↦
          rw (strict, handle_step_error)
            (execute_on_error-others sv k keeps s.on_error _ apart
              ∙ set_step_result-others s.id k _ c other)
    ]
