-- ===== src/Action/Loop/Pipeline.antt =====
-- internal/action/loop.go, executePipeline: what an iteration runs, and on which variables.
use tailflow_agent.Prelude.{
  ℕ, suc, String, ◌≡◌, refl, ap, ◌∙◌, inl, inr, false, Option, none, some, List, [], ◌∷◌, length,
  ◌==◌, eq_refl, Option-cases,
}
use tailflow_agent.Prelude.Dict.{Dict, lookup, insert, lookup-insert}
use tailflow_agent.Prelude.Texts.{print_nat}
use tailflow_agent.Value.{Value, Fields}
use tailflow_agent.Runtime.{ExecutionContext}
use tailflow_agent.Action.Loop.{
  Callbacks, LoopParams, PipelineStep, ActionResult, deep_copy, deep_copy_map, step_error,
  loop_vars, run_pipeline_steps, iterate, extract_result_detail, execute_pipeline,
}
use tailflow_agent.Action.Loop.Tally.{Tally, build_loop_output-Tally}

mutual
  deep_copy-same : (v : Value) → deep_copy v ≡ v
  deep_copy-same (Value.object fs) = ap Value.object (deep_copy_map-same fs)
  deep_copy-same (Value.array xs) = refl
  deep_copy-same (Value.typed v) = refl
  deep_copy-same Value.null = refl
  deep_copy-same (Value.bool b) = refl
  deep_copy-same (Value.number n) = refl
  deep_copy-same (Value.text s) = refl

  deep_copy_map-same : (fs : Fields) → deep_copy_map fs ≡ fs
  deep_copy_map-same Fields.end = refl
  deep_copy_map-same (Fields.field k v fs) = rw (deep_copy-same v, deep_copy_map-same fs) refl

-- The runs of the actions of iteration `idx` from number `i` on, with the variables at hand: they run in
-- their order, each on its own configuration and with the output of the one before it as `prev`, up to
-- the first that fails, whose error is the last result.
pub data Runs (cb : Callbacks) (total idx : ℕ)
    : ℕ → List PipelineStep → Dict Value → List ActionResult → Option String → Type 0 where
  done : (i : ℕ) (vars : Dict Value) → Runs cb total idx i [] vars [] none
  fails :
      (i : ℕ) (s : PipelineStep) (steps : List PipelineStep) (vars : Dict Value) (output : Value)
      (cause : String)
      → cb.run_action idx i s.action s.config vars ≡ (output, some cause)
      → Runs cb total idx i
          (s ∷ steps)
          vars
          (record { action = s.action; output = output; error = cause } ∷ [])
          (some (step_error cb s i total cause))
  goes_on :
      (i : ℕ) (s : PipelineStep) (steps : List PipelineStep) (vars : Dict Value) (output : Value)
      (results : List ActionResult) (error : Option String)
      → cb.run_action idx i s.action s.config vars ≡ (output, none)
      → Runs cb total idx (suc i) steps (insert "prev" output vars) results error
      → Runs cb total idx i
          (s ∷ steps)
          vars
          (record { action = s.action; output = output; error = "" } ∷ results)
          error

run_pipeline_steps-Runs :
    (cb : Callbacks) (total i : ℕ) (steps : List PipelineStep) (idx : ℕ) (vars : Dict Value)
    → let r = run_pipeline_steps cb total i steps idx vars in Runs cb total idx i steps vars r.0 r.1
unfolding run_pipeline_steps
run_pipeline_steps-Runs cb total i [] idx vars = Runs.done i vars
run_pipeline_steps-Runs cb total i (s ∷ steps) idx vars =
    let call = cb.run_action idx i s.action (deep_copy_map s.config) vars in
    let same : cb.run_action idx i s.action s.config vars ≡ call =
      rw (deep_copy_map-same s.config) refl in
    elim (Option-cases (call.1)) [
      | inr (cause, e) ↦
          rw (e, run_pipeline_steps)
            (Runs.fails i s steps vars call.0 cause (same ∙ ap (λ o. (call.0, o)) e))
      | inl e ↦
          rw (e, run_pipeline_steps)
            (Runs.goes_on i s steps vars call.0 _ _ (same ∙ ap (λ o. (call.0, o)) e)
              (run_pipeline_steps-Runs cb total (suc i) steps idx (insert "prev" call.0 vars)))
    ]

-- The variables that an iteration starts with: its number, its item (where the two names differ), and no
-- others.
pub record StartsWith (lp : LoopParams) (item : Value) (i : ℕ) (vars : Dict Value) : Type 0 where
  pub index : lookup lp.index_name vars ≡ some (Value.number (print_nat i))
  pub here : (lp.index_name == lp.var_name) ≡ false → lookup lp.var_name vars ≡ some item
  pub others :
      (k : String)
      → (lp.index_name == k) ≡ false
      → (lp.var_name == k) ≡ false
      → lookup k vars ≡ none

loop_vars-StartsWith :
    (lp : LoopParams) (item : Value) (i : ℕ) → StartsWith lp item i (loop_vars lp item i)
unfolding lookup
loop_vars-StartsWith lp item i =
    let number = Value.number (print_nat i) in
    let one = insert lp.var_name item [] in
    record {
      index =
          lookup-insert lp.index_name lp.index_name number one ∙ rw (eq_refl lp.index_name) refl;
      here = λ apart.
          lookup-insert lp.index_name lp.var_name number one
          ∙ rw apart
              (lookup-insert lp.var_name lp.var_name item [] ∙ rw (eq_refl lp.var_name) refl);
      others = λ k apart other.
          lookup-insert lp.index_name k number one
          ∙ rw apart (lookup-insert lp.var_name k item [] ∙ rw other refl);
    }

-- Every item, from number `i` on, has its own iteration, which starts with that item and its number.
abbrev pub AllRun :
    Callbacks
    → LoopParams
    → List PipelineStep
    → ℕ
    → List Value
    → List (List ActionResult × Option String)
    → Type 0
AllRun cb lp pipeline i [] rs = rs ≡ []
AllRun cb lp pipeline i (item ∷ items) [] = ⊥
AllRun cb lp pipeline i (item ∷ items) (r ∷ rs) =
    ((vars : Dict Value) × StartsWith lp item i vars
      × Runs cb (length pipeline) i 0 pipeline vars r.0 r.1)
    × AllRun cb lp pipeline (suc i) items rs

iterate-AllRun :
    (cb : Callbacks) (lp : LoopParams) (pipeline : List PipelineStep) (i : ℕ) (items : List Value)
    → AllRun cb lp pipeline i items
        (iterate (run_pipeline_steps cb (length pipeline) 0 pipeline) lp i items)
unfolding iterate
iterate-AllRun cb lp pipeline i [] = refl
iterate-AllRun cb lp pipeline i (item ∷ items) = (
  (
    loop_vars lp item i,
    loop_vars-StartsWith lp item i,
    run_pipeline_steps-Runs cb (length pipeline) 0 pipeline i (loop_vars lp item i),
  ),
  iterate-AllRun cb lp pipeline (suc i) items,
)

length-iterate :
    {T : Type 0} (body : ℕ → Dict Value → T × Option String) (lp : LoopParams) (i : ℕ)
    (items : List Value)
    → length items ≡ length (iterate body lp i items)
unfolding iterate
length-iterate body lp i [] = refl
length-iterate body lp i (item ∷ items) = ap suc (length-iterate body lp (suc i) items)

-- Every item has an iteration, which starts with the item and its number as its variables (the number
-- alone, where the two have one name) and runs the actions in their order, each with the output of the one before it as `prev`: all of them, or those up to
-- the first that fails. The output has the results of all the iterations in their order; the loop returns
-- an error exactly where an iteration failed and the policy is not to go on, and otherwise its summary
-- lists the iterations that failed, and its counts add up to the number of items.
pub execute_pipeline_correct :
    (cb : Callbacks) (config : Dict Value) (items : List Value) (lp : LoopParams)
    (pipeline : List PipelineStep) (c : ExecutionContext)
    → (rs : List (List ActionResult × Option String)) × (length items ≡ length rs)
      × AllRun cb lp pipeline 0 items rs
      × Tally config items rs (execute_pipeline cb config items lp pipeline c).0
unfolding execute_pipeline
execute_pipeline_correct cb config items lp pipeline c =
    let body = run_pipeline_steps cb (length pipeline) 0 pipeline in
    let rs = iterate body lp 0 items in
    (
      rs,
      length-iterate body lp 0 items,
      iterate-AllRun cb lp pipeline 0 items,
      build_loop_output-Tally extract_result_detail config items rs
          (length-iterate body lp 0 items),
    )
