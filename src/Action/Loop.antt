-- ===== src/Action/Loop.antt =====
-- internal/action/loop.go: the loop action. What `RunAction` returns may differ from call to call: it is
-- any function of the number of the iteration, of the number of the action in it, and of its arguments.
-- As there is one call for each pair of numbers, this covers all that actions can do to each other when
-- Go runs iterations at once; the results, which Go stores by their index, stand in their order. Log
-- lines, durations and `concurrency`, which only limits the iterations at once, are left out.
pub mod Tally
pub mod Pipeline
pub mod Samples
use tailflow_agent.Prelude.{
  ℕ, suc, ◌-◌, String, Bool, true, false, ◌⊎◌, inl, inr, Option, none, some, List, [], ◌∷◌, length,
  ltb, if◌then◌else◌, ◌==◌,
}
use tailflow_agent.Prelude.Dict.{Dict, lookup, insert, get_or, is_some}
use tailflow_agent.Prelude.Texts.{trim_space, last_line, print_nat}
use tailflow_agent.Value.{
  Value, Items, Fields, field_of, as_object, as_array, text_or_empty, to_list, of_list,
}
use tailflow_agent.Value.Print.{append, print_value}
use tailflow_agent.Runtime.{ExecutionContext, set_variable}
use tailflow_agent.Action.Array.{to_any_slice}

pub record Callbacks : Type 0 where
  -- `ctx.RunAction`: the output and the error of an action on a configuration and the loop's variables,
  -- in an iteration and at a place in it
  pub run_action : ℕ → ℕ → String → Fields → Dict Value → Value × Option String
  -- `%q` of fmt
  pub quote : String → String

pub record LoopParams : Type 0 where
  pub var_name : String
  pub index_name : String

abbrev name_or : Option Value → String → String
name_or none default_name = default_name
name_or (some v) default_name = print_value v

abbrev pub parse_loop_params : Dict Value → LoopParams
parse_loop_params config = record {
  var_name = name_or (lookup "as" config) "item";
  index_name = name_or (lookup "index" config) "index";
}

pub record PipelineStep : Type 0 where
  pub action : String
  pub config : Fields

-- A map that is missing is empty: ranging over it gives nothing.
abbrev fields_or_empty : Option Value → Fields
fields_or_empty (some (Value.object fs)) = fs
fields_or_empty _ = Fields.end

abbrev parse_step : Value → Option PipelineStep
parse_step (Value.object m) =
    let action = text_or_empty (field_of "action" m) in
    if action == ""
    then none
    else some (record { action = action; config = fields_or_empty (field_of "config" m) })
parse_step item = none

unfoldable pub parse_steps : List Value → Option (List PipelineStep)
parse_steps [] = some []
parse_steps (item ∷ items) = elim (parse_step item) [
  | none ↦ none
  | some s ↦ elim (parse_steps items) [ none ↦ none | some rest ↦ some (s ∷ rest) ]
]

-- `none` stands for every error.
unfoldable pub parse_pipeline_actions : Value → Option (List PipelineStep)
unfolding parse_steps
parse_pipeline_actions raw = elim (as_array raw) [
  | none ↦ none
  | some xs ↦ let items = to_list xs in if ltb 0 (length items) then parse_steps items else none
]

-- `deepCopyMap`
abbrev mutual
  pub deep_copy : Value → Value
  deep_copy Value.null = Value.null
  deep_copy (Value.bool b) = Value.bool b
  deep_copy (Value.number n) = Value.number n
  deep_copy (Value.text s) = Value.text s
  deep_copy (Value.array xs) = Value.array xs
  deep_copy (Value.typed v) = Value.typed v
  deep_copy (Value.object fs) = Value.object (deep_copy_map fs)

  pub deep_copy_map : Fields → Fields
  deep_copy_map Fields.end = Fields.end
  deep_copy_map (Fields.field k v fs) = Fields.field k (deep_copy v) (deep_copy_map fs)

pub record ActionResult : Type 0 where
  pub action : String
  pub output : Value
  pub error : String

abbrev pub step_error : Callbacks → PipelineStep → ℕ → ℕ → String → String
step_error cb s i total cause = append "action " (
    append (cb.quote s.action) (
      append " (step "
        (append (print_nat (suc i)) (append "/" (append (print_nat total) (append "): " cause))))))

-- The loop of `runPipelineSteps` in iteration `idx`, from step `i` on. The output of a step is the
-- variable `prev` of the next one.
unfoldable pub run_pipeline_steps :
    Callbacks → ℕ → ℕ → List PipelineStep → ℕ → Dict Value → List ActionResult × Option String
run_pipeline_steps cb total i [] idx vars = ([], none)
run_pipeline_steps cb total i (s ∷ steps) idx vars =
    let (output, error) = cb.run_action idx i s.action (deep_copy_map s.config) vars in
    elim error [
      | some cause ↦ (
        record { action = s.action; output = output; error = cause } ∷ [],
        some (step_error cb s i total cause),
      )
      | none ↦
          let (results, failed) =
            run_pipeline_steps cb total (suc i) steps idx (insert "prev" output vars) in
          (record { action = s.action; output = output; error = "" } ∷ results, failed)
    ]

-- The variables of one iteration.
abbrev pub loop_vars : LoopParams → Value → ℕ → Dict Value
loop_vars lp item i = insert lp.index_name (Value.number (print_nat i)) (insert lp.var_name item [])

-- The iterations from number `i` on: what each returns, and its error.
unfoldable pub iterate {ℓ} :
    {T : Type ℓ}
    → (ℕ → Dict Value → T × Option String)
    → LoopParams
    → ℕ
    → List Value
    → List (T × Option String)
iterate body lp i [] = []
iterate body lp i (item ∷ items) = body i (loop_vars lp item i) ∷ iterate body lp (suc i) items

-- The last line of the text that an action printed.
abbrev stdout_line : Value → String
stdout_line (Value.object m) =
    trim_space (last_line (trim_space (text_or_empty (field_of "stdout" m))))
stdout_line output = ""

-- `extractResultDetail`, which goes through the actions from the last one.
unfoldable pub extract_result_detail : List ActionResult → String
extract_result_detail [] = ""
extract_result_detail (r ∷ rs) =
    let later = extract_result_detail rs in if later == "" then stdout_line r.output else later

pub record LoopError : Type 0 where
  pub index : ℕ
  pub item : Value
  pub message : String
  pub detail : String

pub record Summary : Type 0 where
  pub errors : List LoopError
  pub failed : ℕ
  pub succeeded : ℕ

-- The output of the action: a map in Go, whose last three keys are there if there are errors.
pub record LoopOutput {ℓ} (T : Type ℓ) : Type ℓ where
  pub iterations : ℕ
  pub items : List Value
  pub results : List T
  pub summary : Option Summary

module _ {ℓ} {T : Type ℓ} where
  -- The loop over `errs`.
  unfoldable pub loop_errors :
      (T → String) → ℕ → List Value → List (T × Option String) → List LoopError
  loop_errors detail i items [] = []
  loop_errors detail i [] (r ∷ rs) = []
  loop_errors detail i (item ∷ items) (r ∷ rs) =
      let rest = loop_errors detail (suc i) items rs in
      elim (r.1) [
        | none ↦ rest
        | some m ↦ record { index = i; item = item; message = m; detail = detail r.0 } ∷ rest
      ]

  -- The error at `firstErrIdx`.
  unfoldable pub first_error : List (T × Option String) → String
  first_error [] = ""
  first_error (r ∷ rs) = elim (r.1) [ none ↦ first_error rs | some m ↦ m ]

  abbrev values_of : List (T × Option String) → List T
  values_of [] = []
  values_of (r ∷ rs) = r.0 ∷ values_of rs

  -- An error, where an iteration failed and the policy is not to go on.
  unfoldable pub build_loop_output :
      (T → String) → Dict Value → List Value → List (T × Option String) → LoopOutput T ⊎ String
  unfolding loop_errors first_error
  build_loop_output detail config items rs =
      let errors = loop_errors detail 0 items rs in
      let results = values_of rs in
      if ltb 0 (length errors)
      then if text_or_empty (lookup "error_policy" config) == "continue"
        then inl (record {
          iterations = length items;
          items = items;
          results = results;
          summary = some (record {
            errors = errors;
            failed = length errors;
            succeeded = length items - length errors;
          });
        })
        else inr (append "loop iteration failed: " (first_error rs))
      else inl
          (record { iterations = length items; items = items; results = results; summary = none })

-- `setLastIterationVars`, where the first item has number `i`.
unfoldable pub set_last_iteration_vars :
    LoopParams → ℕ → List Value → ExecutionContext → ExecutionContext
set_last_iteration_vars lp i [] c = c
set_last_iteration_vars lp i (item ∷ []) c =
    set_variable lp.index_name (Value.number (print_nat i)) (set_variable lp.var_name item c)
set_last_iteration_vars lp i (item ∷ next ∷ items) c =
    set_last_iteration_vars lp (suc i) (next ∷ items) c

unfoldable pub execute_single_action :
    Callbacks
    → Dict Value
    → List Value
    → LoopParams
    → String
    → Fields
    → ExecutionContext
    → (LoopOutput Value ⊎ String) × ExecutionContext
unfolding iterate build_loop_output set_last_iteration_vars
execute_single_action cb config items lp action action_config c = (
  build_loop_output (λ output. "") config items
      (iterate (λ idx. cb.run_action idx 0 action (deep_copy_map action_config)) lp 0 items),
  set_last_iteration_vars lp 0 items c,
)

unfoldable pub execute_pipeline :
    Callbacks
    → Dict Value
    → List Value
    → LoopParams
    → List PipelineStep
    → ExecutionContext
    → (LoopOutput (List ActionResult) ⊎ String) × ExecutionContext
unfolding iterate build_loop_output set_last_iteration_vars run_pipeline_steps extract_result_detail
execute_pipeline cb config items lp pipeline c = (
  build_loop_output extract_result_detail config items
      (iterate (run_pipeline_steps cb (length pipeline) 0 pipeline) lp 0 items),
  set_last_iteration_vars lp 0 items c,
)

-- `executeLegacy`, from item `i` on.
unfoldable pub execute_legacy : LoopParams → ℕ → List Value → ExecutionContext → ExecutionContext
execute_legacy lp i [] c = c
execute_legacy lp i (item ∷ items) c =
    execute_legacy lp (suc i) items
      (set_variable lp.index_name (Value.number (print_nat i)) (set_variable lp.var_name item c))

-- What `Execute` returns: the output of one of the three kinds of loop, or an error.
pub data LoopResult : Type 0 where
  pipeline : LoopOutput (List ActionResult) → LoopResult
  single : LoopOutput Value → LoopResult
  legacy : List Value → LoopResult
  error : String → LoopResult

abbrev wrap_error : String → LoopResult
wrap_error m = LoopResult.error (append "loop action: " m)

abbrev of_pipeline : LoopOutput (List ActionResult) ⊎ String → LoopResult
of_pipeline (inl o) = LoopResult.pipeline o
of_pipeline (inr m) = LoopResult.error m

abbrev of_single : LoopOutput Value ⊎ String → LoopResult
of_single (inl o) = LoopResult.single o
of_single (inr m) = LoopResult.error m

-- `callbacks` is absent where `RunAction` is nil.
unfoldable pub execute_loop :
    Option Callbacks → Dict Value → ExecutionContext → LoopResult × ExecutionContext
unfolding parse_pipeline_actions execute_pipeline execute_single_action execute_legacy
execute_loop callbacks config c = elim (to_any_slice (lookup "items" config)) [
  | none ↦ (wrap_error "'items' must be an array", c)
  | some items ↦
      let lp = parse_loop_params config in
      let action = text_or_empty (lookup "action" config) in
      elim (lookup "actions" config) [
        | some raw ↦ elim (parse_pipeline_actions raw) [
          | none ↦ (wrap_error "invalid actions", c)
          | some steps ↦ elim callbacks [
            | none ↦ (wrap_error "RunAction callback not available", c)
            | some cb ↦
                let (r, after) = execute_pipeline cb config items lp steps c in
                (of_pipeline r, after)
          ]
        ]
        | none ↦
            if action == ""
            then (LoopResult.legacy items, execute_legacy lp 0 items c)
            else elim callbacks [
              | none ↦ (wrap_error "RunAction callback not available", c)
              | some cb ↦
                  let (r, after) =
                    execute_single_action cb config items lp action
                      (fields_or_empty (lookup "action_config" config)) c in
                  (of_single r, after)
            ]
      ]
]
