-- ===== src/Action/Loop/Samples.antt =====
-- A loop over two items whose second iteration fails, and its theorem there.
use tailflow_agent.Prelude.{
  String, ◌≡◌, refl, Option, none, some, List, [], ◌∷◌, length, if◌then◌else◌, ◌==◌,
}
use tailflow_agent.Prelude.Dict.{Dict, lookup, get_or}
use tailflow_agent.Value.{Value, Items, Fields}
use tailflow_agent.Value.Print.{print_value}
use tailflow_agent.Engine.Node.Samples.{empty}
use tailflow_agent.Action.Loop.{
  Callbacks, ActionResult, LoopResult, PipelineStep, execute_loop, execute_pipeline,
  parse_loop_params,
}
use tailflow_agent.Action.Loop.Tally.{Tally}
use tailflow_agent.Action.Loop.Pipeline.{AllRun, execute_pipeline_correct}

abbrev callbacks : Callbacks
callbacks = record {
  run_action = λ idx i action config vars.
      if print_value (get_or (lookup "item" vars) Value.null) == "b"
      then (Value.null, some "no such host")
      else (Value.text action, none);
  quote = λ s. s;
}

abbrev config : Dict Value
config =
    ("items", Value.array (Items.cons (Value.text "a") (Items.cons (Value.text "b") Items.nil)))
    ∷ ("error_policy", Value.text "continue")
    ∷ []

abbrev items : List Value
items = Value.text "a" ∷ Value.text "b" ∷ []

abbrev steps : List PipelineStep
steps =
    record { action = "http"; config = Fields.end }
    ∷ record { action = "log"; config = Fields.end }
    ∷ []

legacy : (execute_loop none config empty).0 ≡ LoopResult.legacy items
unfolding execute_loop lookup
legacy = refl

execute_pipeline_correct_example :
    (rs : List (List ActionResult × Option String)) × (length items ≡ length rs)
    × AllRun callbacks (parse_loop_params config) steps 0 items rs
    × Tally config items rs
        (execute_pipeline callbacks config items (parse_loop_params config) steps empty).0
execute_pipeline_correct_example =
    execute_pipeline_correct callbacks config items (parse_loop_params config) steps empty
