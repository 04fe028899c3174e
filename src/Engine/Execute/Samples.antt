-- ===== src/Engine/Execute/Samples.antt =====
-- A step that runs, a step that is mocked, and the theorems of `executeNode` there.
use tailflow_agent.Prelude.{◌≡◌, refl, none, some, []}
use tailflow_agent.Prelude.Dict.{lookup, insert}
use tailflow_agent.Value.{Value}
use tailflow_agent.Runtime.{set_step_result, get_step_result}
use tailflow_agent.Engine.Dag.Samples.{step}
use tailflow_agent.Engine.Node.{
  other, Services, handle_recovery, handle_step_error, execute_on_error, execute_error_step,
  execute_with_retry, retry_from, record_step_success,
}
use tailflow_agent.Engine.Node.Samples.{services, failing, empty}
use tailflow_agent.Engine.TestCase.{find_test_case, apply_test_mock, check_test_expect}
use tailflow_agent.Engine.Execute.{
  evaluate_when, extract_loop_config, resolve_step_config, run_action, mock_of, run_mock, run_step,
  execute_node,
}
use tailflow_agent.Engine.Execute.Ended.{Finished, execute_node-Finished}
use tailflow_agent.Engine.Execute.Frame.{execute_node-others}

-- The action of the step fails, and the step goes on.
abbrev broken : Services
broken = record services {
  execute =
      λ action config c. record { output = Value.null; error = some (other "x"); context = c };
}

unfoldable program : Unit {0}
unfolding execute_node run_step run_action run_mock mock_of resolve_step_config extract_loop_config
    evaluate_when handle_recovery handle_step_error execute_on_error execute_error_step
    execute_with_retry retry_from record_step_success find_test_case apply_test_mock
    check_test_expect set_step_result get_step_result lookup insert
program = tt

goes_on : (execute_node broken failing 1 2 empty).0 ≡ none
unfolding program
goes_on = refl

stops : (execute_node broken (step "a" [] none) 1 2 empty).0 ≡ some (other "x")
unfolding program
stops = refl

execute_node-Finished_example : Finished failing (execute_node broken failing 1 2 empty).1
execute_node-Finished_example =
    execute_node-Finished broken failing 1 2 empty (record { keeps = λ action config c. refl })
      (refl, tt) goes_on

execute_node-others_example :
    get_step_result "b" (execute_node broken failing 1 2 empty).1 ≡ get_step_result "b" empty
execute_node-others_example =
    execute_node-others failing "b" refl broken (record { keeps = λ action config c. refl })
      (refl, tt) 1 2 empty
