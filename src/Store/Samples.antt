-- ===== src/Store/Samples.antt =====
-- A store of two executions, and the theorems of the store there.
use tailflow_agent.Prelude.{String, ◌≡◌, refl, none, some, List, [], ◌∷◌, if◌then◌else◌, ◌==◌}
use tailflow_agent.Prelude.Dict.{lookup, insert, erase}
use tailflow_agent.Prelude.Int.{pos}
use tailflow_agent.Runtime.{StepResult}
use tailflow_agent.Store.{
  Execution, ExecutionStore, new_execution_store, evict, add, get, collect, list, update_execution,
  update_step,
}
use tailflow_agent.Store.Ring.{add_all, list-add_all}
use tailflow_agent.Store.Index.{IsIndexed, leaves, get-add, add-IsIndexed}
use tailflow_agent.Store.Steps.{Updates, update_step-Updates}

abbrev pub execution : String → Execution
execution id = record {
  id = id;
  workflow_name = "w";
  status = "running";
  params = none;
  steps = none;
  started_at = 0;
  finished_at = none;
  error = "";
}

abbrev three : List Execution
three = execution "x" ∷ execution "y" ∷ execution "z" ∷ []

unfoldable pub program : Unit {0}
unfolding new_execution_store add evict get list collect update_execution lookup insert erase
program = tt

-- The oldest of three is gone from a store of two.
get_oldest : get "x" (add_all three (new_execution_store (pos 2))) ≡ none
unfolding program
get_oldest = refl

list-add_all_example :
    list (add_all three (new_execution_store (pos 2))) ≡ execution "z" ∷ execution "y" ∷ []
list-add_all_example = list-add_all (pos 2) three

abbrev pub empty : ExecutionStore
empty = new_execution_store (pos 2)

pub empty-IsIndexed : IsIndexed empty
unfolding program
empty-IsIndexed k r found = absurd (cc found)

abbrev one : ExecutionStore
one = add (execution "x") empty

get-add_example :
    (get "x" one ≡ (
      if "x" == "x"
      then some (execution "x")
      else if leaves empty "x"
      then none
      else get "x" empty))
    × IsIndexed one
get-add_example = get-add (execution "x") empty "x" empty-IsIndexed

abbrev finish : Execution → Execution
finish e = record e { status = "success" }

abbrev wait : StepResult → StepResult
wait r = record r { status = "waiting" }

get-one : get "x" one ≡ some (execution "x")
unfolding program
get-one = refl

update_step-Updates_example :
    ((e' : Execution) × (get "x" (update_step "x" "a" wait one) ≡ some e')
      × Updates "a" wait (execution "x") e')
    × IsIndexed (update_step "x" "a" wait one)
update_step-Updates_example =
    update_step-Updates "x" "a" wait one (execution "x")
      (add-IsIndexed (execution "x") empty empty-IsIndexed) get-one
