-- ===== src/Parser/Validate.antt =====
-- internal/parser/parser.go: the validation of a parsed workflow. An error is a `Message` with what
-- its text names; `errors.Join` of no errors is nil, so validation succeeds if the list is empty.
-- The YAML decoder (`Parse`, `ParseBytes`) is not modelled.
pub mod Steps
pub mod Whole
pub mod Samples
use tailflow_agent.Prelude.{
  ℕ, suc, ◌+◌, String, Bool, true, false, not, ◌&&◌, ◌||◌, Option, none, some, List, [], ◌∷◌, ◌++◌,
  length, contains, eqb, ltb, if◌then◌else◌, ◌==◌,
}
use tailflow_agent.Prelude.Dict.{is_some}
use tailflow_agent.Prelude.Int.{lt_zero}
use tailflow_agent.Parser.Schema.{
  Stage, Param, TestCase, TestCaseExpect, ErrorStep, Step, HttpTrigger, WebhookTrigger,
  ScheduleTrigger, RabbitMqTrigger, Trigger, MemoryPersistence, MariaDbPersistence, Persistence,
  Workflow,
}

-- `line` is the source line, `index` the place in its list, the texts are ids and names.
pub data Message : Type 0 where
  version_required name_required step_required stage_required : Message
  unsupported_version : String → Message
  unnamed_stage : (line index : ℕ) → Message
  duplicate_stage : (line : ℕ) → String → Message
  step_without_stage : (line : ℕ) → String → Message
  unknown_stage : (line : ℕ) (id stage : String) → Message
  unnamed_step : (line index : ℕ) → Message
  duplicate_step : (line : ℕ) → String → Message
  action_required : (line : ℕ) → String → Message
  invalid_error_policy : (line : ℕ) (id policy : String) → Message
  invalid_on_recovery : (line : ℕ) → String → Message
  self_dependency : (line : ℕ) → String → Message
  unknown_dependency : (line : ℕ) (id dep : String) → Message
  unnamed_param : (line index : ℕ) → Message
  untyped_param : (line : ℕ) → String → Message
  unsupported_type : (line : ℕ) (name type : String) → Message
  several_triggers http_path http_method webhook_path schedule_cron rabbitmq_url rabbitmq_queue :
      Message
  unnamed_test : (line : ℕ) (id : String) (index : ℕ) → Message
  duplicate_test : (line : ℕ) (id name : String) → Message
  output_and_error : (line : ℕ) (id name : String) → Message
  invalid_expect : (line : ℕ) (id name status : String) → Message
  on_error_id : (step : String) (index : ℕ) → Message
  on_error_action : (step : String) (index : ℕ) (id : String) → Message
  workflow_on_error_id : (index : ℕ) → Message
  workflow_on_error_action : (index : ℕ) (id : String) → Message
  other_backend negative_cap mariadb_missing dsn_required : Message
  unsupported_persistence : String → Message

-- `if bad { errs = append(errs, message) }`
abbrev pub reject : Bool → Message → List Message
reject bad m = if bad then m ∷ [] else []

-- The checks of one step's fields, in the first loop of `validateSteps`.
pub step_fields : Step → List Message
step_fields s =
    reject (s.action == "") (action_required s.line s.id)
    ++ (reject
          (not (s.error_policy == "")
            && (not (s.error_policy == "stop")
                && (not (s.error_policy == "continue") && not (s.error_policy == "ignore"))))
          (invalid_error_policy s.line s.id s.error_policy)
        ++ reject
            (not (s.on_recovery == "")
              && (not (s.on_recovery == "retry")
                  && (not (s.on_recovery == "skip") && not (s.on_recovery == "fail"))))
            (invalid_on_recovery s.line s.id))

-- The first loop of `validateSteps`: the errors, and the ids that it has put into the map.
pub check_steps : ℕ → List String → List Step → List Message × List String
check_steps i seen [] = ([], seen)
check_steps i seen (s ∷ ss) =
    let skip = check_steps (suc i) seen ss in
    let keep = check_steps (suc i) (s.id ∷ seen) ss in
    if s.id == ""
    then (unnamed_step s.line i ∷ skip.0, skip.1)
    else if contains s.id seen
    then (duplicate_step s.line s.id ∷ skip.0, skip.1)
    else (step_fields s ++ keep.0, keep.1)

-- The second loop, over the dependencies of each step.
pub check_deps : List String → Step → List String → List Message
check_deps known s [] = []
check_deps known s (dep ∷ deps) =
    (if dep == s.id
      then self_dependency s.line s.id ∷ []
      else reject (not (contains dep known)) (unknown_dependency s.line s.id dep))
    ++ check_deps known s deps

pub check_all_deps : List String → List Step → List Message
check_all_deps known [] = []
check_all_deps known (s ∷ ss) = check_deps known s s.depends_on ++ check_all_deps known ss

pub validate_steps : List Step → List Message
validate_steps ss = let (errs, known) = check_steps 0 [] ss in errs ++ check_all_deps known ss

-- The first loop of `validateStages`, and the names in its map.
pub check_stages : ℕ → List String → List Stage → List Message × List String
check_stages i seen [] = ([], seen)
check_stages i seen (s ∷ ss) =
    let skip = check_stages (suc i) seen ss in
    let keep = check_stages (suc i) (s.name ∷ seen) ss in
    if s.name == ""
    then (unnamed_stage s.line i ∷ skip.0, skip.1)
    else if contains s.name seen
    then (duplicate_stage s.line s.name ∷ skip.0, skip.1)
    else keep

pub check_step_stages : List String → List Step → List Message
check_step_stages names [] = []
check_step_stages names (s ∷ ss) =
    (if s.stage == ""
      then step_without_stage s.line s.id ∷ []
      else reject (not (contains s.stage names)) (unknown_stage s.line s.id s.stage))
    ++ check_step_stages names ss

pub validate_stages : List Stage → List Step → List Message
validate_stages stages steps =
    let (errs, names) = check_stages 0 [] stages in
    reject (eqb (length stages) 0) stage_required ++ (errs ++ check_step_stages names steps)

pub validate_params : ℕ → List Param → List Message
validate_params i [] = []
validate_params i (p ∷ ps) =
    (if p.name == ""
      then unnamed_param p.line i ∷ []
      else if p.type == ""
      then untyped_param p.line p.name ∷ []
      else reject
          (not (p.type == "string" || (p.type == "bool" || (p.type == "int" || p.type == "float"))))
          (unsupported_type p.line p.name p.type))
    ++ validate_params (suc i) ps

abbrev pub bool_to_int : Bool → ℕ
bool_to_int b = if b then 1 else 0

check_http : Option HttpTrigger → List Message
check_http none = []
check_http (some h) = reject (h.path == "") http_path ++ reject (h.method == "") http_method

check_webhook : Option WebhookTrigger → List Message
check_webhook none = []
check_webhook (some w) = reject (w.path == "") webhook_path

check_schedule : Option ScheduleTrigger → List Message
check_schedule none = []
check_schedule (some s) = reject (s.cron == "") schedule_cron

check_rabbitmq : Option RabbitMqTrigger → List Message
check_rabbitmq none = []
check_rabbitmq (some r) = reject (r.url == "") rabbitmq_url ++ reject (r.queue == "") rabbitmq_queue

-- How many of the four triggers are given.
abbrev pub trigger_count : Trigger → ℕ
trigger_count t =
    bool_to_int (is_some t.http)
    + bool_to_int (is_some t.webhook)
    + bool_to_int (is_some t.schedule)
    + bool_to_int (is_some t.rabbitmq)

pub validate_trigger : Option Trigger → List Message
unfolding check_http check_webhook check_schedule check_rabbitmq
validate_trigger none = []
validate_trigger (some t) =
    reject (ltb 1 (trigger_count t)) several_triggers
    ++ (check_http t.http
        ++ (check_webhook t.webhook ++ (check_schedule t.schedule ++ check_rabbitmq t.rabbitmq)))

-- `tc.Expect != nil && tc.Expect.Status != ""`, and then the status is one of three.
abbrev pub bad_expect : Option TestCaseExpect → Bool
bad_expect none = false
bad_expect (some e) =
    not (e.status == "")
    && not (e.status == "success" || (e.status == "failed" || e.status == "skipped"))

abbrev pub expect_status : Option TestCaseExpect → String
expect_status none = ""
expect_status (some e) = e.status

pub check_tests : Step → ℕ → List String → List TestCase → List Message
check_tests s i names [] = []
check_tests s i names (tc ∷ tcs) =
    let skip = check_tests s (suc i) names tcs in
    let keep = check_tests s (suc i) (tc.name ∷ names) tcs in
    if tc.name == ""
    then unnamed_test s.line s.id i ∷ skip
    else if contains tc.name names
    then duplicate_test s.line s.id tc.name ∷ skip
    else (reject (is_some tc.output && is_some tc.error) (output_and_error s.line s.id tc.name)
        ++ (reject (bad_expect tc.expect)
              (invalid_expect s.line s.id tc.name (expect_status tc.expect))
            ++ keep))

pub validate_testing : List Step → List Message
unfolding check_tests
validate_testing [] = []
validate_testing (s ∷ ss) = check_tests s 0 [] s.testing ++ validate_testing ss

pub check_step_on_error : String → ℕ → List ErrorStep → List Message
check_step_on_error id j [] = []
check_step_on_error id j (es ∷ rest) =
    (if es.id == ""
      then on_error_id id j ∷ []
      else reject (es.action == "") (on_error_action id j es.id))
    ++ check_step_on_error id (suc j) rest

pub check_steps_on_error : List Step → List Message
check_steps_on_error [] = []
check_steps_on_error (s ∷ ss) = check_step_on_error s.id 0 s.on_error ++ check_steps_on_error ss

pub check_workflow_on_error : ℕ → List ErrorStep → List Message
check_workflow_on_error j [] = []
check_workflow_on_error j (es ∷ rest) =
    (if es.id == ""
      then workflow_on_error_id j ∷ []
      else reject (es.action == "") (workflow_on_error_action j es.id))
    ++ check_workflow_on_error (suc j) rest

pub validate_on_error : Workflow → List Message
unfolding check_steps_on_error check_step_on_error check_workflow_on_error
validate_on_error w = check_steps_on_error w.steps ++ check_workflow_on_error 0 w.on_error

abbrev pub negative_cap? : Option MemoryPersistence → Bool
negative_cap? none = false
negative_cap? (some m) = lt_zero m.max_executions

check_mariadb : Option MariaDbPersistence → Option MemoryPersistence → List Message
check_mariadb none memory = mariadb_missing ∷ []
check_mariadb (some m) memory =
    if m.dsn == "" then dsn_required ∷ [] else reject (is_some memory) other_backend

-- Each case of the `switch` returns at its first error.
pub validate_persistence : Option Persistence → List Message
unfolding check_mariadb
validate_persistence none = []
validate_persistence (some p) =
    if p.type == "" || p.type == "memory"
    then (if is_some p.mariadb
        then other_backend ∷ []
        else reject (negative_cap? p.memory) negative_cap)
    else if p.type == "mariadb"
    then check_mariadb p.mariadb p.memory
    else unsupported_persistence p.type ∷ []

-- The tests that `Validate` makes itself.
pub validate_header : Workflow → List Message
validate_header w =
    reject (w.version == "") version_required
    ++ (reject (not (w.version == "") && not (w.version == "2.0")) (unsupported_version w.version)
        ++ (reject (w.name == "") name_required ++ reject (eqb (length w.steps) 0) step_required))

pub validate : Workflow → List Message
validate w =
    validate_header w
    ++ (validate_stages w.stages w.steps
        ++ (validate_steps w.steps
            ++ (validate_params 0 w.params
                ++ (validate_trigger w.trigger
                    ++ (validate_on_error w
                        ++ (validate_testing w.steps ++ validate_persistence w.persistence))))))
