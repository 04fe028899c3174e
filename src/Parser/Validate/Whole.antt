-- ===== src/Parser/Validate/Whole.antt =====
-- internal/parser/parser.go, Validate: what holds of a workflow that it accepts.
use tailflow_agent.Prelude.{
  ℕ, suc, ◌≤◌, String, ◌≡◌, ◌≢◌, refl, sym, true, ◌||◌, Option, none, some, List, [], ◌∷◌, ◌++◌,
  arith, length, contains, All, All-map, eq_iff, eqb, ltb, ap, ◌∙◌, ◌<◌,
}
use tailflow_agent.Parser.Schema.{Step, Stage, Trigger, Workflow}
use tailflow_agent.Parser.Validate.{
  reject, check_stages, check_step_stages, validate_stages, validate_steps, validate_trigger,
  validate_header, trigger_count, validate, validate_params,
}
use tailflow_agent.Parser.Validate.Steps.{append_nil_iff, ValidSteps, validate_steps_iff}
use tailflow_agent.Engine.Dag.{Dag, ok, build_dag}
use tailflow_agent.Engine.Dag.Complete.{AllDeps, WithoutGotos, build_dag_of_ranked}

abbrev pub names : List Stage → List String
names [] = []
names (s ∷ ss) = s.name ∷ names ss

-- Without errors, the map of the first loop of `validateStages` holds exactly the names.
check_stages_known :
    (i : ℕ) (seen : List String) (ss : List Stage)
    → (check_stages i seen ss).0 ≡ []
    → (k : String)
    → contains k (check_stages i seen ss).1 ≡ (contains k seen || contains k (names ss))
unfolding check_stages
check_stages_known i seen [] e k = ground arith
check_stages_known i seen (s ∷ ss) e k =
    ground (arith, check_stages_known (suc i) (s.name ∷ seen) ss (ground arith) k)

check_step_stages_sound :
    (known : List String) (ss : List Step)
    → check_step_stages known ss ≡ []
    → All (λ s. contains s.stage known ≡ true) ss
unfolding check_step_stages
check_step_stages_sound known [] e = tt
check_step_stages_sound known (s ∷ ss) e =
    let parts = (append_nil_iff _ (check_step_stages known ss)).0 e in
    (ground (arith, parts.0), check_step_stages_sound known ss parts.1)

-- Each step's stage is one of the stages.
validate_stages_sound :
    (stages : List Stage) (ss : List Step)
    → validate_stages stages ss ≡ []
    → All (λ s. contains s.stage (names stages) ≡ true) ss
unfolding validate_stages
validate_stages_sound stages ss e =
    let (errs, known) = check_stages 0 [] stages in
    let inner =
      (append_nil_iff (reject (eqb (length stages) 0) _) (errs ++ check_step_stages known ss)).0
        e in
    let parts = (append_nil_iff errs (check_step_stages known ss)).0 inner.1 in
    All-map ss (λ s h. sym (check_stages_known 0 [] stages parts.0 s.stage) ∙ h)
      (check_step_stages_sound known ss parts.1)

abbrev pub SingleTrigger : Option Trigger → Type 0
SingleTrigger none = Unit
SingleTrigger (some t) = trigger_count t ≤ 1

validate_trigger_sound : (t : Option Trigger) → validate_trigger t ≡ [] → SingleTrigger t
unfolding validate_trigger
validate_trigger_sound none e = tt
validate_trigger_sound (some t) e =
    let first = ((append_nil_iff (reject (ltb 1 (trigger_count t)) _) _).0 e).0 in
    ground (arith, first)

pub record ValidWorkflow (w : Workflow) : Type 0 where
  pub version : w.version ≡ "2.0"
  pub named : w.name ≢ ""
  pub not_empty : w.steps ≢ []
  pub steps : ValidSteps w.steps
  pub stages : All (λ s. contains s.stage (names w.stages) ≡ true) w.steps
  pub one_trigger : SingleTrigger w.trigger

-- The four parts of `validate` that the theorem reads.
record Parts (w : Workflow) : Type 0 where
  header : validate_header w ≡ []
  stages : validate_stages w.stages w.steps ≡ []
  steps : validate_steps w.steps ≡ []
  trigger : validate_trigger w.trigger ≡ []

validate-Parts : (w : Workflow) → validate w ≡ [] → Parts w
unfolding validate
validate-Parts w e =
    let a = (append_nil_iff (validate_header w) _).0 e in
    let b = (append_nil_iff (validate_stages w.stages w.steps) _).0 a.1 in
    let c = (append_nil_iff (validate_steps w.steps) _).0 b.1 in
    let d = (append_nil_iff (validate_params 0 w.params) _).0 c.1 in
    let f = (append_nil_iff (validate_trigger w.trigger) _).0 d.1 in
    record { header = a.0; stages = b.0; steps = c.0; trigger = f.0 }

-- A workflow in which `Validate` finds no error has version 2.0, a name and at least one step, its
-- steps are well-formed, each step's stage is one of its stages, and it has at most one trigger.
pub validate-ValidWorkflow : (w : Workflow) → validate w ≡ [] → ValidWorkflow w
unfolding validate_header
validate-ValidWorkflow w e =
    let p = validate-Parts w e in
    record {
      version = ground (arith, p.header, eq_iff w.version "2.0", eq_iff w.version "");
      named = λ q. ground (arith, p.header, eq_iff w.name "");
      not_empty = λ q. ground (arith, p.header, ap length q);
      steps = (validate_steps_iff w.steps).0 p.steps;
      stages = validate_stages_sound w.stages w.steps p.stages;
      one_trigger = validate_trigger_sound w.trigger p.trigger;
    }

-- An accepted workflow without gotos, whose steps can be numbered so that the numbers grow along
-- every dependency, has a graph: `BuildDAG` cannot fail on it.
pub build_dag-validate :
    (w : Workflow) (rank : String → ℕ)
    → validate w ≡ []
    → AllDeps (λ p id. rank p < rank id) w.steps
    → WithoutGotos w.steps
    → (d : Dag) × (build_dag w.steps ≡ ok d)
build_dag-validate w rank e ranked plain =
    let v = validate-ValidWorkflow w e in go w.steps v.not_empty v.steps ranked plain
  where
    go :
        (ss : List Step)
        → ss ≢ []
        → ValidSteps ss
        → AllDeps (λ p id. rank p < rank id) ss
        → WithoutGotos ss
        → (d : Dag) × (build_dag ss ≡ ok d)
    go [] ne v r pl = absurd (ne refl)
    go (s ∷ ss) ne v r pl =
        build_dag_of_ranked s ss rank v.distinct
          (All-map (s ∷ ss) (λ s'. All-map s'.depends_on (λ p h. h.1)) v.known) r pl
