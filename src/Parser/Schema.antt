-- ===== src/Parser/Schema.antt =====
-- internal/parser/schema.go: the types of a parsed workflow. A pointer field is an `Option`, a text
-- that was not given is "". Fields that no modelled code reads (descriptions, tags, authors) are
-- left out, and so are the YAML tags.
use tailflow_agent.Prelude.{Bool, List, Option, String, ℕ}
use tailflow_agent.Prelude.Dict.{Dict}
use tailflow_agent.Prelude.Int.{ℤ}
use tailflow_agent.Value.{Value}

-- `Line` is the 1-based source line, 0 where it is unknown.
pub record Stage : Type 0 where
  pub name : String
  pub line : ℕ

pub record Param : Type 0 where
  pub name : String
  pub type : String
  pub required : Bool
  pub default : Option Value
  pub pattern_ : String
  pub line : ℕ

pub record GotoConfig : Type 0 where
  pub target : String
  pub when : String
  pub max_iterations : ℤ

pub record TestCaseError : Type 0 where
  pub message : String
  pub code : String

pub record TestCaseExpect : Type 0 where
  pub output : Option Value
  pub status : String
  pub error : Option TestCaseError

pub record TestCase : Type 0 where
  pub name : String
  pub output : Option Value
  pub error : Option TestCaseError
  pub expect : Option TestCaseExpect

pub record RetryConfig : Type 0 where
  pub max_attempts : ℤ
  pub delay : String

-- A step of an `on_error` list is a whole `Step` in the source; the program reads these fields of
-- it and no others, its own `on_error` list included.
pub record ErrorStep : Type 0 where
  pub id : String
  pub action : String
  pub config : Dict Value

pub record Step : Type 0 where
  pub id : String
  pub action : String
  pub stage : String
  pub depends_on : List String
  pub when : String
  pub config : Dict Value
  pub retry : Option RetryConfig
  pub on_error : List ErrorStep
  pub timeout : String
  pub goto : Option GotoConfig
  pub error_policy : String
  pub on_recovery : String
  pub testing : List TestCase
  pub line : ℕ

pub record HttpTrigger : Type 0 where
  pub method : String
  pub path : String
  pub async : Bool
  pub idempotency_key : String

pub record WebhookTrigger : Type 0 where
  pub path : String
  pub secret : String
  pub filter : String

pub record ScheduleTrigger : Type 0 where
  pub cron : String

pub record RabbitMqTrigger : Type 0 where
  pub url : String
  pub queue : String
  pub ack_on_success : Bool

pub record Trigger : Type 0 where
  pub http : Option HttpTrigger
  pub webhook : Option WebhookTrigger
  pub schedule : Option ScheduleTrigger
  pub rabbitmq : Option RabbitMqTrigger

pub record MemoryPersistence : Type 0 where
  pub max_executions : ℤ

pub record MariaDbPersistence : Type 0 where
  pub dsn : String
  pub table_prefix : String

pub record Persistence : Type 0 where
  pub type : String
  pub memory : Option MemoryPersistence
  pub mariadb : Option MariaDbPersistence

pub record Workflow : Type 0 where
  pub version : String
  pub name : String
  pub params : List Param
  pub env : Dict String
  pub sensitive : List String
  pub trigger : Option Trigger
  pub recovery : Bool
  pub persistence : Option Persistence
  pub stages : List Stage
  pub on_error : List ErrorStep
  pub steps : List Step
