-- ===== src/Trigger.antt =====
-- internal/trigger/trigger.go: the HTTP routes of the workflows.
pub mod Matching
pub mod Samples
use tailflow_agent.Prelude.{
  String, Bool, true, false, ◌&&◌, ◌||◌, Option, none, some, List, [], ◌∷◌, ◌++◌, ◌==◌,
}
use tailflow_agent.Parser.Schema.{Trigger as WorkflowTrigger, HttpTrigger, WebhookTrigger, Workflow}

pub record Route : Type 0 where
  pub workflow_name : String
  pub method : String
  pub path : String
  pub trigger_type : String
  pub secret : String
  pub filter : String

abbrev pub http_route : String → Option HttpTrigger → List Route
http_route name none = []
http_route name (some h) =
    record {
      workflow_name = name;
      method = h.method;
      path = h.path;
      trigger_type = "http";
      secret = "";
      filter = "";
    }
    ∷ []

abbrev pub webhook_route : String → Option WebhookTrigger → List Route
webhook_route name none = []
webhook_route name (some w) =
    record {
      workflow_name = name;
      method = "POST";
      path = w.path;
      trigger_type = "webhook";
      secret = w.secret;
      filter = w.filter;
    }
    ∷ []

-- The routes of one workflow.
abbrev pub routes_of : Workflow → List Route
routes_of w = elim (w.trigger) [
  | none ↦ []
  | some t ↦ http_route w.name t.http ++ webhook_route w.name t.webhook
]

unfoldable pub resolve_routes : List Workflow → List Route
resolve_routes [] = []
resolve_routes (w ∷ ws) = routes_of w ++ resolve_routes ws

-- The test of the loop of `MatchRoute`.
abbrev pub serves : String → String → Route → Bool
serves method path r = r.path == path && (r.trigger_type == "webhook" || r.method == method)

-- `none` stands for the error "no route matching".
unfoldable pub match_route : List Route → String → String → Option Route
match_route [] method path = none
match_route (r ∷ rs) method path =
    let rest = match_route rs method path in
    elim (serves method path r) [ true ↦ some r | false ↦ rest ]
