-- ===== src/Trigger/Samples.antt =====
-- Two routes, and the theorem about the match there.
use tailflow_agent.Prelude.{String, ◌≡◌, refl, ◌⊎◌, none, some, List, [], ◌∷◌, All}
use tailflow_agent.Trigger.{Route, match_route}
use tailflow_agent.Trigger.Matching.{Serves, First, match_route-First}

abbrev route : String → String → Route
route method path = record {
  workflow_name = "w";
  method = method;
  path = path;
  trigger_type = "http";
  secret = "";
  filter = "";
}

abbrev routes : List Route
routes = route "GET" "/a" ∷ route "POST" "/a" ∷ []

match_post : match_route routes "POST" "/a" ≡ some (route "POST" "/a")
unfolding match_route
match_post = refl

match_route-First_example :
    ((match_route routes "POST" "/a" ≡ none) × All (λ q. ¬ Serves "POST" "/a" q) routes)
    ⊎ ((r : Route) × (match_route routes "POST" "/a" ≡ some r) × First "POST" "/a" routes r)
match_route-First_example = match_route-First routes "POST" "/a"
