-- ===== src/Claims/Samples.antt =====
-- Two requests for one order, and the theorem of the claims there; a lock, an event and a wait.
use tailflow_agent.Prelude.{String, ◌≡◌, refl, true, false, not, some, List, [], ◌∷◌}
use tailflow_agent.Prelude.Dict.{Dict, lookup, insert, erase, is_some}
use tailflow_agent.Claims.{
  claim_execution, acquire, release, is_duplicate, register_wait, deliver, full, WaitRegistration,
}
use tailflow_agent.Claims.First.{
  Request, claims_after, first_with, running_claim, claim_execution-First,
}

abbrev requests : List Request
requests =
    record { execution_id = "e2"; workflow_name = "w"; idempotency_key = "order 7" }
    ∷ record { execution_id = "e1"; workflow_name = "w"; idempotency_key = "order 7" }
    ∷ []

told : first_with "w" "order 7" requests ≡ some "e1"
told = refl

-- A lock that is held is refused, and is free once it is released.
locks :
    ((acquire "k" (acquire "k" []).0).1 ≡ false)
    × ((acquire "k" (release "k" (acquire "k" []).0)).1 ≡ true)
    × ((is_duplicate "m" (is_duplicate "m" []).0).1 ≡ true)
unfolding acquire release is_duplicate lookup insert erase
locks = (refl, refl, refl)

abbrev waits : Dict (WaitRegistration String)
waits = register_wait "e1" "a" "hook" []

second_is_refused : (deliver "e1" "hook" "r" (deliver "e1" "hook" "q" waits).0).1 ≡ full
unfolding deliver register_wait lookup insert
second_is_refused = refl

claim_execution-First_example :
    (claim_execution "e3" "w" "order 7" (claims_after requests)).1 ≡ record {
      claimed = not (is_some (first_with "w" "order 7" requests));
      existing = running_claim (first_with "w" "order 7" requests);
    }
claim_execution-First_example =
    claim_execution-First requests "e3" "w" "order 7" refl (refl, (refl, tt))
