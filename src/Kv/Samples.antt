-- ===== src/Kv/Samples.antt =====
-- A key that expires, and the theorem of the key-value store there.
use tailflow_agent.Prelude.{◌≡◌, none, []}
use tailflow_agent.Prelude.Dict.{Dict, is_some}
use tailflow_agent.Value.{Value}
use tailflow_agent.Kv.{KvEntry, get, put, delete}
use tailflow_agent.Kv.Expiry.{view, operations-Refine}

abbrev one_key : Dict KvEntry
one_key = put "k" Value.null 5 10 []

operations-Refine_example :
    (view 16 (put "k" Value.null 2 12 one_key) "k" ≡ none)
    × (((get "k" 12 one_key).0 ≡ view 12 one_key "k")
        × (view 12 (get "k" 12 one_key).1 "k" ≡ view 12 one_key "k"))
    × (((delete "k" 12 one_key).0 ≡ is_some (view 12 one_key "k"))
        × (view 12 (delete "k" 12 one_key).1 "k" ≡ none))
operations-Refine_example = operations-Refine "k" "k" Value.null 2 12 16 one_key
