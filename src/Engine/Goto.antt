-- ===== src/Engine/Goto.antt =====
-- internal/engine/goto.go: the loop body of a goto, and what the executor resets when it jumps. A
-- set (`map[string]bool`) is the list of its members in the order in which they are put in.
pub mod Search
pub mod Samples
use tailflow_agent.Prelude.{
  ℕ, zero, suc, ◌+◌, String, Bool, true, false, Option, none, some, List, [], ◌∷◌, ◌++◌, length,
  contains, if◌then◌else◌,
}
use tailflow_agent.Prelude.Dict.{Dict, keys}
use tailflow_agent.Engine.Dag.{Dag, children, parents}

-- The loop over the children (or parents) of a node: each new one is marked and queued.
unfoldable pub offer : List String → List String → List String → List String × List String
offer [] seen queue = (seen, queue)
offer (c ∷ cs) seen queue =
    let old = contains c seen in
    offer cs (if old then seen else seen ++ c ∷ []) (if old then queue else queue ++ c ∷ [])

-- The loop `for len(queue) > 0`, with fuel: `none` if it runs out.
unfoldable pub search :
    ℕ → (String → List String) → List String → List String → Option (List String)
search fuel next seen [] = some seen
search zero next seen (id ∷ queue) = none
search (suc fuel) next seen (id ∷ queue) =
    let (seen', queue') = offer (next id) seen queue in search fuel next seen' queue'

-- One of the two searches, from its start, with a round for each node.
unfoldable pub reachable : Dag → (String → List String) → String → Option (List String)
unfolding search offer
reachable d next start = search (length d.nodes) next (start ∷ []) (start ∷ [])

-- The ids of the first set that the second holds; Go visits the map in any order.
unfoldable pub intersection : List String → List String → List String
intersection [] ys = []
intersection (x ∷ xs) ys = let rest = intersection xs ys in if contains x ys then x ∷ rest else rest

abbrev both_sets : Option (List String) → Option (List String) → Option (List String)
both_sets (some forward) (some backward) = some (intersection forward backward)
both_sets _ _ = none

unfoldable pub find_loop_body : Dag → String → String → Option (List String)
unfolding reachable
find_loop_body d target goto =
    both_sets (reachable d (children d) target) (reachable d (parents d) goto)

-- How many parents stand in the body.
unfoldable pub loop_in_degree : Dag → List String → String → ℕ
loop_in_degree d body id = length (intersection (parents d id) body)
