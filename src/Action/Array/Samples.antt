-- ===== src/Action/Array/Samples.antt =====
-- Arrays of objects, and the theorems of the actions there.
use tailflow_agent.Prelude.{String, ◌≡◌, refl, some, List, [], ◌∷◌, map}
use tailflow_agent.Prelude.Dict.{Dict, lookup}
use tailflow_agent.Value.{Value, Items, Fields}
use tailflow_agent.Value.Print.{print_value}
use tailflow_agent.Action.Array.{array_uniq, array_pick, array_map, field_value, printed}
use tailflow_agent.Action.Array.Uniq.{IsUniq, array_uniq-IsUniq}

abbrev user : String → String → Value
user name role =
    Value.object
      (Fields.field "name" (Value.text name) (Fields.field "role" (Value.text role) Fields.end))

abbrev config : Dict Value
config =
    (
      "input",
      Value.array (
          Items.cons (user "ann" "admin")
            (Items.cons (user "bob" "admin") (Items.cons (user "cy" "guest") Items.nil))),
    )
    ∷ ("field", Value.text "role")
    ∷ ("fields", Value.array (Items.cons (Value.text "name") Items.nil))
    ∷ []

abbrev users : List Value
users = user "ann" "admin" ∷ user "bob" "admin" ∷ user "cy" "guest" ∷ []

uniq_roles : array_uniq config ≡ some (user "ann" "admin" ∷ user "cy" "guest" ∷ [])
unfolding array_uniq field_value lookup print_value
uniq_roles = refl

mapped :
    array_map
      (λ e vars. some (Value.object vars))
      (("input", Value.array (Items.cons Value.null Items.nil)) ∷ [])
    ≡ some (
        Value.object
          (Fields.field "item" Value.null (Fields.field "index" (Value.number "0") Fields.end))
        ∷ [])
unfolding array_map lookup print_value
mapped = refl

array_uniq-IsUniq_example :
    (out : List Value) × (array_uniq config ≡ some out) × IsUniq (printed "field" config) users out
unfolding lookup
array_uniq-IsUniq_example = array_uniq-IsUniq config users refl

picked_names :
    array_pick config
    ≡ some (
        map
          (λ n. Value.object (Fields.field "name" (Value.text n) Fields.end))
          ("ann" ∷ "bob" ∷ "cy" ∷ []))
unfolding array_pick lookup print_value
picked_names = refl
