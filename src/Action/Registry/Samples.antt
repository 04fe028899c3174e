-- ===== src/Action/Registry/Samples.antt =====
-- Two actions and an allowlist, and the theorem of the registry there.
use tailflow_agent.Prelude.{
  ℕ, String, ◌≡◌, refl, Option, none, some, [], ◌∷◌, contains, true, false, if◌then◌else◌, ◌==◌,
}
use tailflow_agent.Action.Registry.{
  Registry, created, not_allowed, register, set_allowlist, create, names, new_registry,
}
use tailflow_agent.Action.Registry.Lookup.{create-register}

abbrev one : Registry ℕ
one = new_registry

names_in_order : names (register "log" 1 (register "exec" 2 one)) ≡ "exec" ∷ "log" ∷ []
unfolding names register tailflow_agent.Prelude.Dict.insert
names_in_order = refl

create-register_example :
    (create "log" (set_allowlist (some ("log" ∷ [])) (register "log" 3 one))
      ≡ (if contains "log" ("log" ∷ []) then created 3 else not_allowed))
    × (create "log" (set_allowlist none (register "log" 3 one)) ≡ created 3)
    × (("log" == "exec") ≡ false → create "exec" (register "log" 3 one) ≡ create "exec" one)
create-register_example = create-register "log" "exec" 3 ("log" ∷ []) one
