-- ===== src/Action/Registry/Lookup.antt =====
-- internal/action/registry.go: what Create finds after Register and SetAllowlist.
use tailflow_agent.Prelude.{
  String, ◌≡◌, refl, true, false, none, some, List, [], ◌∷◌, arith, if◌then◌else◌, ◌==◌, eq_iff,
  contains,
}
use tailflow_agent.Prelude.Dict.{lookup, lookup-insert, lookup-insert_self}
use tailflow_agent.Action.Registry.{
  Registry, created, not_allowed, allow_all, allowed, register, set_allowlist, create,
}

lookup-allow_all :
    (name : String) (ns : List String)
    → lookup name (allow_all ns) ≡ (if contains name ns then some true else none)
unfolding lookup
lookup-allow_all name [] = refl
lookup-allow_all name (n ∷ ns) =
    ground
      (arith, lookup-insert n name true (allow_all ns), lookup-allow_all name ns, eq_iff n name)

allowed-allow_all :
    (name : String) (ns : List String) → allowed (some (allow_all ns)) name ≡ contains name ns
allowed-allow_all name ns = ground (arith, lookup-allow_all name ns)

module _ {ℓ} {Factory : Type ℓ} (name other : String) (factory : Factory) (names : List String)
    (r : Registry Factory) where
  -- Once an action is registered and an allowlist set, Create gives the factory that was registered last
  -- under the name if the allowlist has the name, and refuses it otherwise; without an allowlist it gives
  -- the factory; and registering an action changes what Create gives for no other name.
  pub create-register :
      (create name (set_allowlist (some names) (register name factory r))
        ≡ (if contains name names then created factory else not_allowed))
      × (create name (set_allowlist none (register name factory r)) ≡ created factory)
      × ((name == other) ≡ false → create other (register name factory r) ≡ create other r)
  unfolding create set_allowlist register
  create-register = (
    rw (lookup-insert_self name factory r.factories, allowed-allow_all name names) refl,
    rw (lookup-insert_self name factory r.factories) refl,
    λ h. rw (lookup-insert name other factory r.factories, h) refl,
  )
