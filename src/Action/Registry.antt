-- ===== src/Action/Registry.antt =====
-- internal/action/registry.go: the registry of actions, which an allowlist may restrict.
pub mod Lookup
pub mod Samples
use tailflow_agent.Prelude.{
  String, Bool, true, false, ◌||◌, Option, none, some, List, [], ◌∷◌, if◌then◌else◌, ◌==◌, contains,
}
use tailflow_agent.Prelude.Dict.{Dict, lookup, insert, is_some, keys}
use tailflow_agent.Value.Print.{less_text}

-- `allowlist` is nil where all actions are allowed.
pub record Registry {ℓ} (Factory : Type ℓ) : Type ℓ where
  pub factories : Dict Factory
  pub allowlist : Option (Dict Bool)

pub data Created {ℓ} (Factory : Type ℓ) : Type ℓ where
  created : Factory → Created Factory
  not_allowed : Created Factory
  unknown : Created Factory

-- `sort.Strings`
abbrev insert_text : String → List String → List String
insert_text x [] = x ∷ []
insert_text x (y ∷ ys) =
    let rest = insert_text x ys in if less_text y x then y ∷ rest else x ∷ y ∷ ys

abbrev sort_texts : List String → List String
sort_texts [] = []
sort_texts (x ∷ xs) = insert_text x (sort_texts xs)

abbrev pub allow_all : List String → Dict Bool
allow_all [] = []
allow_all (n ∷ ns) = insert n true (allow_all ns)

-- A name that is not a key of the allowlist reads as false.
abbrev pub allowed : Option (Dict Bool) → String → Bool
allowed none name = true
allowed (some list) name = elim (lookup name list) [ none ↦ false | some b ↦ b ]

module _ {ℓ} {Factory : Type ℓ} where
  abbrev pub new_registry : Registry Factory
  new_registry = record { factories = []; allowlist = none }

  unfoldable pub register : String → Factory → Registry Factory → Registry Factory
  register name factory r = record r { factories = insert name factory r.factories }

  -- `none` stands for nil.
  unfoldable pub set_allowlist : Option (List String) → Registry Factory → Registry Factory
  set_allowlist none r = record r { allowlist = none }
  set_allowlist (some names) r = record r { allowlist = some (allow_all names) }

  unfoldable pub create : String → Registry Factory → Created Factory
  create name r =
      if allowed r.allowlist name
      then elim (lookup name r.factories) [ none ↦ unknown | some factory ↦ created factory ]
      else not_allowed

  unfoldable pub has : String → Registry Factory → Bool
  has name r = is_some (lookup name r.factories)

  unfoldable pub names : Registry Factory → List String
  names r = sort_texts (keys r.factories)
