-- ===== src/Prelude/Dict.antt =====
-- Dictionaries with string keys as association lists: Go's `map[string]V`. A key stands at most
-- once in what `insert` builds; a Go loop over a map, whose order is unspecified, is a loop over
-- the entries here.
use Prim.Native.String.{String}
use mathlib.Core.Path.{◌≡◌, refl}
use mathlib.Core.Logic.{◌≢◌}
use mathlib.Core.Bool.{Bool, true, false}
use mathlib.Core.Option.{Option, none, some}
use mathlib.Core.List.{List, [], ◌∷◌}
use native.Mathlib.Omega.{arith}
use text.Mathlib.Text.{◌==◌}
use text.Mathlib.TextEquality.{eq_iff}
use text.Mathlib.TextPositions.{eq_refl}
use tailflow_agent.Prelude.Tests.{if◌then◌else◌}
use tailflow_agent.Prelude.Lists.{contains, IsNodup}

abbrev pub Dict {ℓ} : Type ℓ → Type ℓ
Dict V = List (String × V)

-- `_, ok := m[k]`
abbrev pub is_some {ℓ} : {A : Type ℓ} → Option A → Bool
is_some none = false
is_some (some a) = true

-- The value, or a default: `m[k]` where the zero value stands for a missing key.
abbrev pub get_or {ℓ} : {A : Type ℓ} → Option A → A → A
get_or none d = d
get_or (some a) d = a

module _ {ℓ} {V : Type ℓ} where
  -- `v, ok := m[k]`
  unfoldable pub lookup : String → Dict V → Option V
  lookup key [] = none
  lookup key ((at, found) ∷ rest) = if at == key then some found else lookup key rest

  -- `m[k] = v`
  unfoldable pub insert : String → V → Dict V → Dict V
  insert key new [] = (key, new) ∷ []
  insert key new ((at, old) ∷ rest) =
      if at == key then (key, new) ∷ rest else (at, old) ∷ insert key new rest

  -- `delete(m, k)`
  unfoldable pub erase : String → Dict V → Dict V
  erase k [] = []
  erase k ((j, w) ∷ m) = let rest = erase k m in if j == k then rest else (j, w) ∷ rest

  abbrev pub keys : Dict V → List String
  keys [] = []
  keys ((k, v) ∷ m) = k ∷ keys m

  pub lookup-insert :
      (key other : String) (new : V) (m : Dict V)
      → lookup other (insert key new m) ≡ (if key == other then some new else lookup other m)
  unfolding lookup insert
  lookup-insert key other new [] = refl
  lookup-insert key other new ((at, old) ∷ rest) =
      let ih = lookup-insert key other new rest in
      ground (arith, ih, eq_iff at key, eq_iff at other, eq_iff key other)

  pub lookup-erase :
      (k j : String) (m : Dict V) → lookup j (erase k m) ≡ (if k == j then none else lookup j m)
  unfolding lookup erase
  lookup-erase k j [] = ground arith
  lookup-erase k j ((i, w) ∷ m) =
      ground (arith, eq_iff k j, eq_iff i k, eq_iff i j, lookup-erase k j m)

  pub lookup-insert_self : (k : String) (v : V) (m : Dict V) → lookup k (insert k v m) ≡ some v
  lookup-insert_self k v m = simp (lookup-insert, eq_refl)

  pub lookup-insert_ne :
      (k j : String) (v : V) (m : Dict V) → k ≢ j → lookup j (insert k v m) ≡ lookup j m
  lookup-insert_ne k j v m h = ground (arith, lookup-insert k j v m, eq_iff k j)

  pub lookup-erase_self : (k : String) (m : Dict V) → lookup k (erase k m) ≡ none
  lookup-erase_self k m = simp (lookup-erase, eq_refl)

  pub contains-keys : (k : String) (m : Dict V) → contains k (keys m) ≡ is_some (lookup k m)
  unfolding lookup
  contains-keys k [] = refl
  contains-keys k ((j, v) ∷ m) = ground (arith, contains-keys k m)

  pub contains-keys-insert :
      (k j : String) (v : V) (m : Dict V)
      → contains j (keys (insert k v m)) ≡ (if k == j then true else contains j (keys m))
  unfolding insert
  contains-keys-insert k j v [] = ground arith
  contains-keys-insert k j v ((i, w) ∷ m) =
      ground (arith, eq_iff k j, eq_iff i k, eq_iff i j, contains-keys-insert k j v m)

  -- `insert` keeps the keys distinct.
  pub insert-IsNodup :
      (k : String) (v : V) (m : Dict V) → IsNodup (keys m) → IsNodup (keys (insert k v m))
  unfolding insert
  insert-IsNodup k v [] h = (refl, tt)
  insert-IsNodup k v ((i, w) ∷ m) h =
      ground (arith, eq_iff i k, eq_iff k i, contains-keys-insert k i v m, insert-IsNodup k v m)

  -- Writing to a key that is there leaves the keys as they are.
  pub keys-insert_present :
      (k : String) (v : V) (m : Dict V) → is_some (lookup k m) ≡ true → keys (insert k v m) ≡ keys m
  unfolding insert lookup
  keys-insert_present k v [] h = cc
  keys-insert_present k v ((i, w) ∷ m) h = ground (arith, eq_iff i k, keys-insert_present k v m)

pub ruleset dict_laws = (lookup-insert, lookup-erase, eq_refl)
