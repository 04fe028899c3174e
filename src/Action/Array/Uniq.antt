-- ===== src/Action/Array/Uniq.antt =====
-- internal/action/array.go, array.uniq: the first item of each key, in order.
use tailflow_agent.Prelude.{
  String, ◌≡◌, refl, inl, inr, true, false, Option, none, some, List, [], ◌∷◌, map, arith,
  if◌then◌else◌, ◌==◌, eq_iff, contains, IsNodup, Bool-cases,
}
use tailflow_agent.Prelude.Dict.{Dict}
use tailflow_agent.Value.{Value}
use tailflow_agent.Value.Print.{print_value}
use tailflow_agent.Action.Array.{array_input, printed, field_value, uniq_items, array_uniq}

-- The key of an item.
abbrev pub key : String → Value → String
key field item = print_value (field_value item field)

-- The first item that has the key `k`.
abbrev pub first : String → String → List Value → Option Value
first field k [] = none
first field k (item ∷ items) = if key field item == k then some item else first field k items

-- What is kept: items in their order, some left out.
pub data Within : List Value → List Value → Type 0 where
  empty : Within [] []
  keep : {xs ys : List Value} (x : Value) → Within xs ys → Within (x ∷ xs) (x ∷ ys)
  skip : {xs ys : List Value} (y : Value) → Within xs ys → Within xs (y ∷ ys)

pub record IsUniq (field : String) (items out : List Value) : Type 0 where
  pub nodup : IsNodup (map (key field) out)
  pub firsts : (k : String) → first field k out ≡ first field k items
  pub within : Within out items

-- The same with the keys in `seen` left out.
record Loop (field : String) (seen : List String) (items out : List Value) : Type 0 where
  nodup : IsNodup (map (key field) out)
  fresh : (k : String) → contains k seen ≡ true → contains k (map (key field) out) ≡ false
  firsts : (k : String) → contains k seen ≡ false → first field k out ≡ first field k items
  within : Within out items

uniq_items-Loop :
    (field : String) (seen : List String) (items : List Value)
    → Loop field seen items (uniq_items field seen items)
unfolding uniq_items
uniq_items-Loop field seen [] = record {
  nodup = tt;
  fresh = λ k h. refl;
  firsts = λ k h. refl;
  within = Within.empty;
}
uniq_items-Loop field seen (item ∷ items) = elim (Bool-cases (contains (key field item) seen)) [
  | inl old ↦
      let ih = uniq_items-Loop field seen items in
      rw old (record {
        nodup = ih.nodup;
        fresh = ih.fresh;
        firsts = λ k h. ground (arith, ih.firsts k h, eq_iff (key field item) k);
        within = Within.skip item ih.within;
      })
  | inr new ↦
      let ih = uniq_items-Loop field (key field item ∷ seen) items in
      rw new (record {
        nodup = (
          ih.fresh (key field item) (ground (arith, eq_iff (key field item) (key field item))),
          ih.nodup,
        );
        fresh = λ k h. ground (arith, ih.fresh k, eq_iff (key field item) k);
        firsts = λ k h. ground (arith, ih.firsts k, eq_iff (key field item) k);
        within = Within.keep item ih.within;
      })
]

-- `array.uniq` keeps, of the items with one key, the first: no key is kept twice, each key of the input
-- is found with the same first item, and the items stay in their order.
pub array_uniq-IsUniq :
    (config : Dict Value) (items : List Value)
    → array_input config ≡ some items
    → (out : List Value) × (array_uniq config ≡ some out)
      × IsUniq (printed "field" config) items out
unfolding array_uniq
array_uniq-IsUniq config items h =
    let field = printed "field" config in
    let loop = uniq_items-Loop field [] items in
    (
      uniq_items field [] items,
      rw (h, array_uniq) refl,
      record { nodup = loop.nodup; firsts = λ k. loop.firsts k refl; within = loop.within },
    )
