-- ===== src/Claims/First.antt =====
-- internal/export/memory_claimer.go: the first request with a workflow and a key is granted, and no other.
use tailflow_agent.Prelude.{
  String, ◌≡◌, refl, ◌∙◌, ap, inl, inr, Bool, true, false, not, Option, none, some, List, [], ◌∷◌,
  arith, if◌then◌else◌, ◌==◌, eq_iff, Bool-cases, Option-cases,
}
use tailflow_agent.Prelude.Dict.{Dict, lookup, insert, is_some, lookup-insert}
use tailflow_agent.Claims.{MemoryClaim, claim_key, claim_execution}
use tailflow_agent.Claims.Keys.{has_nul, claim_key_injective}
use tailflow_agent.Status

pub record Request : Type 0 where
  pub execution_id : String
  pub workflow_name : String
  pub idempotency_key : String

abbrev pub key_of : Request → String
key_of r = claim_key r.workflow_name r.idempotency_key

-- The claims after requests, the newest of which stands first.
abbrev pub claims_after : List Request → Dict MemoryClaim
claims_after [] = []
claims_after (r ∷ rs) =
    (claim_execution r.execution_id r.workflow_name r.idempotency_key (claims_after rs)).0

-- The request is for the same workflow and key.
abbrev same_pair : String → String → Request → Bool
same_pair w k r = if r.workflow_name == w then r.idempotency_key == k else false

-- The execution of the oldest request for a workflow and a key.
abbrev pub first_with : String → String → List Request → Option String
first_with w k [] = none
first_with w k (r ∷ rs) =
    let older = first_with w k rs in
    if is_some older then older else if same_pair w k r then some r.execution_id else none

abbrev pub running_claim : Option String → Option MemoryClaim
running_claim none = none
running_claim (some id) = some (record { execution_id = id; status = Status.running })

-- No request names a workflow with the separator in it.
abbrev pub AreNamed : List Request → Type 0
AreNamed [] = Unit
AreNamed (r ∷ rs) = (has_nul r.workflow_name ≡ false) × AreNamed rs

same_key :
    (w k : String) (r : Request)
    → has_nul w ≡ false
    → has_nul r.workflow_name ≡ false
    → (claim_key r.workflow_name r.idempotency_key == claim_key w k) ≡ same_pair w k r
same_key w k r h g =
    elim (Bool-cases (claim_key r.workflow_name r.idempotency_key == claim_key w k)) [
      | inl e ↦
          let both =
            claim_key_injective r.workflow_name w r.idempotency_key k g h ((eq_iff _ _).0 e) in
          rw e (rw ((eq_iff _ _).1 both.0, (eq_iff _ _).1 both.1) refl)
      | inr e ↦ elim (Bool-cases (r.workflow_name == w)) [
        | inr off ↦ rw (e, off) refl
        | inl on ↦ elim (Bool-cases (r.idempotency_key == k)) [
          | inr off ↦ rw (e, on, off) refl
          | inl at ↦ absurd (
              cc (
                e,
                (eq_iff (claim_key r.workflow_name r.idempotency_key) (claim_key w k)).1 (
                    ap (λ n. claim_key n r.idempotency_key) ((eq_iff r.workflow_name w).0 on)
                    ∙ ap (claim_key w) ((eq_iff r.idempotency_key k).0 at)),
              ))
        ]
      ]
    ]

same_pair_names :
    (w k : String) (r : Request)
    → same_pair w k r ≡ true
    → (r.workflow_name ≡ w) × (r.idempotency_key ≡ k)
same_pair_names w k r h =
    ((eq_iff r.workflow_name w).0 (ground arith), (eq_iff r.idempotency_key k).0 (ground arith))

-- A request leaves the claims as they are, or adds one under its key.
claimed_there :
    (r : Request) (c : MemoryClaim) (claims : Dict MemoryClaim)
    → lookup (key_of r) claims ≡ some c
    → (claim_execution r.execution_id r.workflow_name r.idempotency_key claims).0 ≡ claims
unfolding claim_execution
claimed_there r c claims e = rw (e, claim_execution) refl

claimed_new :
    (r : Request) (claims : Dict MemoryClaim)
    → lookup (key_of r) claims ≡ none
    → (claim_execution r.execution_id r.workflow_name r.idempotency_key claims).0
      ≡ insert (key_of r) (record { execution_id = r.execution_id; status = Status.running }) claims
unfolding claim_execution
claimed_new r claims e = rw (e, claim_execution) refl

lookup-claims_after :
    (w k : String) (rs : List Request)
    → has_nul w ≡ false
    → AreNamed rs
    → lookup (claim_key w k) (claims_after rs) ≡ running_claim (first_with w k rs)
unfolding lookup
lookup-claims_after w k [] h named = refl
lookup-claims_after w k (r ∷ rs) h named =
    let claims = claims_after rs in
    let ih = lookup-claims_after w k rs h named.1 in
    let same = same_key w k r h named.0 in
    elim (Option-cases (lookup (key_of r) claims)) [
      | inr (c, e) ↦ elim (Bool-cases (same_pair w k r)) [
        | inr off ↦
            rw (claimed_there r c claims e, off) (ih ∙ ap running_claim (keep (first_with w k rs)))
        | inl at ↦
            let key : key_of r ≡ claim_key w k =
              (eq_iff (key_of r) (claim_key w k)).0 (same ∙ at) in
            elim (Option-cases (first_with w k rs)) [
              | inl gone ↦ absurd (cc (ih, e, ap (λ j. lookup j claims) key, ap running_claim gone))
              | inr (id, there) ↦
                  rw (claimed_there r c claims e, at, there) (ih ∙ ap running_claim there)
            ]
      ]
      | inl e ↦ elim (Bool-cases (same_pair w k r)) [
        | inr off ↦
            rw (claimed_new r claims e, off)
              (lookup-insert (key_of r) (claim_key w k) _ claims
                ∙ rw (same ∙ off) (ih ∙ ap running_claim (keep (first_with w k rs))))
        | inl at ↦
            let key : key_of r ≡ claim_key w k =
              (eq_iff (key_of r) (claim_key w k)).0 (same ∙ at) in
            elim (Option-cases (first_with w k rs)) [
              | inr (id, there) ↦
                  absurd (cc (ih, e, ap (λ j. lookup j claims) key, ap running_claim there))
              | inl gone ↦
                  rw (claimed_new r claims e, at, gone)
                    (lookup-insert (key_of r) (claim_key w k) _ claims ∙ rw (same ∙ at) refl)
            ]
      ]
    ]
  where
    keep : (o : Option String) → o ≡ (if is_some o then o else none)
    keep none = refl
    keep (some s) = refl

-- Whatever was requested before, a request for a workflow and a key is granted exactly where it is the
-- first for the two, and otherwise is told the execution of the first, as one that runs; the key of a
-- workflow is not mixed up with that of another, as long as no workflow has the separator in its name.
pub claim_execution-First :
    (before : List Request) (execution_id w k : String)
    → has_nul w ≡ false
    → AreNamed before
    → (claim_execution execution_id w k (claims_after before)).1 ≡ record {
      claimed = not (is_some (first_with w k before));
      existing = running_claim (first_with w k before);
    }
unfolding claim_execution
claim_execution-First before execution_id w k h named =
    let found = lookup-claims_after w k before h named in
    elim (Option-cases (first_with w k before)) [
      | inl none_yet ↦ rw (found ∙ ap running_claim none_yet, none_yet, claim_execution) refl
      | inr (id, first) ↦ rw (found ∙ ap running_claim first, first, claim_execution) refl
    ]
