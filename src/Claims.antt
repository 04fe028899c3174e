-- ===== src/Claims.antt =====
-- internal/export/memory_claimer.go, internal/lock/memory.go and internal/server/wait.go: who is first to
-- claim a key, to hold a lock, to see an event, and who waits for a request. Each operation is one step,
-- since it holds a mutex or is one operation of a `sync.Map`.
pub mod Keys
pub mod First
pub mod Samples
use Prim.Native.String.{◌++◌}
use tailflow_agent.Prelude.{
  ℕ, String, Bool, true, false, Option, none, some, List, [], ◌∷◌, if◌then◌else◌, ◌==◌, length, ltb,
}
use tailflow_agent.Prelude.Dict.{Dict, lookup, insert, erase, is_some}
use tailflow_agent.Status

pub record MemoryClaim : Type 0 where
  pub execution_id : String
  pub status : String

-- `existing` is absent where the claim is granted.
pub record ClaimResult : Type 0 where
  pub claimed : Bool
  pub existing : Option MemoryClaim

abbrev pub claim_key_separator : String
claim_key_separator = "\0"

abbrev pub claim_key : String → String → String
claim_key workflow_name idempotency_key = workflow_name ++ claim_key_separator ++ idempotency_key

unfoldable pub claim_execution :
    String → String → String → Dict MemoryClaim → Dict MemoryClaim × ClaimResult
claim_execution execution_id workflow_name idempotency_key claims =
    let key = claim_key workflow_name idempotency_key in
    elim (lookup key claims) [
      | some existing ↦ (claims, record { claimed = false; existing = some existing })
      | none ↦ (
        insert key (record { execution_id = execution_id; status = Status.running }) claims,
        record { claimed = true; existing = none },
      )
    ]

-- `handleIdempotencyCheck` for the template's value, `none` where it does not resolve: whether the
-- request is answered with an execution that is there, and with which.
unfoldable pub handle_idempotency_check :
    Option String → String → String → Dict MemoryClaim → Dict MemoryClaim × Option MemoryClaim
unfolding claim_execution
handle_idempotency_check none execution_id workflow_name claims = (claims, none)
handle_idempotency_check (some key) execution_id workflow_name claims =
    if key == ""
    then (claims, none)
    else let (after, result) = claim_execution execution_id workflow_name key claims in
      if result.claimed then (after, none) else (after, result.existing)

-- `Acquire` of the lock for triggers, and the function that it returns, which frees the lock.
unfoldable pub acquire : String → Dict (Unit {0}) → Dict (Unit {0}) × Bool
acquire key locks =
    if is_some (lookup key locks) then (locks, false) else (insert key tt locks, true)

unfoldable pub release : String → Dict (Unit {0}) → Dict (Unit {0})
release key locks = erase key locks

unfoldable pub is_duplicate : String → Dict (Unit {0}) → Dict (Unit {0}) × Bool
is_duplicate event_id seen =
    if is_some (lookup event_id seen) then (seen, true) else (insert event_id tt seen, false)

-- A registration has a channel with room for one request.
pub record WaitRegistration {ℓ} (Request : Type ℓ) : Type ℓ where
  pub execution_id : String
  pub step_id : String
  pub path : String
  pub ch : List Request

abbrev pub wait_key : String → String → String
wait_key execution_id path = execution_id ++ "/" ++ path

pub data Delivery : Type 0 where
  delivered : Delivery
  no_registration : Delivery
  full : Delivery

module _ {ℓ} {Request : Type ℓ} where
  unfoldable pub register_wait :
      String → String → String → Dict (WaitRegistration Request) → Dict (WaitRegistration Request)
  register_wait execution_id step_id path regs =
      insert (wait_key execution_id path)
        (record { execution_id = execution_id; step_id = step_id; path = path; ch = [] }) regs

  -- `cleanup`
  unfoldable pub clean_wait :
      String → String → Dict (WaitRegistration Request) → Dict (WaitRegistration Request)
  clean_wait execution_id path regs = erase (wait_key execution_id path) regs

  unfoldable pub deliver :
      String
      → String
      → Request
      → Dict (WaitRegistration Request)
      → Dict (WaitRegistration Request) × Delivery
  deliver execution_id path req regs =
      let key = wait_key execution_id path in
      elim (lookup key regs) [
        | none ↦ (regs, no_registration)
        | some reg ↦
            if ltb (length reg.ch) 1
            then (insert key (record reg { ch = req ∷ [] }) regs, delivered)
            else (regs, full)
      ]
