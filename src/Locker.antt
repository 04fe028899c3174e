-- ===== src/Locker.antt =====
-- internal/runtime/locker_memory.go: the lock of one key, shared by any number of callers. The callers
-- are counted by where they are: about to look at the entry (`trying`), behind a look that found it
-- locked (`waiting`), or past `Lock` and before `Unlock` (`holding`). A step is what one caller does
-- under the entry's mutex, or one operation on the entry's channel of capacity 1 (`signal`).
pub mod Exclusion
pub mod Samples
use tailflow_agent.Prelude.{ℕ, suc, ◌≡◌, Bool, true, false}

pub record LockEntry : Type 0 where
  pub locked : Bool
  pub signal : Bool
  pub trying : ℕ
  pub waiting : ℕ
  pub holding : ℕ

-- `getEntry` of a key that is new.
pub new_entry : LockEntry
new_entry = record { locked = false; signal = false; trying = 0; waiting = 0; holding = 0 }

pub data LockStep (e : LockEntry) : LockEntry → Type 0 where
  -- a call of `Lock`
  arrive : LockStep e (record e { trying = suc e.trying })
  -- a look that finds the entry free
  acquire :
      (n : ℕ)
      → e.trying ≡ suc n
      → e.locked ≡ false
      → LockStep e (record e { trying = n; locked = true; holding = suc e.holding })
  -- a look that finds it locked
  block :
      (n : ℕ)
      → e.trying ≡ suc n
      → e.locked ≡ true
      → LockStep e (record e { trying = n; waiting = suc e.waiting })
  -- `<-e.ch`
  wake :
      (n : ℕ)
      → e.waiting ≡ suc n
      → e.signal ≡ true
      → LockStep e (record e { waiting = n; trying = suc e.trying; signal = false })
  -- `<-ctx.Done()`
  time_out : (n : ℕ) → e.waiting ≡ suc n → LockStep e (record e { waiting = n })
  -- `Unlock` by a caller that holds the lock
  unlock :
      (n : ℕ)
      → e.holding ≡ suc n
      → e.locked ≡ true
      → LockStep e (record e { holding = n; locked = false; signal = true })

pub data Locked : LockEntry → Type 0 where
  fresh : Locked new_entry
  later : {e f : LockEntry} → Locked e → LockStep e f → Locked f
