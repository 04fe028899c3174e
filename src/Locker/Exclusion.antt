-- ===== src/Locker/Exclusion.antt =====
-- internal/runtime/locker_memory.go: mutual exclusion, and no lost wake-up.
use tailflow_agent.Prelude.{◌≡◌, refl, true, ◌||◌, arith, if◌then◌else◌, ltb, eqb}
use tailflow_agent.Locker.{
  LockEntry, new_entry, LockStep, arrive, acquire, block, wake, time_out, unlock, Locked, fresh,
  later,
}

pub record IsSafe (e : LockEntry) : Type 0 where
  -- one caller holds the lock if it is locked, and none otherwise
  pub holders : e.holding ≡ (if e.locked then 1 else 0)
  -- if callers wait, someone holds the lock, is about to look, or has left a signal
  pub awake : (eqb e.waiting 0 || e.locked || e.signal || ltb 0 e.trying) ≡ true

LockStep-IsSafe : {e f : LockEntry} → LockStep e f → IsSafe e → IsSafe f
LockStep-IsSafe {e} arrive i = record { holders = i.holders; awake = ground (arith, i.awake) }
LockStep-IsSafe {e} (acquire n there free) i = record {
  holders = ground (arith, i.holders, free);
  awake = ground arith;
}
LockStep-IsSafe {e} (block n there locked) i = record {
  holders = i.holders;
  awake = ground (arith, locked);
}
LockStep-IsSafe {e} (wake n there signal) i = record { holders = i.holders; awake = ground arith }
LockStep-IsSafe {e} (time_out n there) i = record {
  holders = i.holders;
  awake = ground (arith, i.awake, there);
}
LockStep-IsSafe {e} (unlock n there locked) i = record {
  holders = ground (arith, i.holders, locked, there);
  awake = ground arith;
}

-- In every state that the calls of `Lock` and `Unlock` reach, at most one caller holds the lock, exactly
-- one if it is locked; and if callers wait, then someone holds the lock, is about to look at it, or has
-- left a signal that wakes one of them. Only callers that hold the lock call `Unlock`.
pub Locked-IsSafe : {e : LockEntry} → Locked e → IsSafe e
unfolding new_entry
Locked-IsSafe fresh = record { holders = refl; awake = refl }
Locked-IsSafe (later r st) = LockStep-IsSafe st (Locked-IsSafe r)
