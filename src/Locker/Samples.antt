-- ===== src/Locker/Samples.antt =====
-- A lock that is held while a second caller waits, and the theorem there.
use tailflow_agent.Prelude.{◌≡◌, refl}
use tailflow_agent.Locker.{LockEntry, new_entry, arrive, acquire, block, Locked, fresh, later}
use tailflow_agent.Locker.Exclusion.{IsSafe, Locked-IsSafe}

contended : (e : LockEntry) × Locked e × (e.holding ≡ 1) × (e.waiting ≡ 1)
unfolding new_entry
contended = (
  _,
  later (later (later (later fresh arrive) (acquire 0 refl refl)) arrive) (block 0 refl refl),
  refl,
  refl,
)

Locked-IsSafe_example : IsSafe contended.0
Locked-IsSafe_example = Locked-IsSafe contended.1
