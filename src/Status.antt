-- ===== src/Status.antt =====
-- internal/runtime/status.go: the names of the statuses.
use Prim.Native.String.{String}

abbrev pub running : String
running = "running"

abbrev pub waiting : String
waiting = "waiting"

abbrev pub success : String
success = "success"

abbrev pub failed : String
failed = "failed"

abbrev pub skipped : String
skipped = "skipped"

abbrev pub cancelled : String
cancelled = "cancelled"

abbrev pub completed_with_errors : String
completed_with_errors = "completed_with_errors"
