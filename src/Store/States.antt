-- ===== src/Store/States.antt =====
-- The states that the CHECK constraint on tasks.state admits, and the sets of them that the
-- program's statements name.
use trail_signal_os.Prelude.{Bool, true, false}

pub data TaskState : Type 0 where
  pending ready leased running succeeded retry_wait blocked failed dead_letter : TaskState

abbrev pub is_pending : TaskState → Bool
is_pending pending = true
is_pending _ = false

abbrev pub is_ready : TaskState → Bool
is_ready ready = true
is_ready _ = false

abbrev pub is_retry_wait : TaskState → Bool
is_retry_wait retry_wait = true
is_retry_wait _ = false

abbrev pub is_succeeded : TaskState → Bool
is_succeeded succeeded = true
is_succeeded _ = false

-- `state IN ('LEASED', 'RUNNING')`
abbrev pub is_held : TaskState → Bool
is_held leased = true
is_held running = true
is_held _ = false

-- `state IN ('PENDING', 'RETRY_WAIT')`
abbrev pub is_admissible : TaskState → Bool
is_admissible pending = true
is_admissible retry_wait = true
is_admissible _ = false

-- `TERMINAL_STATES`
abbrev pub is_terminal : TaskState → Bool
is_terminal succeeded = true
is_terminal failed = true
is_terminal blocked = true
is_terminal dead_letter = true
is_terminal _ = false
