-- ===== src/Video/Status.antt =====
-- internal/video/domain/job_status.go: the positions of a job and the edges between them.
use video_processor.Prelude.{Text, text_eq, text_eq_iff, Bool, true, false, ◌||◌, ◌≡◌, ◌↔◌, arith}

-- The five strings that the code names, and any other text that a row may hold.
pub data JobStatus : Type 0 where
  pending queued processing completed failed : JobStatus
  unrecognized : Text → JobStatus

-- `s == t` on the strings.
unfoldable pub status_eq : JobStatus → JobStatus → Bool
status_eq pending pending = true
status_eq queued queued = true
status_eq processing processing = true
status_eq completed completed = true
status_eq failed failed = true
status_eq (unrecognized s) (unrecognized t) = text_eq s t
status_eq _ _ = false

unfoldable pub can_transition_to : JobStatus → JobStatus → Bool
can_transition_to pending queued = true
can_transition_to queued processing = true
can_transition_to processing completed = true
can_transition_to processing failed = true
can_transition_to processing queued = true
can_transition_to _ _ = false

unfoldable pub is_valid : JobStatus → Bool
is_valid pending = true
is_valid queued = true
is_valid processing = true
is_valid completed = true
is_valid failed = true
is_valid (unrecognized s) = false

-- `isTerminal` of terminal_write.go, and `isTerminalStatus` of the repository.
unfoldable pub is_terminal : JobStatus → Bool
unfolding status_eq
is_terminal s = status_eq s completed || status_eq s failed

pub status_eq_iff : (s t : JobStatus) → (status_eq s t ≡ true) ↔ (s ≡ t)
unfolding status_eq
status_eq_iff (unrecognized s) (unrecognized t) = ground (arith, text_eq_iff s t)
status_eq_iff _ _ = ground arith
