-- ===== src/Log/Errors.antt =====
-- src/lib.rs: the errors of the writer. What an I/O or a serde error carries is left out.
use bellbook.Prelude.{ℕ, Option, Result}
use bellbook.Record.Kind.{ReasonCode}
use bellbook.Record.Refs.{RecordId}

pub data LogError : Type 0 where
  already_locked io corrupted_recovery recovery_required time_exhausted : LogError
  head_conflict : (expected actual : RecordId) → LogError
  record_too_large : (bytes : ℕ) → LogError
  log_size_limit_exceeded : (bytes max_bytes : ℕ) → LogError
  invalid_existing_log : Option ReasonCode → LogError
  state_mismatch rules_mismatch serde_json : LogError

abbrev pub Logged : Type 0 → Type 0
Logged A = Result A LogError
