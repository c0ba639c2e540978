-- ===== src/Log/Writer/Open.antt =====
-- src/log/writer/core.rs: opening a log directory, with the recovery of an interrupted commit.
pub mod Recovery
pub mod Crash
pub mod Atomic
use bellbook.Prelude.{
  ℕ, ◌+◌, ◌-◌, ◌*◌, ◌^◌, Bool, true, false, not, ◌&&◌, Option, none, some, List, [], ◌∷◌, ◌==◌, leb,
  nat_ord, if◌then◌else◌, Result, ok, err, or_err, guard, ◌>>=◌, ◌>>◌, take, length, last?,
}
use bellbook.Base.Time.{checked_add, from_last_time}
use bellbook.Record.Kind.{Kind, VerdictResult, kind_ord, verdict_result_ord}
use bellbook.Record.Envelope.{Record}
use bellbook.State.Build.{build_state_unchecked}
use bellbook.Platform.{Platform, Form, sha256_canonical}
use bellbook.Verify.Rules.{VerifierRules}
use bellbook.Verify.RecordChecks.{verify_record}
use bellbook.Verify.Replay.{verify_log}
use bellbook.Log.Errors.{LogError, Logged}
use bellbook.Log.Storage.{Directory, FileLog, Call, Fault, open_file, append, last_record_time}
use bellbook.Log.Writer.{LogWriter, ◌then_do◌, clear_file, materialize_verdict}

abbrev pub default_max_log_bytes : ℕ
default_max_log_bytes = 64 * 2 ^ 20

-- The last record, where it is no verdict.
unfoldable pub unverdicted_tail : List Record → Option Record
unverdicted_tail [] = none
unverdicted_tail (r ∷ []) = if r.kind == Kind.verdict then none else some r
unverdicted_tail (r ∷ next ∷ rs) = unverdicted_tail (next ∷ rs)

-- `records[..records.len() - 1]`.
abbrev pub but_last : List Record → List Record
but_last records = take (length records - 1) records

unfoldable pub complete_prefix : List Record → List Record
unfolding unverdicted_tail
complete_prefix records = elim (unverdicted_tail records) [
  | none ↦ records
  | some r ↦ but_last records
]

-- What opening leaves: a writer or an error, and the directory.
abbrev pub Opened : Type 0
Opened = Logged LogWriter × Directory

abbrev pub release : Directory → Directory
release dir = record dir { locked = false }

module _ (p : Platform) where
  unfoldable pub require_valid_log : List Record → VerifierRules → Logged (Unit {0})
  unfolding verify_log
  require_valid_log records rules =
      let verdict = verify_log p records rules none in
      guard (verdict.result == VerdictResult.accept) (LogError.invalid_existing_log verdict.reason)

  -- The verdict that an interrupted commit still owes.
  unfoldable pub owed_verdict : FileLog → VerifierRules → Record → Logged Record
  unfolding build_state_unchecked verify_record materialize_verdict
  owed_verdict log rules subject = do
    let prior = but_last log.records
    s ← or_err (build_state_unchecked p prior) LogError.serde_json
    let verdict_data = verify_record p subject prior rules s
    verdict_time ← or_err (checked_add subject.time 1) LogError.time_exhausted
    materialize_verdict p subject verdict_time verdict_data

  unfoldable pub recover : Fault → VerifierRules → FileLog → Logged (Unit {0}) × FileLog
  unfolding unverdicted_tail owed_verdict append clear_file
  recover io rules log = elim (unverdicted_tail log.records) [
    | none ↦ clear_file io log
    | some subject ↦ elim (owed_verdict log rules subject) [
      | err e ↦ (err e, log)
      | ok verdict_record ↦ append p io Call.append_verdict verdict_record log then_do clear_file io
    ]
  ]

  -- The last checks, on the log as it is recovered.
  abbrev pub writer_on : FileLog → VerifierRules → Logged LogWriter
  writer_on log rules = do
    require_valid_log log.records rules
    rules_hash ← or_err (sha256_canonical p (Form.rules rules)) LogError.serde_json
    ok record {
      log = log;
      time_source = from_last_time (last_record_time log);
      rules_hash = rules_hash;
      recovery_required = false;
    }

  abbrev pub closed_on_error : Logged LogWriter → Directory → Opened
  closed_on_error (ok w) dir = (ok w, dir)
  closed_on_error (err e) dir = (err e, release dir)

  abbrev pub conclude_open : VerifierRules → Logged (Unit {0}) × FileLog → Opened
  conclude_open rules (err e, log) = (err e, release log.dir)
  conclude_open rules (ok _, log) = closed_on_error (writer_on log rules) log.dir

  abbrev pub resume : Fault → VerifierRules → FileLog → Logged (Unit {0}) → Opened
  resume io rules log (err e) = (err e, release log.dir)
  resume io rules log (ok _) = conclude_open rules (recover io rules log)

  -- On the log as it is read: the complete pairs must be valid before anything is repaired.
  unfoldable pub open_log : Fault → VerifierRules → FileLog → Opened
  unfolding complete_prefix require_valid_log recover sha256_canonical from_last_time
      last_record_time
  open_log io rules log =
      resume io rules log (require_valid_log (complete_prefix log.records) rules)

  abbrev pub open_found : Fault → VerifierRules → Logged FileLog × Directory → Opened
  open_found io rules (err e, dir) = (err e, release dir)
  open_found io rules (ok log, dir) = open_log io rules log

  unfoldable pub open_with_max_bytes : Fault → Directory → VerifierRules → ℕ → Opened
  unfolding open_file open_log
  open_with_max_bytes io dir rules max_file_bytes =
      if dir.locked
      then (err LogError.already_locked, dir)
      else open_found io rules (open_file p io (record dir { locked = true }) max_file_bytes)

  -- `LogWriter::open`.
  unfoldable pub open_writer : Fault → Directory → VerifierRules → Opened
  unfolding open_with_max_bytes
  open_writer io dir rules = open_with_max_bytes io dir rules default_max_log_bytes
