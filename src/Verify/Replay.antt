-- ===== src/Verify/Replay.antt =====
-- src/verify/verifier/replay.rs: the verification of a whole log.
pub mod Steps
pub mod Taint
pub mod Pairs
pub mod Count
pub mod Edges
pub mod Verdicts
pub mod Checkpoints
use bellbook.Prelude.{
  ℕ, ◌+◌, Bool, true, false, ◌&&◌, Option, none, some, List, [], ◌∷◌, ◌==◌, leb, nat_ord,
  option_ord, Result, ok, err, or_err, guard, ◌>>=◌, ◌>>◌, unwrap_or, if◌then◌else◌, last?, take,
  drop, map, length, all,
}
use bellbook.Prelude.Map.{BTreeSet}
use bellbook.Base.Hash.{Hash256, sha256_concat_ids}
use bellbook.Base.Time.{checked_add}
use bellbook.Record.Kind.{
  Kind, RefType, ReasonCode, VerdictResult, kind_ord, reason_ord, verdict_result_ord,
}
use bellbook.Record.Refs.{RecordId, Ref, find_ref}
use bellbook.Record.Payloads.{Time, VerdictData}
use bellbook.Record.Envelope.{Record}
use bellbook.State.Defs.{State, default_state}
use bellbook.State.Apply.{apply_record}
use bellbook.State.Build.{finished, last_time, build_state_unchecked}
use bellbook.Platform.{Platform, PayloadType, Form, sha256_canonical, compute_id}
use bellbook.Verify.Rules.{VerifierRules}
use bellbook.Verify.Prior.{
  PriorIndex, Prior, empty_index, insert_record, index_of, view_prior, find_record,
}
use bellbook.Verify.Check.{Checked, reject_if, dec}
use bellbook.Verify.RecordChecks.{check_verdict_record, check_record, verdict_of}

-- src/checkpoint.rs: the claims about a prefix, and the rules under which it was verified.
pub record Checkpoint : Type 0 where
  pub log_length : ℕ
  pub last_time : Time
  pub last_record_id : RecordId
  pub state_hash : Hash256
  pub log_hash : Hash256

pub record TrustedCheckpoint : Type 0 where
  pub checkpoint : Checkpoint
  pub rules_hash : Hash256

-- Without the standing section.
pub record LogVerdict : Type 0 where
  pub result : VerdictResult
  pub reason : Option ReasonCode
  pub checked_records : ℕ
  pub last_time : Time
  pub retracted_records : BTreeSet RecordId
  pub tainted_records : BTreeSet RecordId

-- The variables of the loop.
pub record Progress : Type 0 where
  pub state : State
  pub index : PriorIndex
  pub checked : ℕ

abbrev pub start : Progress
start = record { state = default_state; index = empty_index; checked = 0 }

-- A refusal carries the number of records checked before it.
abbrev pub Replay : Type 0 → Type 0
Replay A = Result A (ReasonCode × ℕ)

unfoldable pub at : {A : Type 0} → ℕ → Checked A → Replay A
at n (ok a) = ok a
at n (err reason) = err (reason, n)

-- Each time is its predecessor's plus one.
unfoldable pub times_fit : List Record → Bool
times_fit [] = true
times_fit (r ∷ []) = true
times_fit (r ∷ next ∷ rs) = checked_add r.time 1 == some next.time && times_fit (next ∷ rs)

abbrev pub starts_at_one : List Record → Bool
starts_at_one [] = true
starts_at_one (r ∷ rs) = r.time == 1

abbrev pub starts_with_verdict : List Record → Bool
starts_with_verdict [] = false
starts_with_verdict (r ∷ rs) = r.kind == Kind.verdict

abbrev pub last_id : List Record → RecordId
last_id records = elim (last? records) [ none ↦ 0 | some r ↦ r.id ]

-- `refs[0].target == id`, where the checks before have found a ref.
abbrev pub first_target : List Ref → RecordId → Bool
first_target [] id = false
first_target (x ∷ refs) id = x.target == id

abbrev pub same_verdict : VerdictData → VerdictData → Bool
same_verdict a b = a.result == b.result && a.reason == b.reason

-- How the outcome of the replay is reported; the taint sets are shown only for an accepted log.
unfoldable pub conclude : List Record → Replay Progress → LogVerdict
conclude records (ok pr) = record {
  result = VerdictResult.accept;
  reason = none;
  checked_records = pr.checked;
  last_time = last_time records;
  retracted_records = pr.state.retracted_records;
  tainted_records = pr.state.tainted_records;
}
conclude records (err e) = record {
  result = VerdictResult.reject;
  reason = some e.0;
  checked_records = e.1;
  last_time = last_time records;
  retracted_records = [];
  tainted_records = [];
}

module _ (p : Platform) where
  unfoldable pub id_fits : Record → Bool
  id_fits r = elim (compute_id p r) [ none ↦ false | some id ↦ r.id == id ]

  -- The checkpoint's claims against the records, and where the replay starts.
  unfoldable pub seed :
      Option TrustedCheckpoint → List Record → VerifierRules → Checked (ℕ × Progress)
  unfolding sha256_concat_ids
  seed none records rules = ok (0, start)
  seed (some trusted) records rules = do
    h ← or_err (sha256_canonical p (Form.rules rules)) ReasonCode.invalid_checkpoint
    guard (h == trusted.rules_hash) ReasonCode.invalid_checkpoint
    let cp = trusted.checkpoint
    guard (leb cp.log_length (length records)) ReasonCode.invalid_checkpoint
    let prefix = take cp.log_length records
    guard (sha256_concat_ids p.sha256 (map (λ r. r.id) prefix) == cp.log_hash)
        ReasonCode.invalid_checkpoint
    reject_if (starts_with_verdict (drop cp.log_length records)) ReasonCode.invalid_checkpoint
    s ← or_err (build_state_unchecked p prefix) ReasonCode.invalid_payload
    state_hash ← or_err (sha256_canonical p (Form.state s)) ReasonCode.invalid_payload
    guard
        (cp.last_time == last_time prefix
          && cp.last_record_id == last_id prefix
          && cp.state_hash == state_hash)
        ReasonCode.invalid_checkpoint
    ok (cp.log_length, record { state = s; index = index_of prefix; checked = 0 })

  abbrev pub fold_subject : Option Record → VerdictData → State → Option State
  fold_subject none verdict s = some s
  fold_subject (some subject) verdict s = finished (apply_record p s subject verdict)

  -- A verdict that does not directly follow its subject.
  unfoldable pub replay_verdict :
      List Record → VerifierRules → ℕ → Record → Progress → Checked Progress
  unfolding check_verdict_record
  replay_verdict records rules pos r pr = do
    let prior = view_prior records pr.index
    check_verdict_record p r prior rules
    stored ← dec p PayloadType.verdict r.payload
    subject_id ← or_err (find_ref RefType.cause r.refs) ReasonCode.invalid_payload
    s ←
        or_err (fold_subject (find_record prior subject_id) stored pr.state)
          ReasonCode.invalid_payload
    ok record {
      state = record s { applied_up_to = r.time };
      index = insert_record pos r pr.index;
      checked = pr.checked + 1;
    }

  -- A subject and the verdict that follows it.
  unfoldable pub replay_pair :
      List Record → VerifierRules → ℕ → Record → Record → Progress → Checked Progress
  unfolding check_record verdict_of
  replay_pair records rules pos r next pr = do
    guard (next.kind == Kind.verdict) ReasonCode.invalid_payload
    let index = insert_record pos r pr.index
    let prior = view_prior records index
    check_verdict_record p next prior rules
    guard (first_target next.refs r.id) ReasonCode.invalid_payload
    let recomputed = verdict_of (check_record p r prior rules pr.state)
    stored ← dec p PayloadType.verdict next.payload
    guard (same_verdict recomputed stored) (unwrap_or recomputed.reason ReasonCode.invalid_payload)
    s ← or_err (finished (apply_record p pr.state r stored)) ReasonCode.invalid_payload
    ok record {
      state = record s { applied_up_to = next.time };
      index = insert_record (pos + 1) next index;
      checked = pr.checked + 2;
    }

  -- The loop, over the records from position `pos` on.
  unfoldable pub replay : List Record → VerifierRules → ℕ → List Record → Progress → Replay Progress
  unfolding replay_verdict replay_pair at
  replay records rules pos [] pr = ok pr
  replay records rules pos (r ∷ []) pr = elim (r.kind == Kind.verdict) [
    | true ↦ at pr.checked (replay_verdict records rules pos r pr)
    | false ↦ err (ReasonCode.invalid_payload, pr.checked)
  ]
  replay records rules pos (r ∷ next ∷ rs) pr = elim (r.kind == Kind.verdict) [
    | true ↦
        at pr.checked (replay_verdict records rules pos r pr)
        >>= (λ q. replay records rules (pos + 1) (next ∷ rs) q)
    | false ↦
        at pr.checked (replay_pair records rules pos r next pr)
        >>= (λ q. replay records rules (pos + 2) rs q)
  ]

  unfoldable pub replay_from :
      List Record → VerifierRules → Option TrustedCheckpoint → Replay Progress
  unfolding seed times_fit id_fits replay
  replay_from records rules checkpoint = do
    from ← at 0 (seed checkpoint records rules)
    at 0 (guard (times_fit records) ReasonCode.invalid_payload)
    at 0 (guard (starts_at_one records) ReasonCode.invalid_payload)
    at 0 (guard (all id_fits records) ReasonCode.invalid_payload)
    replay records rules from.0 (drop from.0 records) from.1

  unfoldable pub verify_log : List Record → VerifierRules → Option TrustedCheckpoint → LogVerdict
  unfolding replay_from conclude
  verify_log records rules checkpoint = conclude records (replay_from records rules checkpoint)

  -- src/state/build.rs: the state of a log that replays; the refusal otherwise.
  unfoldable pub verify_and_build_state : List Record → VerifierRules → Result State LogVerdict
  unfolding verify_log
  verify_and_build_state records rules =
      let verdict = verify_log records rules none in
      if verdict.result == VerdictResult.accept
      then or_err (build_state_unchecked p records) (record verdict {
        result = VerdictResult.reject;
        reason = some ReasonCode.invalid_payload;
      })
      else err verdict
