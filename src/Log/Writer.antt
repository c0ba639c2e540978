-- ===== src/Log/Writer.antt =====
-- src/log/writer: the single writer. A commit checks everything first and touches nothing, then
-- writes the intent, the subject, the intent's mark and the verdict, and clears the intent; the file
-- system's failures are a `Fault`, and what a failed call leaves behind stays.
pub mod Open
pub mod Batch
pub mod Steps
pub mod Commit
pub mod Outcomes
pub mod Space
use bellbook.Prelude.{
  ℕ, ◌+◌, ◌^◌, ◌-◌, String, Bool, true, false, not, ◌&&◌, Option, none, some, List, [], ◌∷◌, ◌==◌,
  leb, nat_ord, string_ord, pair_ord, option_ord, list_ord, if◌then◌else◌, Result, ok, err, or_err,
  guard, ◌>>=◌, ◌>>◌, unwrap_or, map,
}
use bellbook.Prelude.Map.{get}
use bellbook.Base.Hash.{Bytes, Hash256}
use bellbook.Base.Time.{TimeSource, checked_add, peek, next_time, exhausted}
use bellbook.Base.Schema.{schema_id, schema_verdict}
use bellbook.Record.Kind.{Kind, RefType, AuthorType, kind_ord, ref_type_ord, author_type_ord}
use bellbook.Record.Refs.{RecordId, Ref, ref_key, sort_and_dedup_refs}
use bellbook.Record.Evidence.{Evidence, derive_evidence}
use bellbook.Record.Payloads.{Time, VerdictData}
use bellbook.Record.Envelope.{Record, Proposal, Author, Signature, signing_form}
use bellbook.State.Defs.{State, ref_evidence}
use bellbook.State.Equality.{same_state}
use bellbook.State.Apply.{Fold, apply_record}
use bellbook.State.Build.{build_state_unchecked}
use bellbook.Platform.{Platform, PayloadType, Form, sha256_canonical, compute_id}
use bellbook.Verify.Rules.{VerifierRules}
use bellbook.Verify.RecordChecks.{verify_record}
use bellbook.Log.Errors.{LogError, Logged}
use bellbook.Log.Storage.{
  CommitIntent, Directory, FileLog, Call, Fault, get_record, ensure_capacity_for, append,
}

pub record LogWriter : Type 0 where
  pub log : FileLog
  pub time_source : TimeSource
  pub rules_hash : Hash256
  pub recovery_required : Bool

-- src/record/sign.rs: a signing key, by its public key's hex text and its Ed25519 signatures.
pub record Ed25519Signer : Type 0 where
  pub public_key_hex : String
  pub sign_bytes : Bytes → Bytes

-- What a call of the writer leaves: its result, the writer, and the caller's state.
pub record Outcome (A : Type 0) : Type 0 where
  pub result : Logged A
  pub writer : LogWriter
  pub state : State

-- src/log/writer/intent.rs: the rename of `write_to_file` and the removal of `clear_file` are atomic;
-- where the call fails, either may have happened.
abbrev pub with_intent : Option CommitIntent → FileLog → FileLog
with_intent intent log = record log { dir = record (log.dir) { intent = intent } }

unfoldable pub write_to_file : Fault → Call → CommitIntent → FileLog → Logged (Unit {0}) × FileLog
write_to_file io call intent log = elim (io.fails call) [
  | true ↦ (err LogError.io, if leb 1 io.kept then with_intent (some intent) log else log)
  | false ↦ (ok tt, with_intent (some intent) log)
]

unfoldable pub clear_file : Fault → FileLog → Logged (Unit {0}) × FileLog
clear_file io log = elim log.dir.intent [
  | none ↦ (ok tt, log)
  | some intent ↦ elim (io.fails Call.clear_intent) [
    | true ↦ (err LogError.io, if leb 1 io.kept then with_intent none log else log)
    | false ↦ (ok tt, with_intent none log)
  ]
]

-- `?` on a call that changes the log.
infixr 5 ◌then_do◌
abbrev pub ◌then_do◌ :
    Logged (Unit {0}) × FileLog
    → (FileLog → Logged (Unit {0}) × FileLog)
    → Logged (Unit {0}) × FileLog
(err e, log) then_do next = (err e, log)
(ok _, log) then_do next = next log

abbrev same_signature : Option Signature → Option Signature → Bool
same_signature none none = true
same_signature (some a) (some b) = a.key_id == b.key_id && a.sig == b.sig
same_signature _ _ = false

abbrev same_author : Author → Author → Bool
same_author a b = a.id == b.id && a.type_ == b.type_ && same_signature a.signature b.signature

-- src/log/writer/helpers.rs.
unfoldable pub proposal_matches_record : Proposal → Record → Bool
proposal_matches_record proposal r =
    r.space == proposal.space
    && r.thread == proposal.thread
    && same_author r.author proposal.author
    && r.kind == proposal.kind
    && r.schema == proposal.schema
    && r.payload == proposal.payload
    && map ref_key r.refs == map ref_key (sort_and_dedup_refs proposal.refs)

-- The evidence of the refs that resolve, in the proposal's order.
unfoldable pub proposal_evidences : List Ref → FileLog → State → List Evidence
unfolding ref_evidence get_record
proposal_evidences [] log s = []
proposal_evidences (x ∷ refs) log s =
    let rest = proposal_evidences refs log s in
    elim (get_record log x.target) [
      | none ↦ rest
      | some t ↦ elim (ref_evidence s x t) [ none ↦ rest | some e ↦ e ∷ rest ]
    ]

-- What the checks of a commit give: the pair to be written.
pub record Prepared : Type 0 where
  pub subject : Record
  pub verdict_data : VerdictData
  pub verdict_record : Record
  pub verdict_time : Time

module _ (p : Platform) where
  unfoldable pub with_computed_id : Record → Logged Record
  unfolding compute_id
  with_computed_id r = do id ← or_err (compute_id p r) LogError.serde_json; ok record r { id = id }

  unfoldable pub sign : Ed25519Signer → Record → Logged Signature
  unfolding signing_form
  sign signer r = do
    canonical ← or_err (p.canonical_json (Form.signing (signing_form r))) LogError.serde_json
    ok record { key_id = signer.public_key_hex; sig = signer.sign_bytes canonical }

  abbrev signed : Option Ed25519Signer → Record → Logged Record
  signed none r = ok r
  signed (some signer) r = do
    signature ← sign signer r
    ok record r { author = record (r.author) { signature = some signature } }

  abbrev pub verdict_body : Record → Time → Bytes → Record
  verdict_body subject verdict_time payload = record {
    id = 0;
    space = subject.space;
    thread = subject.thread;
    time = verdict_time;
    author = record { id = "verifier"; type_ = AuthorType.verifier; signature = none };
    kind = Kind.verdict;
    schema = schema_id p.sha256 schema_verdict;
    payload = payload;
    refs = record { type_ = RefType.cause; target = subject.id } ∷ [];
    evidence = Evidence.deterministic;
  }

  unfoldable pub materialize_verdict : Record → Time → VerdictData → Logged Record
  unfolding with_computed_id
  materialize_verdict subject verdict_time verdict_data = do
    payload ←
        or_err (p.canonical_json (Form.payload PayloadType.verdict verdict_data))
          LogError.serde_json
    with_computed_id (verdict_body subject verdict_time payload)

  unfoldable pub ensure_writable : LogWriter → Logged (Unit {0})
  ensure_writable w = if w.recovery_required then err LogError.recovery_required else ok tt

  unfoldable pub ensure_rules_match : LogWriter → VerifierRules → Logged (Unit {0})
  unfolding sha256_canonical
  ensure_rules_match w rules = do
    hash ← or_err (sha256_canonical p (Form.rules rules)) LogError.serde_json
    guard (hash == w.rules_hash) LogError.rules_mismatch

  unfoldable pub ensure_state_matches : LogWriter → State → Logged (Unit {0})
  unfolding build_state_unchecked same_state
  ensure_state_matches w s = do
    expected ← or_err (build_state_unchecked p w.log.records) LogError.serde_json
    guard (same_state expected s) LogError.state_mismatch

  -- The record that a proposal becomes, before its id.
  abbrev pub materialize : Proposal → Time → Evidence → Record
  materialize proposal time evidence = record {
    id = 0;
    space = proposal.space;
    thread = proposal.thread;
    time = time;
    author = proposal.author;
    kind = proposal.kind;
    schema = proposal.schema;
    payload = proposal.payload;
    refs = sort_and_dedup_refs proposal.refs;
    evidence = evidence;
  }

  -- Everything before the durable phase.
  unfoldable pub prepare :
      LogWriter → Proposal → VerifierRules → State → Option Ed25519Signer → Logged Prepared
  unfolding ensure_writable ensure_rules_match ensure_state_matches proposal_evidences
      with_computed_id materialize_verdict derive_evidence sort_and_dedup_refs verify_record sign
  prepare w proposal rules s signer = do
    ensure_writable w
    ensure_rules_match w rules
    ensure_state_matches w s
    guard (not (exhausted w.time_source)) LogError.time_exhausted
    let evidence =
        derive_evidence p.sha256 proposal.schema (proposal_evidences proposal.refs w.log s)
    let time = peek w.time_source
    verdict_time ← or_err (checked_add time 1) LogError.time_exhausted
    unidentified ← signed signer (materialize proposal time evidence)
    subject ← with_computed_id unidentified
    let verdict_data = verify_record p subject w.log.records rules s
    verdict_record ← materialize_verdict subject verdict_time verdict_data
    ensure_capacity_for p w.log (subject ∷ verdict_record ∷ [])
    ok record {
      subject = subject;
      verdict_data = verdict_data;
      verdict_record = verdict_record;
      verdict_time = verdict_time;
    }

  -- Steps 3 to 6, up to the intent's removal.
  unfoldable pub write_pair : Fault → Prepared → FileLog → Logged (Unit {0}) × FileLog
  unfolding write_to_file append clear_file
  write_pair io pr log =
      let intent : CommitIntent = record { subject_id = pr.subject.id; written = false } in
      write_to_file io Call.write_intent intent log then_do λ begun.
      append p io Call.append_subject pr.subject begun then_do λ half.
      write_to_file io Call.mark_intent (record intent { written = true }) half then_do λ marked.
      append p io Call.append_verdict pr.verdict_record marked then_do λ whole. clear_file io whole

  -- `recovery_required` is set once the intent is written, and cleared at the end.
  abbrev pub intent_written : Fault → Bool
  intent_written io = not (io.fails Call.write_intent)

  abbrev pub finish : Prepared → LogWriter → Fold → Outcome (RecordId × VerdictData)
  finish pr w (s, false) = record { result = err LogError.serde_json; writer = w; state = s }
  finish pr w (s, true) = record {
    result = ok (pr.subject.id, pr.verdict_data);
    writer = record w {
      time_source = (next_time (next_time w.time_source).1).1;
      recovery_required = false;
    };
    state = record s { applied_up_to = pr.verdict_time };
  }

  -- The fold of the pair into the caller's state.
  abbrev pub publish :
      Prepared → LogWriter → State → Option Record → Outcome (RecordId × VerdictData)
  publish pr w s none = record { result = err LogError.corrupted_recovery; writer = w; state = s }
  publish pr w s (some subject) = finish pr w (apply_record p s subject pr.verdict_data)

  abbrev pub settle :
      Fault
      → Prepared
      → LogWriter
      → State
      → Logged (Unit {0}) × FileLog
      → Outcome (RecordId × VerdictData)
  settle io pr w s (err e, log) = record {
    result = err e;
    writer = record w { log = log; recovery_required = intent_written io };
    state = s;
  }
  settle io pr w s (ok _, log) =
      publish pr (record w { log = log; recovery_required = intent_written io }) s
        (get_record log pr.subject.id)

  abbrev pub attempt :
      Fault → LogWriter → State → Logged Prepared → Outcome (RecordId × VerdictData)
  attempt io w s (err e) = record { result = err e; writer = w; state = s }
  attempt io w s (ok pr) = settle io pr w s (write_pair io pr w.log)

  unfoldable pub commit_inner :
      Fault
      → LogWriter
      → Proposal
      → VerifierRules
      → State
      → Option Ed25519Signer
      → Outcome (RecordId × VerdictData)
  unfolding prepare write_pair get_record apply_record next_time
  commit_inner io w proposal rules s signer = attempt io w s (prepare w proposal rules s signer)

  unfoldable pub commit :
      Fault → LogWriter → Proposal → VerifierRules → State → Outcome (RecordId × VerdictData)
  unfolding commit_inner
  commit io w proposal rules s = commit_inner io w proposal rules s none

  unfoldable pub commit_signed :
      Fault
      → LogWriter
      → Proposal
      → VerifierRules
      → State
      → Ed25519Signer
      → Outcome (RecordId × VerdictData)
  unfolding commit_inner
  commit_signed io w proposal rules s signer = commit_inner io w proposal rules s (some signer)
