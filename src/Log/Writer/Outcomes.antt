-- ===== src/Log/Writer/Outcomes.antt =====
-- src/log/writer/core.rs: the ends of a commit, and what the writer and the caller's state are then.
use bellbook.Prelude.{
  ℕ, ◌+◌, ◌≡◌, refl, sym, ap, subst, ◌∙◌, Bool, true, false, not, Option, none, some, ◌++◌, ok, err,
  take, inl, inr, Bool-cases, arith, if◌then◌else◌, leb,
}
use bellbook.Base.Hash.{Bytes}
use bellbook.Base.Time.{TimeSource, exhausted, next_time}
use bellbook.Record.Refs.{RecordId}
use bellbook.Record.Payloads.{VerdictData}
use bellbook.Record.Envelope.{Record, Proposal}
use bellbook.State.Defs.{State}
use bellbook.State.Apply.{Fold, apply_record}
use bellbook.State.Build.{finished}
use bellbook.Platform.{Platform}
use bellbook.Verify.Rules.{VerifierRules}
use bellbook.Log.Errors.{LogError, Logged}
use bellbook.Log.Storage.{CommitIntent, FileLog, Call, Fault, encode_record, frame, get_record}
use bellbook.Log.Storage.Appends.{ensure_capacity_for-encodes}
use bellbook.Log.Writer.{
  LogWriter, Ed25519Signer, Outcome, Prepared, with_intent, write_to_file, prepare, write_pair,
  intent_written, finish, publish, settle, attempt, commit_inner,
}
use bellbook.Log.Writer.Steps.{IsPrepared, prepare-IsPrepared}
use bellbook.Log.Writer.Commit.{Leaves, pair_log, write_pair-Leaves}

-- Nothing has changed but, at most, the intent file.
pub record IsUntouched (w : LogWriter) (s : State) (out : Outcome (RecordId × VerdictData))
    : Type 0 where
  pub error : LogError
  pub failed : out.result ≡ err error
  pub writer : out.writer ≡ record w { log = with_intent out.writer.log.dir.intent w.log }
  pub state : out.state ≡ s

module _ (p : Platform) (w : LogWriter) (proposal : Proposal) (rules : VerifierRules) (s : State)
    (signer : Option Ed25519Signer) where
  -- Part of the pair may be on the file, the clock stands still, and the writer takes no more commits.
  pub record IsInterrupted (out : Outcome (RecordId × VerdictData)) : Type 0 where
    pub error : LogError
    pub failed : out.result ≡ err error
    pub blocked : out.writer.recovery_required ≡ true
    pub clock : out.writer.time_source ≡ w.time_source
    pub pair : Prepared
    pub facts : IsPrepared p w proposal rules s signer pair
    pub subject_bytes : Bytes
    pub subject_encoded : encode_record p pair.subject ≡ ok subject_bytes
    pub verdict_bytes : Bytes
    pub verdict_encoded : encode_record p pair.verdict_record ≡ ok verdict_bytes
    pub size : ℕ
    pub file :
        out.writer.log.dir.file
        ≡ w.log.dir.file ++ take size (frame subject_bytes ++ frame verdict_bytes)

  -- The pair is on the file and in memory, the clock is two further, and the state is the fold.
  pub record IsCommitted (out : Outcome (RecordId × VerdictData)) : Type 0 where
    pub pair : Prepared
    pub facts : IsPrepared p w proposal rules s signer pair
    pub result : out.result ≡ ok (pair.subject.id, pair.verdict_data)
    pub subject_bytes : Bytes
    pub subject_encoded : encode_record p pair.subject ≡ ok subject_bytes
    pub verdict_bytes : Bytes
    pub verdict_encoded : encode_record p pair.verdict_record ≡ ok verdict_bytes
    pub log : out.writer.log ≡ pair_log pair subject_bytes verdict_bytes w.log
    pub usable : out.writer.recovery_required ≡ false
    pub hash : out.writer.rules_hash ≡ w.rules_hash
    pub clock : out.writer.time_source.next ≡ w.time_source.next + 2
    pub subject : Record
    pub found : get_record out.writer.log pair.subject.id ≡ some subject
    pub folded : State
    pub folds : finished (apply_record p s subject pair.verdict_data) ≡ some folded
    pub state : out.state ≡ record folded { applied_up_to = pair.verdict_time }

  pub data Ends (out : Outcome (RecordId × VerdictData)) : Type 0 where
    untouched : IsUntouched w s out → Ends out
    interrupted : IsInterrupted out → Ends out
    committed : IsCommitted out → Ends out

  next_time-twice :
      exhausted w.time_source ≡ false
      → (next_time (next_time w.time_source).1).1.next ≡ w.time_source.next + 2
  unfolding exhausted next_time
  next_time-twice live = ground (arith, live)

  module _ (pr : Prepared) (facts : IsPrepared p w proposal rules s signer pr) (a b : Bytes)
      (subject_encoded : encode_record p pr.subject ≡ ok a)
      (verdict_encoded : encode_record p pr.verdict_record ≡ ok b) where
    cut_off :
        (out : Outcome (RecordId × VerdictData)) (error : LogError) (size : ℕ)
        → out.result ≡ err error
        → out.writer.recovery_required ≡ true
        → out.writer.time_source ≡ w.time_source
        → out.writer.log.dir.file ≡ w.log.dir.file ++ take size (frame a ++ frame b)
        → Ends out
    cut_off out error size failed blocked clock file = interrupted record {
      error = error;
      failed = failed;
      blocked = blocked;
      clock = clock;
      pair = pr;
      facts = facts;
      subject_bytes = a;
      subject_encoded = subject_encoded;
      verdict_bytes = b;
      verdict_encoded = verdict_encoded;
      size = size;
      file = file;
    }

    -- What is left to do once the pair is written.
    publish-Ends :
        (v : LogWriter) (size : ℕ) (found : Option Record)
        → v.log ≡ pair_log pr a b w.log
        → v.log.dir.file ≡ w.log.dir.file ++ take size (frame a ++ frame b)
        → v.recovery_required ≡ true
        → v.time_source ≡ w.time_source
        → v.rules_hash ≡ w.rules_hash
        → get_record v.log pr.subject.id ≡ found
        → Ends (publish p pr v s found)
    publish-Ends v size none log file blocked clock hash lookup =
        cut_off _ LogError.corrupted_recovery size refl blocked clock file
    publish-Ends v size (some subject) log file blocked clock hash lookup =
        by_fold (apply_record p s subject pr.verdict_data) refl
      where
        by_fold : (f : Fold) → apply_record p s subject pr.verdict_data ≡ f → Ends (finish p pr v f)
        by_fold (t, false) e = cut_off _ LogError.serde_json size refl blocked clock file
        by_fold (t, true) e = committed record {
          pair = pr;
          facts = facts;
          result = refl;
          subject_bytes = a;
          subject_encoded = subject_encoded;
          verdict_bytes = b;
          verdict_encoded = verdict_encoded;
          log = log;
          usable = refl;
          hash = hash;
          clock =
              ap (λ (c : TimeSource). (next_time (next_time c).1).1.next) clock
              ∙ next_time-twice facts.live;
          subject = subject;
          found = lookup;
          folded = t;
          folds = ap finished e;
          state = refl;
        }

    settle-Ends :
        (io : Fault) (out : Logged (Unit {0}) × FileLog)
        → intent_written p io ≡ true
        → Leaves w.log pr a b out
        → Ends (settle p io pr w s out)
    settle-Ends io (err e, log) begun leaves = cut_off _ e leaves.size refl begun refl leaves.file
    settle-Ends io (ok _, log) begun leaves =
        publish-Ends (record w { log = log; recovery_required = intent_written p io }) leaves.size _
          (leaves.finished refl) leaves.file begun refl refl refl

  -- Where not even the intent could be written.
  unbegun :
      (io : Fault) (intent : CommitIntent) (renamed flag : Bool)
      → flag ≡ w.recovery_required
      → IsUntouched w s (record {
        result = err LogError.io;
        writer = record w {
          log = if renamed then with_intent (some intent) w.log else w.log;
          recovery_required = flag;
        };
        state = s;
      })
  unbegun io intent true flag same = record {
    error = LogError.io;
    failed = refl;
    writer =
        ap (λ f. record w { log = with_intent (some intent) w.log; recovery_required = f }) same;
    state = refl;
  }
  unbegun io intent false flag same = record {
    error = LogError.io;
    failed = refl;
    writer = ap (λ f. record w { recovery_required = f }) same;
    state = refl;
  }

  begin-fails :
      (io : Fault) (pr : Prepared)
      → io.fails Call.write_intent ≡ true
      → write_pair p io pr w.log ≡ (
        err LogError.io,
        if leb 1 io.kept
            then with_intent (some record { subject_id = pr.subject.id; written = false }) w.log
            else w.log,
      )
  unfolding write_pair write_to_file
  begin-fails io pr fails = rw (write_pair, write_to_file, fails) refl

  -- A commit ends in one of three ways. Either it fails and nothing has changed but, at most, the intent
  -- file; or it fails after its intent is on file, and then the file holds a part of the pair's frames,
  -- the clock has not moved and the writer asks for recovery; or it succeeds, and then subject and
  -- verdict are on the file and in memory, the verdict is the one that verifying the subject on the
  -- records before gives, the clock is two further, and the caller's state is folded.
  pub commit_inner-Ends : (io : Fault) → Ends (commit_inner p io w proposal rules s signer)
  unfolding commit_inner
  commit_inner-Ends io = by_check (prepare p w proposal rules s signer) refl
    where
      by_check :
          (prepared : Logged Prepared)
          → prepare p w proposal rules s signer ≡ prepared
          → Ends (attempt p io w s prepared)
      by_check (err e) refused =
          untouched record { error = e; failed = refl; writer = refl; state = refl }
      by_check (ok pr) passed =
          let facts = prepare-IsPrepared p w proposal rules s signer pr passed in
          let ((a, e1), (b, e2)) =
            ensure_capacity_for-encodes p w.log pr.subject pr.verdict_record facts.room in
          elim (Bool-cases (io.fails Call.write_intent)) [
            | inl fails ↦
                subst (λ out. Ends (settle p io pr w s out)) (sym (begin-fails io pr fails))
                  (untouched (
                    unbegun io (record { subject_id = pr.subject.id; written = false })
                      (leb 1 io.kept) (intent_written p io) (ap not fails ∙ sym facts.writable)))
            | inr works ↦
                settle-Ends pr facts a b e1 e2 io (write_pair p io pr w.log) (ap not works)
                  (write_pair-Leaves p io w.log pr a b e1 e2)
          ]
