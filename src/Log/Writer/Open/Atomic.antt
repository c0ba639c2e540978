-- ===== src/Log/Writer/Open/Atomic.antt =====
-- src/log/writer/core.rs: the commit protocol is atomic under failures of the file system.
use bellbook.Prelude.{
  append_assoc, append_nil, ℕ, ◌+◌, ◌≤◌, ◌≡◌, refl, sym, ap, ◌∙◌, true, false, Option, none, List,
  [], ◌∷◌, ◌++◌, ◌==◌, ==_iff, nat_ord, ok, err, length, length-append, take, inl, inr, arith, ◌⊎◌,
  guard-eq-ok,
}
use bellbook.Base.Hash.{Bytes}
use bellbook.Record.Kind.{Kind, kind_ord, VerdictResult, verdict_result_ord}
use bellbook.Record.Envelope.{Record, Proposal}
use bellbook.State.Defs.{State}
use bellbook.Platform.{Platform}
use bellbook.Verify.Rules.{VerifierRules}
use bellbook.Verify.Replay.{verify_log}
use bellbook.Verify.Replay.Verdicts.{ends_judged, verify_log-Judged}
use bellbook.Log.Errors.{Logged}
use bellbook.Log.Storage.{Directory, FileLog, Fault, no_fault, usize_max, encode_record, frame}
use bellbook.Log.Storage.Frames.{
  ReadsBack, IsTorn, file_of, file_of-snoc, length-frame, encode_record-eq-ok,
}
use bellbook.Log.Storage.Appends.{ensure_capacity_for-encodes, ensure_capacity_for-room}
use bellbook.Log.Writer.{LogWriter, Ed25519Signer, Prepared, prepare, commit_inner, attempt}
use bellbook.Log.Writer.Steps.{materialize_verdict-place, IsPrepared, prepare-IsPrepared}
use bellbook.Log.Writer.Commit.{write_pair-Leaves, write_pair-whole, log-commit_inner}
use bellbook.Log.Writer.Open.{unverdicted_tail, require_valid_log, writer_on}
use bellbook.Log.Writer.Open.Recovery.{unverdicted_tail-snoc}
use bellbook.Log.Writer.Open.Crash.{
  cut_first, cut_last, length-take_le, nil-IsTorn, reopened, kept, owed_verdict-made,
  reopened-judged, reopened-owed,
}

unverdicted_tail-judged :
    (records : List Record) → ends_judged records ≡ true → unverdicted_tail records ≡ none
unfolding unverdicted_tail
unverdicted_tail-judged [] h = refl
unverdicted_tail-judged (r ∷ []) h = rw (unverdicted_tail, h) refl
unverdicted_tail-judged (r ∷ next ∷ rs) h = unverdicted_tail-judged (next ∷ rs) h

module _ (p : Platform) where
  -- A log that opening finds valid ends with a verdict.
  require_valid_log-judged :
      (records : List Record) (rules : VerifierRules)
      → require_valid_log p records rules ≡ ok tt
      → unverdicted_tail records ≡ none
  unfolding require_valid_log
  require_valid_log-judged records rules valid =
      let verdict = verify_log p records rules none in
      let accepted = (==_iff verdict.result VerdictResult.accept).0 (guard-eq-ok _ _ valid) in
      unverdicted_tail-judged records (verify_log-Judged p records rules accepted).1

  module _ (codec : ReadsBack p) (w : LogWriter) (proposal : Proposal) (rules : VerifierRules)
      (s : State) (signer : Option Ed25519Signer)
      (stored : file_of p w.log.records ≡ ok w.log.dir.file)
      (valid : require_valid_log p w.log.records rules ≡ ok tt)
      (other : (proposal.kind == Kind.verdict) ≡ false) where
    abbrev after : Fault → Directory
    after io = (commit_inner p io w proposal rules s signer).writer.log.dir

    abbrev reopen : Directory → Logged LogWriter
    reopen = reopened p rules w.log.max_file_bytes

    module _ (pr : Prepared) (passed : prepare p w proposal rules s signer ≡ ok pr) (a b : Bytes)
        (subject_encoded : encode_record p pr.subject ≡ ok a)
        (verdict_encoded : encode_record p pr.verdict_record ≡ ok b) where
      abbrev judged : List Record
      judged = (w.log.records ++ pr.subject ∷ []) ++ pr.verdict_record ∷ []

      abbrev whole_file : Bytes
      whole_file = (w.log.dir.file ++ frame a) ++ frame b

      facts : IsPrepared p w proposal rules s signer pr
      facts = prepare-IsPrepared p w proposal rules s signer pr passed

      half_stored : file_of p (w.log.records ++ pr.subject ∷ []) ≡ ok (w.log.dir.file ++ frame a)
      half_stored = file_of-snoc p w.log.records w.log.dir.file pr.subject a stored subject_encoded

      -- A whole log and a torn frame after it stay within the limits that the pair was found room in.
      within :
          (file rest : Bytes)
          → length file + length rest ≤ length w.log.dir.file + (4 + length a) + (4 + length b)
          → (length (file ++ rest) ≤ w.log.max_file_bytes) × (length (file ++ rest) ≤ usize_max)
      within file rest small =
          let (room, bounded) =
            ensure_capacity_for-room p w.log pr.subject pr.verdict_record a b subject_encoded
              verdict_encoded facts.room in
          let size = length-append file rest in
          (omega (arith, size, small, room), omega (arith, size, small, bounded))

      half_size : length (w.log.dir.file ++ frame a) ≡ length w.log.dir.file + (4 + length a)
      half_size = omega (arith, length-append w.log.dir.file (frame a), length-frame a)

      -- Any directory with the whole file opens as the log with the pair.
      reopen-whole :
          (dir : Directory)
          → dir.file ≡ whole_file
          → reopen dir ≡ writer_on p (kept p rules w.log.max_file_bytes judged whole_file) rules
      reopen-whole dir shape =
          let size = length-append (w.log.dir.file ++ frame a) (frame b) in
          let (room, small) =
            within whole_file [] (omega (arith, size, half_size, length-frame b)) in
          let is_verdict =
            materialize_verdict-place p pr.subject pr.verdict_time pr.verdict_data pr.verdict_record
              facts.verdict_made in
          let last = (==_iff pr.verdict_record.kind Kind.verdict).1 is_verdict.0 in
          reopened-judged p rules w.log.max_file_bytes codec dir judged whole_file []
            (file_of-snoc p (w.log.records ++ pr.subject ∷ []) (w.log.dir.file ++ frame a)
              pr.verdict_record b half_stored verdict_encoded)
            nil-IsTorn (shape ∙ sym (append_nil whole_file)) room small
            (unverdicted_tail-snoc (w.log.records ++ pr.subject ∷ []) pr.verdict_record
              ∙ unverdicted_tail-judged (pr.verdict_record ∷ []) last)

      -- One with the old file and a torn frame opens as the old log.
      reopen-old :
          (dir : Directory) (tail : Bytes)
          → IsTorn tail
          → dir.file ≡ w.log.dir.file ++ tail
          → length tail ≤ 4 + length a
          → reopen dir
            ≡ writer_on p (kept p rules w.log.max_file_bytes w.log.records w.log.dir.file) rules
      reopen-old dir tail torn shape short =
          let (room, small) = within w.log.dir.file tail (omega (arith, short)) in
          reopened-judged p rules w.log.max_file_bytes codec dir w.log.records w.log.dir.file tail
            stored torn shape room small (require_valid_log-judged w.log.records rules valid)

      -- One with the subject and a torn verdict opens as the log with the pair.
      reopen-half :
          (dir : Directory) (tail : Bytes)
          → IsTorn tail
          → dir.file ≡ (w.log.dir.file ++ frame a) ++ tail
          → length tail ≤ 4 + length b
          → reopen dir ≡ writer_on p (kept p rules w.log.max_file_bytes judged whole_file) rules
      reopen-half dir tail torn shape short =
          let (room, small) =
            within (w.log.dir.file ++ frame a) tail (omega (arith, short, half_size)) in
          let (all, bounded) =
            ensure_capacity_for-room p w.log pr.subject pr.verdict_record a b subject_encoded
              verdict_encoded facts.room in
          let kind = ap (λ (r : Record). r.kind == Kind.verdict) facts.body in
          reopened-owed p rules w.log.max_file_bytes codec dir w.log.records pr.subject
            pr.verdict_record (w.log.dir.file ++ frame a) tail b half_stored torn shape room small
            (kind ∙ other) valid
            (λ log records.
              owed_verdict-made p rules w.log.max_file_bytes log w.log.records pr.subject
                pr.verdict_record s pr.verdict_data pr.verdict_time records facts.current
                facts.judged facts.verdict_time facts.verdict_made)
            verdict_encoded (omega (arith, all, half_size)) (omega (arith, bounded, half_size))

      -- The three places where a commit can have been cut off.
      reopen-part :
          (dir : Directory) (size : ℕ)
          → dir.file ≡ w.log.dir.file ++ take size (frame a ++ frame b)
          → (reopen dir
              ≡ writer_on p (kept p rules w.log.max_file_bytes w.log.records w.log.dir.file) rules)
            ⊎ (reopen dir ≡ writer_on p (kept p rules w.log.max_file_bytes judged whole_file) rules)
      reopen-part dir size shape = elim (cut_first size (frame a) (frame b)) [
        | inl part ↦
            let tail = take size (frame a) in
            let torn : IsTorn tail = record {
              body = a;
              size = size;
              fits = (encode_record-eq-ok p pr.subject a subject_encoded).1;
              part = omega (arith, part.0, length-frame a);
              starts = refl;
            } in
            inl (
              reopen-old dir tail torn (shape ∙ ap (λ l. w.log.dir.file ++ l) part.1)
                (omega (arith, length-take_le size (frame a), length-frame a)))
        | inr more ↦
            let tail = take more.0 (frame b) in
            let shape1 =
              shape
              ∙ ap (λ l. w.log.dir.file ++ l) more.1
              ∙ sym (append_assoc w.log.dir.file (frame a) tail) in
            elim (cut_last more.0 (frame b)) [
              | inl part ↦
                  let torn : IsTorn tail = record {
                    body = b;
                    size = more.0;
                    fits = (encode_record-eq-ok p pr.verdict_record b verdict_encoded).1;
                    part = omega (arith, part, length-frame b);
                    starts = refl;
                  } in
                  inr (
                    reopen-half dir tail torn shape1
                      (omega (arith, length-take_le more.0 (frame b), length-frame b)))
              | inr all ↦
                  inr (reopen-whole dir (shape1 ∙ ap (λ l. (w.log.dir.file ++ frame a) ++ l) all))
            ]
      ]

      -- The directory of any run is one of these, and that of a run without a fault is the last.
      reopen-prepared :
          (io : Fault)
          → (reopen (after io) ≡ reopen w.log.dir) ⊎ (reopen (after io) ≡ reopen (after no_fault))
      reopen-prepared io =
          let left = write_pair-Leaves p io w.log pr a b subject_encoded verdict_encoded in
          let full =
            write_pair-whole p no_fault w.log pr a b (λ call. refl) subject_encoded verdict_encoded
              facts.room in
          let file : (after io).file ≡ w.log.dir.file ++ take left.size (frame a ++ frame b) =
            ap (λ (l : FileLog). l.dir.file)
              (log-commit_inner p io w proposal rules s signer pr passed)
            ∙ left.file in
          let whole : (after no_fault).file ≡ whole_file =
            ap (λ (l : FileLog). l.dir.file)
              (log-commit_inner p no_fault w proposal rules s signer pr passed)
            ∙ ap (λ (out : Logged (Unit {0}) × FileLog). out.1.dir.file) full in
          elim (reopen-part (after io) left.size file) [
            | inl old ↦ inl (
                old
                ∙ sym (
                    reopen-old w.log.dir [] nil-IsTorn (sym (append_nil w.log.dir.file))
                      (omega arith)))
            | inr new ↦ inr (new ∙ sym (reopen-whole (after no_fault) whole))
          ]

    -- Whatever calls of the file system fail during a commit of a proposal that is no verdict, and
    -- however much of a frame a failed write leaves, opening the directory again gives what opening it
    -- before the commit gives, or what opening it after the same commit without a failure gives, if the
    -- file held the log's frames, the log was valid and serde reads records back.
    pub commit_inner-reopens :
        (io : Fault)
        → (reopen (after io) ≡ reopen w.log.dir) ⊎ (reopen (after io) ≡ reopen (after no_fault))
    unfolding commit_inner
    commit_inner-reopens io = by_check (prepare p w proposal rules s signer) refl
      where
        by_check :
            (prepared : Logged Prepared)
            → prepare p w proposal rules s signer ≡ prepared
            → (reopen (after io) ≡ reopen w.log.dir) ⊎ (reopen (after io) ≡ reopen (after no_fault))
        by_check (err e) refused =
            inl (ap (λ prepared. reopen (attempt p io w s prepared).writer.log.dir) refused)
        by_check (ok pr) passed =
            let facts = prepare-IsPrepared p w proposal rules s signer pr passed in
            let ((a, e1), (b, e2)) =
              ensure_capacity_for-encodes p w.log pr.subject pr.verdict_record facts.room in
            reopen-prepared pr passed a b e1 e2 io
