-- ===== src/Log/Writer/Commit.antt =====
-- src/log/writer/core.rs: what a commit leaves on the file and in memory, however it ends.
use bellbook.Prelude.{
  append_assoc, append_nil, ℕ, zero, suc, ◌+◌, ◌≡◌, refl, sym, ap, ◌∙◌, Bool, true, false, Option,
  none, some, List, [], ◌∷◌, ◌++◌, ok, err, length, length-append, take, inl, inr, Bool-cases,
  if◌then◌else◌, arith,
}
use bellbook.Base.Hash.{Bytes}
use bellbook.Record.Envelope.{Record, Proposal}
use bellbook.State.Defs.{State}
use bellbook.State.Apply.{Fold, apply_record}
use bellbook.Verify.Rules.{VerifierRules}
use bellbook.Platform.{Platform}
use bellbook.Log.Errors.{LogError, Logged}
use bellbook.Log.Storage.{
  CommitIntent, FileLog, Call, Fault, encode_record, ensure_capacity_for, frame, appended, append,
  get_record,
}
use bellbook.Log.Storage.Appends.{Appends, append-Appends, append-whole, ensure_capacity_for-room}
use bellbook.Log.Writer.{
  LogWriter, Ed25519Signer, prepare, publish, finish, settle, attempt, commit_inner, Prepared,
  with_intent, write_to_file, clear_file, ◌then_do◌, write_pair,
}

module _ {A : Type 0} where
  -- A part of a list is a part of a longer one, and so is a list with a part of the rest.
  take-within : (k : ℕ) (xs ys : List A) → (size : ℕ) × (take k xs ≡ take size (xs ++ ys))
  take-within zero xs ys = (zero, refl)
  take-within (suc k) [] ys = (zero, refl)
  take-within (suc k) (x ∷ xs) ys =
      let (size, e) = take-within k xs ys in (suc size, ap (λ l. x ∷ l) e)

  take-past : (k : ℕ) (xs ys : List A) → (size : ℕ) × (xs ++ take k ys ≡ take size (xs ++ ys))
  take-past k [] ys = (k, refl)
  take-past k (x ∷ xs) ys = let (size, e) = take-past k xs ys in (suc size, ap (λ l. x ∷ l) e)

-- The log with the pair on it, and no intent.
abbrev pub pair_log : Prepared → Bytes → Bytes → FileLog → FileLog
pair_log pr a b log = with_intent none (appended pr.verdict_record b (appended pr.subject a log))

-- On the file stands a part of the pair's frames after what was there; and a run without an error
-- has written all of the pair.
pub record Leaves (log : FileLog) (pr : Prepared) (a b : Bytes) (out : Logged (Unit {0}) × FileLog)
    : Type 0 where
  pub size : ℕ
  pub file : out.1.dir.file ≡ log.dir.file ++ take size (frame a ++ frame b)
  pub finished : out.0 ≡ ok tt → out.1 ≡ pair_log pr a b log

take-all : {A : Type 0} (xs : List A) → (size : ℕ) × (xs ≡ take size xs)
take-all [] = (zero, refl)
take-all (x ∷ xs) = let (size, e) = take-all xs in (suc size, ap (λ l. x ∷ l) e)

file-with_intent :
    (renamed : Bool) (intent : Option CommitIntent) (log : FileLog)
    → (if renamed then with_intent intent log else log).dir.file ≡ log.dir.file
file-with_intent true intent log = refl
file-with_intent false intent log = refl

module _ (p : Platform) (io : Fault) (log : FileLog) (pr : Prepared) (a b : Bytes) where
  abbrev intent : Bool → CommitIntent
  intent written = record { subject_id = pr.subject.id; written = written }

  -- The log before each of the five calls but the first.
  abbrev begun : FileLog
  begun = with_intent (some (intent false)) log

  abbrev half : FileLog
  half = appended pr.subject a begun

  abbrev marked : FileLog
  marked = with_intent (some (intent true)) half

  stopped :
      (e : LogError) (after : FileLog) (size : ℕ)
      → after.dir.file ≡ log.dir.file ++ take size (frame a ++ frame b)
      → Leaves log pr a b (err e, after)
  stopped e after size file = record { size = size; file = file; finished = λ h. absurd (cc h) }

  stopped_half :
      (e : LogError) (after : FileLog) (k : ℕ)
      → after.dir.file ≡ (log.dir.file ++ frame a) ++ take k (frame b)
      → Leaves log pr a b (err e, after)
  stopped_half e after k file =
      let (size, part) = take-past k (frame a) (frame b) in
      stopped e after size (
        file
        ∙ append_assoc log.dir.file (frame a) (take k (frame b))
        ∙ ap (λ l. log.dir.file ++ l) part)

  clear_stage : Leaves log pr a b (clear_file io (appended pr.verdict_record b marked))
  unfolding clear_file
  clear_stage =
      let (size, all) = take-all (frame a ++ frame b) in
      let file = append_assoc log.dir.file (frame a) (frame b) ∙ ap (λ l. log.dir.file ++ l) all in
      elim (Bool-cases (io.fails Call.clear_intent)) [
        | inl fails ↦
            rw (clear_file, fails)
              (stopped LogError.io _ size
                (file-with_intent _ none (appended pr.verdict_record b marked) ∙ file))
        | inr works ↦
            rw (clear_file, works) record { size = size; file = file; finished = λ h. refl }
      ]

  verdict_stage :
      (out : Logged (Unit {0}) × FileLog)
      → Appends marked pr.verdict_record b out
      → Leaves log pr a b (out then_do clear_file io)
  verdict_stage _ (Appends.refused e) =
      stopped_half e marked 0 (sym (append_nil (log.dir.file ++ frame a)))
  verdict_stage _ (Appends.torn k) = stopped_half LogError.io _ k refl
  verdict_stage _ Appends.whole = clear_stage

  mark_stage :
      encode_record p pr.verdict_record ≡ ok b
      → Leaves log pr a b (
          write_to_file io Call.mark_intent (intent true) half then_do λ l.
          append p io Call.append_verdict pr.verdict_record l then_do λ m. clear_file io m)
  unfolding write_to_file
  mark_stage encoded = elim (Bool-cases (io.fails Call.mark_intent)) [
    | inl fails ↦
        rw (write_to_file, fails)
          (stopped_half LogError.io _ 0 (
            file-with_intent _ (some (intent true)) half
            ∙ sym (append_nil (log.dir.file ++ frame a))))
    | inr works ↦
        rw (write_to_file, works)
          (verdict_stage _
            (append-Appends p io Call.append_verdict pr.verdict_record marked b encoded))
  ]

  subject_stage :
      (out : Logged (Unit {0}) × FileLog)
      → encode_record p pr.verdict_record ≡ ok b
      → Appends begun pr.subject a out
      → Leaves log pr a b (
          out then_do λ h. write_to_file io Call.mark_intent (intent true) h then_do λ l.
          append p io Call.append_verdict pr.verdict_record l then_do λ m. clear_file io m)
  subject_stage _ encoded (Appends.refused e) = stopped e begun 0 (sym (append_nil log.dir.file))
  subject_stage _ encoded (Appends.torn k) =
      let (size, part) = take-within k (frame a) (frame b) in
      stopped LogError.io _ size (ap (λ l. log.dir.file ++ l) part)
  subject_stage _ encoded Appends.whole = mark_stage encoded

  pub write_pair-Leaves :
      encode_record p pr.subject ≡ ok a
      → encode_record p pr.verdict_record ≡ ok b
      → Leaves log pr a b (write_pair p io pr log)
  unfolding write_pair write_to_file
  write_pair-Leaves subject_encoded encoded = elim (Bool-cases (io.fails Call.write_intent)) [
    | inl fails ↦
        rw (write_pair, write_to_file, fails)
          (stopped LogError.io _ 0
            (file-with_intent _ (some (intent false)) log ∙ sym (append_nil log.dir.file)))
    | inr works ↦
        rw (write_pair, write_to_file, works)
          (subject_stage _ encoded
            (append-Appends p io Call.append_subject pr.subject begun a subject_encoded))
  ]

  -- Without a fault, and with room for both, the pair is written.
  pub write_pair-whole :
      ((call : Call) → io.fails call ≡ false)
      → encode_record p pr.subject ≡ ok a
      → encode_record p pr.verdict_record ≡ ok b
      → ensure_capacity_for p log (pr.subject ∷ pr.verdict_record ∷ []) ≡ ok tt
      → write_pair p io pr log ≡ (ok tt, pair_log pr a b log)
  unfolding write_pair write_to_file clear_file
  write_pair-whole works subject_encoded encoded room =
      let (within, small) =
        ensure_capacity_for-room p log pr.subject pr.verdict_record a b subject_encoded encoded
          room in
      let grown : length half.dir.file ≡ length log.dir.file + (4 + length a) =
        length-append log.dir.file (frame a) ∙ omega arith in
      let first =
        append-whole p io Call.append_subject pr.subject begun a (works Call.append_subject)
          subject_encoded (omega (arith, within)) (omega (arith, small)) in
      let second =
        append-whole p io Call.append_verdict pr.verdict_record marked b (works Call.append_verdict)
          encoded (omega (arith, within, grown)) (omega (arith, small, grown)) in
      rw
        (
          write_pair,
          write_to_file,
          works Call.write_intent,
          first,
          works Call.mark_intent,
          second,
          clear_file,
          works Call.clear_intent,
        )
        refl

module _ (p : Platform) where
  log-finish : (pr : Prepared) (w : LogWriter) (f : Fold) → (finish p pr w f).writer.log ≡ w.log
  log-finish pr w (s, true) = refl
  log-finish pr w (s, false) = refl

  log-publish :
      (pr : Prepared) (w : LogWriter) (s : State) (found : Option Record)
      → (publish p pr w s found).writer.log ≡ w.log
  log-publish pr w s none = refl
  log-publish pr w s (some r) = log-finish pr w (apply_record p s r pr.verdict_data)

  log-settle :
      (io : Fault) (pr : Prepared) (w : LogWriter) (s : State) (out : Logged (Unit {0}) × FileLog)
      → (settle p io pr w s out).writer.log ≡ out.1
  log-settle io pr w s (err e, log) = refl
  log-settle io pr w s (ok _, log) = log-publish pr _ s (get_record log pr.subject.id)

  -- Whatever the end of a commit that has passed its checks, the log is what its calls left.
  pub log-commit_inner :
      (io : Fault) (w : LogWriter) (proposal : Proposal) (rules : VerifierRules) (s : State)
      (signer : Option Ed25519Signer) (pr : Prepared)
      → prepare p w proposal rules s signer ≡ ok pr
      → (commit_inner p io w proposal rules s signer).writer.log ≡ (write_pair p io pr w.log).1
  unfolding commit_inner
  log-commit_inner io w proposal rules s signer pr passed =
      ap (λ prepared. (attempt p io w s prepared).writer.log) passed
      ∙ log-settle io pr w s (write_pair p io pr w.log)
