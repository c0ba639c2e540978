-- ===== src/Log/Writer/Open/Recovery.antt =====
-- src/log/writer/core.rs: opening a directory again after a commit that was cut off at any point.
use bellbook.Prelude.{
  take-length_append, ℕ, ◌+◌, ◌≤◌, ◌≡◌, refl, ap, ◌∙◌, Option, none, some, List, [], ◌∷◌, ◌++◌, ltb,
  nat_ord, ok, err, length, length-append, take, inl, inr, Bool-cases, arith,
}
use bellbook.Prelude.Map.{BTreeMap, put}
use bellbook.Base.Hash.{Bytes}
use bellbook.Record.Kind.{kind_ord}
use bellbook.Record.Refs.{RecordId}
use bellbook.Record.Envelope.{Record}
use bellbook.Platform.{Platform}
use bellbook.Verify.Rules.{VerifierRules}
use bellbook.Log.Errors.{Logged}
use bellbook.Log.Storage.{
  CommitIntent, Directory, FileLog, no_fault, usize_max, index_from, read_all_records, open_file,
  cut_file,
}
use bellbook.Log.Storage.Frames.{ReadsBack, IsTorn, file_of, read_all_records-file_of}
use bellbook.Log.Writer.{LogWriter, with_intent, clear_file}
use bellbook.Log.Writer.Open.{
  unverdicted_tail, but_last, complete_prefix, require_valid_log, recover, writer_on, open_log,
  resume, conclude_open, closed_on_error,
}

-- The log that the whole frames of a file are read as.
abbrev pub opened : Directory → List Record → Bytes → ℕ → FileLog
opened dir records file max_file_bytes = record {
  dir = record dir { file = file };
  records = records;
  index = index_from 0 records [];
  max_file_bytes = max_file_bytes;
}

pub index_from-snoc :
    (l : List Record) (r : Record) (pos : ℕ) (m : BTreeMap RecordId ℕ)
    → index_from pos (l ++ r ∷ []) m ≡ put r.id (pos + length l) (index_from pos l m)
unfolding index_from
index_from-snoc [] r pos m = ap (λ n. put r.id n m) (omega arith)
index_from-snoc (x ∷ l) r pos m =
    index_from-snoc l r (pos + 1) (put x.id pos m)
    ∙ ap (λ n. put r.id n (index_from (pos + 1) l (put x.id pos m))) (omega arith)

pub but_last-snoc : (l : List Record) (r : Record) → but_last (l ++ r ∷ []) ≡ l
but_last-snoc l r =
    ap (λ n. take n (l ++ r ∷ [])) (omega (arith, length-append l (r ∷ [])))
    ∙ take-length_append l (r ∷ [])

pub unverdicted_tail-snoc :
    (l : List Record) (r : Record) → unverdicted_tail (l ++ r ∷ []) ≡ unverdicted_tail (r ∷ [])
unfolding unverdicted_tail
unverdicted_tail-snoc [] r = refl
unverdicted_tail-snoc (x ∷ []) r = refl
unverdicted_tail-snoc (x ∷ y ∷ l) r = unverdicted_tail-snoc (y ∷ l) r

cut_file-ok :
    (dir : Directory) (records : List Record) (n max_file_bytes : ℕ)
    → cut_file no_fault dir max_file_bytes (ok (records, n)) ≡ (
      ok (opened dir records (take n dir.file) max_file_bytes),
      record dir { file = take n dir.file },
    )
cut_file-ok dir records n max_file_bytes = elim (Bool-cases (ltb n (length dir.file))) [
  | inl torn ↦ rw (cut_file, torn) refl
  | inr whole ↦ rw (cut_file, whole) refl
]

module _ (p : Platform) where
  -- A file of whole frames with a torn frame or nothing after them.
  pub open_file-opened :
      ReadsBack p
      → (dir : Directory) (records : List Record) (file tail : Bytes) (max_file_bytes : ℕ)
      → file_of p records ≡ ok file
      → IsTorn tail
      → dir.file ≡ file ++ tail
      → length (file ++ tail) ≤ max_file_bytes
      → length (file ++ tail) ≤ usize_max
      → open_file p no_fault dir max_file_bytes
        ≡ (ok (opened dir records file max_file_bytes), record dir { file = file })
  unfolding open_file
  open_file-opened codec dir records file tail max_file_bytes stored torn shape within small =
      let read =
        ap (λ f. read_all_records p f max_file_bytes) shape
        ∙ read_all_records-file_of p codec records file tail max_file_bytes stored torn within
            small in
      let kept = ap (take (length file)) shape ∙ take-length_append file tail in
      ap (cut_file no_fault dir max_file_bytes) read
      ∙ cut_file-ok dir records (length file) max_file_bytes
      ∙ (λ i. (ok (opened dir records (kept i) max_file_bytes), record dir { file = kept i }))

  -- Without a fault the intent has no part in what opening gives.
  pub clear_file-any :
      (intent : Option CommitIntent) (log : FileLog)
      → clear_file no_fault (with_intent intent log) ≡ (ok tt, with_intent none log)
  unfolding clear_file
  clear_file-any none log = refl
  clear_file-any (some intent) log = refl

  closed_on_error-keeps :
      (result : Logged LogWriter) (dir : Directory) → (closed_on_error p result dir).0 ≡ result
  closed_on_error-keeps (ok w) dir = refl
  closed_on_error-keeps (err e) dir = refl

  -- Once the pairs that are complete are valid, the rest is up to the log as it is recovered.
  pub resume-recovered :
      (rules : VerifierRules) (log repaired : FileLog)
      → recover p no_fault rules log ≡ (ok tt, repaired)
      → (resume p no_fault rules log (ok tt)).0 ≡ writer_on p repaired rules
  resume-recovered rules log repaired run =
      ap (λ out. (conclude_open p rules out).0) run
      ∙ closed_on_error-keeps (writer_on p repaired rules) repaired.dir

  -- A log whose last record is a verdict needs no recovery.
  pub open_log-judged :
      (rules : VerifierRules) (intent : Option CommitIntent) (log : FileLog)
      → unverdicted_tail log.records ≡ none
      → (open_log p no_fault rules (with_intent intent log)).0
        ≡ writer_on p (with_intent none log) rules
  unfolding open_log complete_prefix recover
  open_log-judged rules intent log judged =
      let begun = with_intent intent log in
      let prefix : complete_prefix log.records ≡ log.records = rw (complete_prefix, judged) refl in
      let repaired : recover p no_fault rules begun ≡ (ok tt, with_intent none log) =
        rw (recover, judged) (clear_file-any intent log) in
      ap (λ l. (resume p no_fault rules begun (require_valid_log p l rules)).0) prefix
      ∙ by_check (require_valid_log p log.records rules) refl repaired
    where
      by_check :
          (checked : Logged (Unit {0}))
          → require_valid_log p log.records rules ≡ checked
          → recover p no_fault rules (with_intent intent log) ≡ (ok tt, with_intent none log)
          → (resume p no_fault rules
              (with_intent intent log)
              (require_valid_log p log.records rules)).0
            ≡ writer_on p (with_intent none log) rules
      by_check (err e) h repaired = rw h refl
      by_check (ok _) h repaired =
          ap (λ v. (resume p no_fault rules (with_intent intent log) v).0) h
          ∙ resume-recovered rules (with_intent intent log) (with_intent none log) repaired
