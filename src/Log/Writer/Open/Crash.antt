-- ===== src/Log/Writer/Open/Crash.antt =====
-- src/log/writer/core.rs: a commit that is cut off anywhere is, once the directory is opened again,
-- either not there at all or there as if nothing had happened.
use bellbook.Prelude.{
  ℕ, zero, suc, ◌+◌, ◌≤◌, ◌<◌, ◌≡◌, refl, sym, ap, ◌∙◌, true, false, none, some, List, [], ◌∷◌,
  ◌++◌, ◌==◌, nat_ord, ok, length, take, inl, inr, arith, ◌⊎◌,
}
use bellbook.Prelude.Map.{put}
use bellbook.Base.Hash.{Bytes}
use bellbook.Base.Time.{time_max, checked_add}
use bellbook.Record.Kind.{Kind, kind_ord}
use bellbook.Record.Payloads.{Time, VerdictData}
use bellbook.Record.Envelope.{Record}
use bellbook.State.Defs.{State}
use bellbook.State.Build.{build_state_unchecked}
use bellbook.Platform.{Platform}
use bellbook.Verify.Rules.{VerifierRules}
use bellbook.Verify.RecordChecks.{verify_record}
use bellbook.Log.Errors.{Logged}
use bellbook.Log.Storage.{
  Directory, FileLog, Call, no_fault, usize_max, encode_record, frame, append, appended, index_from,
}
use bellbook.Log.Storage.Frames.{ReadsBack, IsTorn, file_of}
use bellbook.Log.Storage.Appends.{append-whole}
use bellbook.Log.Writer.{LogWriter, with_intent, materialize_verdict}
use bellbook.Log.Writer.Open.{
  unverdicted_tail, but_last, complete_prefix, require_valid_log, owed_verdict, recover, writer_on,
  open_log, open_found, open_with_max_bytes, release, resume,
}
use bellbook.Log.Writer.Open.Recovery.{
  opened, index_from-snoc, but_last-snoc, unverdicted_tail-snoc, open_file-opened, clear_file-any,
  resume-recovered, open_log-judged,
}

-- A part of two lists is a proper part of the first, or the first and a part of the second.
pub cut_first :
    {A : Type 0} (k : ℕ) (xs ys : List A)
    → ((k < length xs) × (take k (xs ++ ys) ≡ take k xs))
      ⊎ ((m : ℕ) × (take k (xs ++ ys) ≡ xs ++ take m ys))
cut_first zero [] ys = inr (zero, refl)
cut_first (suc k) [] ys = inr (suc k, refl)
cut_first zero (x ∷ xs) ys = inl (omega arith, refl)
cut_first (suc k) (x ∷ xs) ys = elim (cut_first k xs ys) [
  | inl part ↦ inl (omega (arith, part.0), ap (λ l. x ∷ l) part.1)
  | inr more ↦ inr (more.0, ap (λ l. x ∷ l) more.1)
]

pub cut_last : {A : Type 0} (k : ℕ) (xs : List A) → (k < length xs) ⊎ (take k xs ≡ xs)
cut_last zero [] = inr refl
cut_last (suc k) [] = inr refl
cut_last zero (x ∷ xs) = inl (omega arith)
cut_last (suc k) (x ∷ xs) = elim (cut_last k xs) [
  | inl part ↦ inl (omega (arith, part))
  | inr all ↦ inr (ap (λ l. x ∷ l) all)
]

pub length-take_le : {A : Type 0} (k : ℕ) (xs : List A) → length (take k xs) ≤ length xs
length-take_le zero xs = omega arith
length-take_le (suc k) [] = omega arith
length-take_le (suc k) (x ∷ xs) = omega (arith, length-take_le k xs)

-- Nothing at all is a torn frame too.
pub nil-IsTorn : IsTorn []
nil-IsTorn = record { body = []; size = 0; fits = omega arith; part = omega arith; starts = refl }

module _ (p : Platform) (rules : VerifierRules) (max_file_bytes : ℕ) where
  -- What opening gives once the process that held the directory is gone.
  abbrev pub reopened : Directory → Logged LogWriter
  reopened dir = (open_with_max_bytes p no_fault (release dir) rules max_file_bytes).0

  reopened-opened :
      ReadsBack p
      → (dir : Directory) (records : List Record) (file tail : Bytes) → file_of p records ≡ ok file
      → IsTorn tail
      → dir.file ≡ file ++ tail
      → length (file ++ tail) ≤ max_file_bytes
      → length (file ++ tail) ≤ usize_max
      → reopened dir
        ≡ (open_log p no_fault rules
            (opened (record dir { locked = true }) records file max_file_bytes)).0
  unfolding open_with_max_bytes
  reopened-opened codec dir records file tail stored torn shape within small =
      ap (λ found. (open_found p no_fault rules found).0)
        (open_file-opened p codec (record dir { locked = true }) records file tail max_file_bytes
          stored torn shape within small)

  pub owed_verdict-made :
      (log : FileLog) (records : List Record) (subject verdict : Record) (s : State)
      (d : VerdictData) (time : Time)
      → log.records ≡ records ++ subject ∷ []
      → build_state_unchecked p records ≡ some s
      → d ≡ verify_record p subject records rules s
      → checked_add subject.time 1 ≡ some time
      → materialize_verdict p subject time d ≡ ok verdict
      → owed_verdict p log rules subject ≡ ok verdict
  unfolding owed_verdict
  owed_verdict-made log records subject verdict s d time shape current judged next made =
      let prior = ap but_last shape ∙ but_last-snoc records subject in
      rw (owed_verdict, prior, current, next, ← judged, made) refl

  -- A subject that stands alone at the end gets the verdict that the commit had made.
  open_log-owed :
      (log : FileLog) (records : List Record) (subject verdict : Record) (b : Bytes)
      → log.records ≡ records ++ subject ∷ []
      → (subject.kind == Kind.verdict) ≡ false
      → require_valid_log p records rules ≡ ok tt
      → owed_verdict p log rules subject ≡ ok verdict
      → append p no_fault Call.append_verdict verdict log ≡ (ok tt, appended verdict b log)
      → (open_log p no_fault rules log).0
        ≡ writer_on p (with_intent none (appended verdict b log)) rules
  unfolding open_log unverdicted_tail complete_prefix recover
  open_log-owed log records subject verdict b shape other valid owed appends =
      let tail : unverdicted_tail log.records ≡ some subject =
        ap unverdicted_tail shape
        ∙ unverdicted_tail-snoc records subject
        ∙ rw (unverdicted_tail, other) refl in
      let prefix : complete_prefix log.records ≡ records =
        rw (complete_prefix, tail) (ap but_last shape ∙ but_last-snoc records subject) in
      let repaired : recover p no_fault rules log
          ≡ (ok tt, with_intent none (appended verdict b log)) =
        rw (recover, tail, owed, appends)
          (clear_file-any p log.dir.intent (appended verdict b log)) in
      ap (λ l. (resume p no_fault rules log (require_valid_log p l rules)).0) prefix
      ∙ ap (λ v. (resume p no_fault rules log v).0) valid
      ∙ resume-recovered p rules log (with_intent none (appended verdict b log)) repaired

  -- The log of a directory that holds the records in whole frames and no intent.
  abbrev pub kept : List Record → Bytes → FileLog
  kept records file =
      opened (record { file = file; intent = none; locked = true }) records file max_file_bytes

  -- A directory whose last record is a verdict opens as its whole frames say.
  pub reopened-judged :
      ReadsBack p
      → (dir : Directory) (records : List Record) (file tail : Bytes) → file_of p records ≡ ok file
      → IsTorn tail
      → dir.file ≡ file ++ tail
      → length (file ++ tail) ≤ max_file_bytes
      → length (file ++ tail) ≤ usize_max
      → unverdicted_tail records ≡ none
      → reopened dir ≡ writer_on p (kept records file) rules
  reopened-judged codec dir records file tail stored torn shape within small judged =
      reopened-opened codec dir records file tail stored torn shape within small
      ∙ open_log-judged p rules dir.intent (kept records file) judged

  -- One whose last record is a subject opens with the verdict that the commit had made.
  pub reopened-owed :
      ReadsBack p
      → (dir : Directory) (records : List Record) (subject verdict : Record) (file tail b : Bytes)
      → file_of p (records ++ subject ∷ []) ≡ ok file
      → IsTorn tail
      → dir.file ≡ file ++ tail
      → length (file ++ tail) ≤ max_file_bytes
      → length (file ++ tail) ≤ usize_max
      → (subject.kind == Kind.verdict) ≡ false
      → require_valid_log p records rules ≡ ok tt
      → ((log : FileLog)
          → log.records ≡ records ++ subject ∷ []
          → owed_verdict p log rules subject ≡ ok verdict)
      → encode_record p verdict ≡ ok b
      → length file + (4 + length b) ≤ max_file_bytes
      → length file + (4 + length b) ≤ time_max
      → reopened dir
        ≡ writer_on p (kept ((records ++ subject ∷ []) ++ verdict ∷ []) (file ++ frame b)) rules
  reopened-owed codec dir records subject verdict file tail b stored torn shape within small other
        valid owed encoded room bounded =
      let log =
        opened (record dir { locked = true }) (records ++ subject ∷ []) file max_file_bytes in
      let counted : length (records ++ subject ∷ []) ≡ 0 + length (records ++ subject ∷ []) =
        omega arith in
      reopened-opened codec dir (records ++ subject ∷ []) file tail stored torn shape within small
      ∙ open_log-owed log records subject verdict b refl other valid (owed log refl)
          (append-whole p no_fault Call.append_verdict verdict log b refl encoded room bounded)
      ∙ ap
          (λ index.
            writer_on p
              (record (kept ((records ++ subject ∷ []) ++ verdict ∷ []) (file ++ frame b)) {
                index = index;
              })
              rules)
          (ap (λ n. put verdict.id n (index_from 0 (records ++ subject ∷ []) [])) counted
            ∙ sym (index_from-snoc (records ++ subject ∷ []) verdict 0 []))
