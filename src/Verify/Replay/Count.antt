-- ===== src/Verify/Replay/Count.antt =====
-- src/verify/verifier/replay.rs: what the count of checked records counts.
use bellbook.Prelude.{
  append_assoc, take-length_append, get_elem?-append, ℕ, zero, suc, ◌+◌, ◌*◌, ◌<◌, ◌≡◌, refl, sym,
  ap, subst, ◌∙◌, true, false, none, some, List, [], ◌∷◌, ◌++◌, ◌==◌, ==_iff, nat_ord, option_ord,
  ok, err, length, length-append, take, get_elem?, arith,
}
use bellbook.Record.Kind.{Kind, VerdictResult, kind_ord, verdict_result_ord, reason_ord}
use bellbook.Record.Payloads.{VerdictData}
use bellbook.Record.Envelope.{Record}
use bellbook.Platform.{Platform, PayloadType, decode}
use bellbook.Verify.Rules.{VerifierRules}
use bellbook.Verify.Prior.{view_prior, insert_record}
use bellbook.Verify.RecordChecks.{check_verdict_record, check_record, verdict_of}
use bellbook.Verify.Replay.{
  LogVerdict, Progress, Replay, start, at, same_verdict, replay_pair, replay, replay_from, conclude,
  verify_log,
}
use bellbook.Verify.Replay.Steps.{IsPair}
use bellbook.Verify.Prior.Scan.{zero_add}
use bellbook.Verify.Replay.Pairs.{Audited, replay_from-IsAudited}

same_verdict_refl : (a : VerdictData) → same_verdict a a ≡ true
same_verdict_refl a = ground (arith, ==_iff a.result a.result, ==_iff a.reason a.reason)

module _ (p : Platform) (records : List Record) (rules : VerifierRules) where
  IsPair-replay_pair :
      (pos : ℕ) (r next : Record) (pr q : Progress)
      → IsPair p records rules pos r next pr q
      → replay_pair p records rules pos r next pr ≡ ok q
  unfolding replay_pair
  IsPair-replay_pair pos r next pr q step =
      let is = (==_iff next.kind Kind.verdict).1 step.is_verdict in
      rw
        (
          replay_pair,
          is,
          step.checked,
          step.names,
          step.decoded,
          step.rederived,
          same_verdict_refl step.stored,
          step.folds,
        )
        (λ i.
          ok record {
            state = sym step.state i;
            index = sym step.index i;
            checked = sym step.count i;
          })

  -- A sequence of judged subjects replays.
  Audited-replay :
      (pos : ℕ) (rs : List Record) (pr z : Progress)
      → Audited p records rules pos rs pr z
      → replay p records rules pos rs pr ≡ ok z
  unfolding replay at
  Audited-replay _ _ pr _ (Audited.end pos _) = refl
  Audited-replay _ _ pr z (Audited.pair pos r next rs _ q _ other step more) =
      rw (replay, other, IsPair-replay_pair pos r next pr q step, at)
        (Audited-replay (pos + 2) rs q z more)

  -- One more judged subject behind others.
  Audited-snoc :
      (pos : ℕ) (rs : List Record) (pr q z : Progress) (r next : Record) (end_pos : ℕ)
      → Audited p records rules pos rs pr q
      → end_pos ≡ pos + length rs
      → (r.kind == Kind.verdict) ≡ false
      → IsPair p records rules end_pos r next q z
      → Audited p records rules pos (rs ++ r ∷ next ∷ []) pr z
  Audited-snoc _ _ pr _ z r next end_pos (Audited.end pos _) here other step =
      let same : end_pos ≡ pos = omega (arith, here) in
      Audited.pair pos r next [] pr z z other
        (subst (λ n. IsPair p records rules n r next pr z) same step) (Audited.end (pos + 2) z)
  Audited-snoc _ _ pr q z r next end_pos (Audited.pair pos r1 next1 rs _ q1 _ other1 step1 more)
        here other step =
      Audited.pair pos r1 next1 (rs ++ r ∷ next ∷ []) pr q1 z other1 step1
        (Audited-snoc (pos + 2) rs q1 q z r next end_pos more (omega (arith, here)) other step)

  -- The records at a position and after it are a subject and its verdict; the verdict record passes its
  -- checks, and the verdict that it holds is the one that checking the subject gives, against the
  -- state and the index that the replay of the records before the position ends with.
  pub record IsChecked (i : ℕ) : Type 0 where
    pub subject : Record
    pub verdict : Record
    pub before : Progress
    pub stored : VerdictData
    pub subject_at : get_elem? records i ≡ some subject
    pub verdict_at : get_elem? records (i + 1) ≡ some verdict
    pub replayed : replay p records rules 0 (take i records) start ≡ ok before
    pub other : (subject.kind == Kind.verdict) ≡ false
    pub decoded : decode p PayloadType.verdict verdict.payload ≡ some stored
    pub verdict_checked :
        check_verdict_record p verdict
          (view_prior records (insert_record i subject before.index))
          rules
        ≡ ok tt
    pub rederived :
        verdict_of (
          check_record p subject
            (view_prior records (insert_record i subject before.index))
            rules
            before.state)
        ≡ stored

  Audited-IsChecked :
      (done : List Record) (pos : ℕ) (rs : List Record) (pr z : Progress)
      → Audited p records rules 0 done start pr
      → pos ≡ length done
      → records ≡ done ++ rs
      → Audited p records rules pos rs pr z
      → (k : ℕ) → 2 * k < length rs
      → IsChecked (pos + 2 * k)
  Audited-IsChecked done _ _ pr _ before here all (Audited.end pos _) k h =
      absurd (omega (arith, h))
  Audited-IsChecked done _ _ pr z before here all (Audited.pair pos r next rs _ q _ other step more)
        zero h =
      let place : pos + 2 * 0 ≡ length done = omega (arith, here) in
      let prefix : take (length done) records ≡ done =
        ap (take (length done)) all ∙ take-length_append done (r ∷ next ∷ rs) in
      let half : length (done ++ r ∷ []) ≡ length done + 1 =
        omega (arith, length-append done (r ∷ [])) in
      subst IsChecked (sym place) (record {
        subject = r;
        verdict = next;
        before = pr;
        stored = step.stored;
        subject_at = ap (λ l. get_elem? l (length done)) all ∙ get_elem?-append done r (next ∷ rs);
        verdict_at =
            ap (get_elem? records) (sym half)
            ∙ ap (λ l. get_elem? l (length (done ++ r ∷ [])))
                (all ∙ sym (append_assoc done (r ∷ []) (next ∷ rs)))
            ∙ get_elem?-append (done ++ r ∷ []) next rs;
        replayed =
            ap (λ l. replay p records rules 0 l start) prefix
            ∙ Audited-replay 0 done start pr before;
        other = other;
        decoded = step.decoded;
        verdict_checked =
            subst
              (λ n.
                check_verdict_record p next (view_prior records (insert_record n r pr.index)) rules
                ≡ ok tt)
              here step.checked;
        rederived =
            subst
              (λ n.
                verdict_of (
                  check_record p r (view_prior records (insert_record n r pr.index)) rules pr.state)
                ≡ step.stored)
              here step.rederived;
      })
  Audited-IsChecked done _ _ pr z before here all (Audited.pair pos r next rs _ q _ other step more)
        (suc k) h =
      let place : pos + 2 + 2 * k ≡ pos + 2 * suc k = omega arith in
      subst IsChecked place (
        Audited-IsChecked (done ++ r ∷ next ∷ []) (pos + 2) rs q z
          (Audited-snoc 0 done start pr q r next pos before (omega (arith, here)) other step)
          (omega (arith, here, length-append done (r ∷ next ∷ [])))
          (all ∙ sym (append_assoc done (r ∷ next ∷ []) rs)) more k (omega (arith, h)))

  checked-Audited :
      (pos : ℕ) (rs : List Record) (pr z : Progress)
      → Audited p records rules pos rs pr z
      → z.checked ≡ pr.checked + length rs
  checked-Audited _ _ pr _ (Audited.end pos _) = omega arith
  checked-Audited _ _ pr z (Audited.pair pos r next rs _ q _ other step more) =
      omega (arith, checked-Audited (pos + 2) rs q z more, step.count)

  -- A log that is accepted from genesis is counted whole, and at each even position of it stand a
  -- subject and, next to it, a verdict record that passes its checks and holds the verdict that checking
  -- the subject gives, against the state and index that replaying the records before ends with.
  pub verify_log-checked_records :
      (verify_log p records rules none).result ≡ VerdictResult.accept
      → ((verify_log p records rules none).checked_records ≡ length records)
        × ((k : ℕ) → 2 * k < length records → IsChecked (2 * k))
  unfolding verify_log conclude
  verify_log-checked_records h = by_outcome (replay_from p records rules none) refl
    where
      by_outcome :
          (o : Replay Progress)
          → replay_from p records rules none ≡ o
          → ((verify_log p records rules none).checked_records ≡ length records)
            × ((k : ℕ) → 2 * k < length records → IsChecked (2 * k))
      by_outcome (err e) failed = absurd (cc (h, ap (conclude records) failed))
      by_outcome (ok z) e =
          let audited = (replay_from-IsAudited p records rules z e).audited in
          let counted : (verify_log p records rules none).checked_records ≡ z.checked =
            ap (λ (v : LogVerdict). v.checked_records) (ap (conclude records) e) in
          (
            omega (arith, counted, checked-Audited 0 records start z audited),
            λ k more. subst IsChecked (zero_add (2 * k)) (
                Audited-IsChecked [] 0 records start z (Audited.end 0 start) refl refl audited k
                  more),
          )
