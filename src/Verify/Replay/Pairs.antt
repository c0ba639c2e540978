-- ===== src/Verify/Replay/Pairs.antt =====
-- src/verify/verifier/replay.rs: a log that replays from genesis is a sequence of judged subjects.
use bellbook.Prelude.{
  ℕ, suc, ◌+◌, ◌≡◌, sym, ap, subst, true, false, ◌&&◌, none, some, List, [], ◌∷◌, ◌==◌, ==_iff,
  nat_ord, get_elem?, ok, or_err, guard, >>=-eq-ok, >>-eq-ok, guard-eq-ok, or_err-eq-ok, arith,
  is_some, all,
}
use bellbook.Prelude.Map.{contains, get}
use bellbook.Base.Schema.{schema_id, schema_verdict}
use bellbook.Record.Kind.{
  Kind, kind_ordinal, RefType, ReasonCode, AuthorType, kind_ord, ref_type_ord, author_type_ord,
}
use bellbook.Record.Refs.{RecordId, Ref, has_ref}
use bellbook.Record.Evidence.{Evidence, evidence_ord}
use bellbook.Record.Envelope.{Record}
use bellbook.Platform.{Platform, PayloadType}
use bellbook.Verify.Rules.{VerifierRules}
use bellbook.Verify.Prior.{
  PriorIndex, Prior, insert_record, view_prior, find_record, has_verdict_for,
}
use bellbook.Verify.Prior.Scan.{get-insert_record, contains-insert_record, zero_add, add_zero}
use bellbook.Verify.Check.{reject_if, reject_if-eq-ok}
use bellbook.Verify.Envelope.{check_id, decodes_canonically}
use bellbook.Verify.RecordChecks.{subject_of, check_verdict_record}
use bellbook.Verify.Replay.{
  Progress, start, first_target, replay_from, seed, times_fit, starts_at_one, id_fits, at,
}
use bellbook.Verify.Replay.Steps.{IsPair, Replays, replay-Replays, at-eq-ok}

-- A verdict record that passes names one subject: a record that is no verdict and has none yet.
pub record IsFresh (prior : Prior) (refs : List Ref) : Type 0 where
  pub subject_id : RecordId
  pub subject : Record
  pub only : subject_of refs ≡ ok subject_id
  pub found : find_record prior subject_id ≡ some subject
  pub other : (subject.kind == Kind.verdict) ≡ false
  pub unjudged : has_verdict_for prior subject_id ≡ false

module _ (p : Platform) where
  check_verdict_record-IsFresh :
      (r : Record) (prior : Prior) (rules : VerifierRules)
      → check_verdict_record p r prior rules ≡ ok tt
      → IsFresh prior r.refs
  unfolding check_verdict_record
  check_verdict_record-IsFresh r prior rules run =
      let (_, run1) = >>-eq-ok (check_id p r) _ run in
      let (_, run2) =
        >>-eq-ok
          (guard (r.schema == schema_id p.sha256 schema_verdict) ReasonCode.kind_schema_mismatch) _
          run1 in
      let (_, run3) =
        >>-eq-ok (guard (r.author.type_ == AuthorType.verifier) ReasonCode.invalid_payload) _
          run2 in
      let (_, run4) =
        >>-eq-ok (reject_if (is_some r.author.signature) ReasonCode.invalid_payload) _ run3 in
      let (_, run5) = >>-eq-ok (guard (r.space == rules.space) ReasonCode.invalid_payload) _ run4 in
      let (_, run6) =
        >>-eq-ok (guard (r.evidence == Evidence.deterministic) ReasonCode.invalid_payload) _ run5 in
      let (_, run7) =
        >>-eq-ok
          (guard (decodes_canonically p PayloadType.verdict r.payload) ReasonCode.invalid_payload) _
          run6 in
      let (id, e1, run8) = >>=-eq-ok (subject_of r.refs) _ run7 in
      let (subject, e2, run9) =
        >>=-eq-ok (or_err (find_record prior id) ReasonCode.ref_unresolved) _ run8 in
      let (e3, run10) =
        >>-eq-ok (reject_if (subject.kind == Kind.verdict) ReasonCode.invalid_payload) _ run9 in
      let (_, run11) =
        >>-eq-ok
          (guard (subject.space == r.space && subject.thread == r.thread)
            ReasonCode.invalid_payload)
          _ run10 in
      record {
        subject_id = id;
        subject = subject;
        only = e1;
        found = or_err-eq-ok _ _ e2;
        other = reject_if-eq-ok _ _ e3;
        unjudged = reject_if-eq-ok _ _ run11;
      }

-- Every indexed record that is no verdict has its verdict indexed too.
IsJudged : List Record → PriorIndex → Type 0
IsJudged records index =
    (id : RecordId) (r : Record)
    → find_record (view_prior records index) id ≡ some r
    → (r.kind == Kind.verdict) ≡ false
    → has_verdict_for (view_prior records index) id ≡ true

subject_of-has_ref :
    (refs : List Ref) (id : RecordId) (target : RecordId)
    → subject_of refs ≡ ok target
    → first_target refs id ≡ true
    → has_ref RefType.cause id refs ≡ true
unfolding has_ref
subject_of-has_ref [] id target h f = cc
subject_of-has_ref (x ∷ []) id target h f = ground arith
subject_of-has_ref (x ∷ y ∷ refs) id target h f = absurd (cc h)

module _ (records : List Record) (pos : ℕ) (r next : Record) (index : PriorIndex) where
  -- A subject and its verdict keep the index judged.
  insert_record-IsJudged :
      get_elem? records pos ≡ some r
      → get_elem? records (pos + 1) ≡ some next
      → next.kind ≡ Kind.verdict
      → has_ref RefType.cause r.id next.refs ≡ true
      → IsJudged records index
      → IsJudged records (insert_record (pos + 1) next (insert_record pos r index))
  unfolding find_record has_verdict_for view_prior IsJudged kind_ordinal
  insert_record-IsJudged at_r at_next is names judged id f found other =
      let grown = contains-insert_record (pos + 1) next (insert_record pos r index) id in
      let grown1 = contains-insert_record pos r index id in
      let at_id = get-insert_record (pos + 1) next (insert_record pos r index) id in
      let at_id1 = get-insert_record pos r index id in
      ground (
        arith,
        grown,
        grown1,
        at_id,
        at_id1,
        judged id f,
        at_r,
        at_next,
        is,
        names,
        ==_iff r.id id,
        ==_iff next.id id,
      )

add_one : (n i : ℕ) → n + 1 + i ≡ n + suc i
add_one n i = omega arith

add_two : (n i : ℕ) → n + 2 + i ≡ n + 1 + 1 + i
add_two n i = omega arith

module _ (p : Platform) (records : List Record) (rules : VerifierRules) where
  -- Subjects, each directly followed by its verdict, and nothing else.
  pub data Audited : ℕ → List Record → Progress → Progress → Type 0 where
    end : (pos : ℕ) (pr : Progress) → Audited pos [] pr pr
    pair :
        (pos : ℕ) (r next : Record) (rs : List Record) (pr q z : Progress)
        → (r.kind == Kind.verdict) ≡ false
        → IsPair p records rules pos r next pr q
        → Audited (pos + 2) rs q z
        → Audited pos (r ∷ next ∷ rs) pr z

  abbrev StandsAt : ℕ → List Record → Type 0
  StandsAt pos rs = (i : ℕ) → get_elem? records (pos + i) ≡ get_elem? rs i

  StandsAt-tail :
      (pos : ℕ) (r : Record) (rs : List Record) → StandsAt pos (r ∷ rs) → StandsAt (pos + 1) rs
  StandsAt-tail pos r rs h i = cc (h (suc i), ap (get_elem? records) (add_one pos i))

  -- Where every indexed subject is judged no step is a lone verdict.
  Replays-Audited :
      (pos : ℕ) (rs : List Record) (pr z : Progress)
      → Replays p records rules pos rs pr z
      → StandsAt pos rs
      → IsJudged records pr.index
      → Audited pos rs pr z
  unfolding IsJudged
  Replays-Audited _ _ pr _ (Replays.end pos _) h judged = end pos pr
  Replays-Audited _ _ pr z (Replays.lone pos r rs _ q _ step more) h judged =
      let fresh =
        check_verdict_record-IsFresh p r (view_prior records pr.index) rules step.checked in
      absurd (cc (judged fresh.subject_id fresh.subject fresh.found fresh.other, fresh.unjudged))
  Replays-Audited _ _ pr z (Replays.pair pos r next rs _ q _ other step more) h judged =
      let h1 = StandsAt-tail pos r (next ∷ rs) h in
      let fresh = check_verdict_record-IsFresh p next _ rules step.checked in
      let judged1 : IsJudged records (insert_record (pos + 1) next (insert_record pos r pr.index)) =
        insert_record-IsJudged records pos r next pr.index
          (cc (h 0, ap (get_elem? records) (add_zero pos)))
          (cc (h1 0, ap (get_elem? records) (add_zero (pos + 1)))) step.is_verdict
          (subject_of-has_ref next.refs r.id fresh.subject_id fresh.only step.names) judged in
      pair pos r next rs pr q z other step (
        Replays-Audited (pos + 2) rs q z more
          (λ i. cc (StandsAt-tail (pos + 1) next rs h1 i, ap (get_elem? records) (add_two pos i)))
          (subst (IsJudged records) (sym step.index) judged1))

  -- What an accepted log is, read from genesis.
  pub record IsAudited (z : Progress) : Type 0 where
    pub timed : times_fit records ≡ true
    pub genesis : starts_at_one records ≡ true
    pub identified : all (id_fits p) records ≡ true
    pub audited : Audited 0 records start z

  -- A log that replays from genesis has times that start at 1 and go up by 1, ids that its contents
  -- hash to, and is a sequence of subjects, each directly followed by a verdict record that passes
  -- its checks, names the subject and holds the result that checking the subject again gives.
  pub replay_from-IsAudited : (z : Progress) → replay_from p records rules none ≡ ok z → IsAudited z
  unfolding replay_from seed IsJudged contains get find_record view_prior
  replay_from-IsAudited z run =
      let (e2, run2) =
        >>-eq-ok (at 0 (guard (times_fit records) ReasonCode.invalid_payload)) _ run in
      let (e3, run3) =
        >>-eq-ok (at 0 (guard (starts_at_one records) ReasonCode.invalid_payload)) _ run2 in
      let (e4, run4) =
        >>-eq-ok (at 0 (guard (all (id_fits p) records) ReasonCode.invalid_payload)) _ run3 in
      record {
        timed = guard-eq-ok _ _ (at-eq-ok 0 _ e2);
        genesis = guard-eq-ok _ _ (at-eq-ok 0 _ e3);
        identified = guard-eq-ok _ _ (at-eq-ok 0 _ e4);
        audited =
            Replays-Audited 0 records start z
              (replay-Replays p records rules 0 records start z run4)
              (λ i. ap (get_elem? records) (zero_add i)) (λ id r found other. absurd (cc found));
      }
