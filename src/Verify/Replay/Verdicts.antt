-- ===== src/Verify/Replay/Verdicts.antt =====
-- src/verify/verifier/replay.rs: what an accepted log says of its verdict records.
use bellbook.Prelude.{
  ℕ, ◌+◌, ◌≡◌, refl, Bool, true, not, ◌||◌, none, List, [], ◌∷◌, ◌==◌, ==_iff, nat_ord, ok, err,
  guard, >>-eq-ok, guard-eq-ok, all, is_some, arith,
}
use bellbook.Base.Schema.{schema_id, schema_verdict}
use bellbook.Record.Kind.{
  Kind, ReasonCode, AuthorType, kind_ord, author_type_ord, VerdictResult, verdict_result_ord,
}
use bellbook.Record.Evidence.{evidence_ord}
use bellbook.Record.Envelope.{Record}
use bellbook.Platform.{Platform}
use bellbook.Verify.Rules.{VerifierRules}
use bellbook.Verify.Prior.{Prior}
use bellbook.Verify.Check.{reject_if}
use bellbook.Verify.Envelope.{check_id}
use bellbook.Verify.RecordChecks.{check_verdict_record}
use bellbook.Verify.Replay.{Progress, Replay, replay_from, verify_log, conclude, start}
use bellbook.Verify.Replay.Pairs.{Audited, replay_from-IsAudited}

-- A verdict record is in the verifier's space, and the last record is a verdict.
abbrev pub in_space : VerifierRules → Record → Bool
in_space rules r = not (r.kind == Kind.verdict) || r.space == rules.space

abbrev pub ends_judged : List Record → Bool
ends_judged [] = true
ends_judged (r ∷ []) = r.kind == Kind.verdict
ends_judged (r ∷ next ∷ rs) = ends_judged (next ∷ rs)

module _ (p : Platform) where
  check_verdict_record-in_space :
      (r : Record) (prior : Prior) (rules : VerifierRules)
      → check_verdict_record p r prior rules ≡ ok tt
      → (r.space == rules.space) ≡ true
  unfolding check_verdict_record
  check_verdict_record-in_space r prior rules run =
      let (e1, run1) = >>-eq-ok (check_id p r) _ run in
      let (e2, run2) =
        >>-eq-ok
          (guard (r.schema == schema_id p.sha256 schema_verdict) ReasonCode.kind_schema_mismatch) _
          run1 in
      let (e3, run3) =
        >>-eq-ok (guard (r.author.type_ == AuthorType.verifier) ReasonCode.invalid_payload) _
          run2 in
      let (e4, run4) =
        >>-eq-ok (reject_if (is_some r.author.signature) ReasonCode.invalid_payload) _ run3 in
      let (e5, run5) =
        >>-eq-ok (guard (r.space == rules.space) ReasonCode.invalid_payload) _ run4 in
      guard-eq-ok _ _ e5

  -- The two facts, for a sequence of judged subjects.
  Audited-Judged :
      (records : List Record) (rules : VerifierRules) (pos : ℕ) (rs : List Record) (pr z : Progress)
      → Audited p records rules pos rs pr z
      → (all (in_space rules) rs ≡ true) × (ends_judged rs ≡ true)
  Audited-Judged records rules _ _ pr z (Audited.end pos _) = (refl, refl)
  Audited-Judged records rules _ _ pr z (Audited.pair pos r next [] _ q _ other step more) =
      let space = check_verdict_record-in_space next _ rules step.checked in
      (ground (arith, other, space), (==_iff next.kind Kind.verdict).1 step.is_verdict)
  Audited-Judged records rules _ _ pr z (Audited.pair pos r next (x ∷ rs) _ q _ other step more) =
      let space = check_verdict_record-in_space next _ rules step.checked in
      let (rest, judged) = Audited-Judged records rules (pos + 2) (x ∷ rs) q z more in
      (ground (arith, other, space, rest), judged)

  -- In an accepted log every verdict record is in the verifier's space, and the last record is one.
  pub verify_log-Judged :
      (records : List Record) (rules : VerifierRules)
      → (verify_log p records rules none).result ≡ VerdictResult.accept
      → (all (in_space rules) records ≡ true) × (ends_judged records ≡ true)
  unfolding verify_log conclude
  verify_log-Judged records rules h = by_outcome (replay_from p records rules none) refl
    where
      by_outcome :
          (o : Replay Progress)
          → replay_from p records rules none ≡ o
          → (all (in_space rules) records ≡ true) × (ends_judged records ≡ true)
      by_outcome (ok z) e =
          Audited-Judged records rules 0 records start z
            (replay_from-IsAudited p records rules z e).audited
      by_outcome (err e) failed = absurd (cc (h, failed))
