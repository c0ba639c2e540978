-- ===== src/Verify/Replay/Edges.antt =====
-- src/verify/verifier/replay.rs and src/state/incremental.rs: the edges along which a replay taints.
use bellbook.Prelude.{
  ℕ, ◌+◌, ◌≡◌, refl, ap, Bool, false, ◌&&◌, ◌||◌, Option, none, some, List, [], ◌∷◌, ◌==◌, ==_iff,
  nat_ord, ok, inl, inr, Bool-cases, arith,
}
use bellbook.Prelude.Map.{contains, get}
use bellbook.Record.Kind.{VerdictResult, result_ordinal, verdict_result_ord}
use bellbook.Record.Refs.{RecordId}
use bellbook.Record.Payloads.{VerdictData}
use bellbook.Record.Envelope.{Record}
use bellbook.State.Defs.{State}
use bellbook.State.Taint.{dependents}
use bellbook.State.Apply.{fold_result, apply_record}
use bellbook.State.Apply.Index.{depends_on}
use bellbook.State.Apply.Taint.{apply_record-depends_on}
use bellbook.State.Build.Taint.{finished-eq-some}
use bellbook.Platform.{Platform, PayloadType, decode}
use bellbook.Verify.Rules.{VerifierRules}
use bellbook.Verify.Replay.{Progress, replay_from}
use bellbook.Verify.Replay.Pairs.{Audited, replay_from-IsAudited}

module _ (p : Platform) where
  abbrev pub accepts : Option VerdictData → Bool
  accepts none = false
  accepts (some verdict) = verdict.result == VerdictResult.accept

  -- Some subject with id `d` has a `Use` or `Require` ref to `a`, and the verdict after it accepts it.
  pub cites : RecordId → RecordId → List Record → Bool
  cites a d [] = false
  cites a d (r ∷ []) = false
  cites a d (r ∷ next ∷ rs) =
      accepts (decode p PayloadType.verdict next.payload) && depends_on r.refs a && r.id == d
      || cites a d rs

  rejected_state :
      (o : VerdictResult) (r : Record) (s : State)
      → (o == VerdictResult.accept) ≡ false
      → (fold_result p o r s).0 ≡ s
  unfolding fold_result result_ordinal
  rejected_state VerdictResult.accept r s h = cc
  rejected_state VerdictResult.reject r s h = refl

  folded-cites :
      (s t : State) (r : Record) (verdict : VerdictData) (a d : RecordId)
      → (apply_record p s r verdict).0 ≡ t
      → contains (dependents t.epistemic_dependents a) d ≡ (
          accepts (some verdict) && depends_on r.refs a && r.id == d
          || contains (dependents s.epistemic_dependents a) d)
  unfolding apply_record
  folded-cites s t r verdict a d e = elim (Bool-cases (verdict.result == VerdictResult.accept)) [
    | inl is ↦
        rw (← e, is)
          (apply_record-depends_on p s r verdict a d
            ((==_iff verdict.result VerdictResult.accept).0 is))
    | inr other ↦ rw (← e, other, rejected_state verdict.result r s other) refl
  ]

  module _ (records : List Record) (rules : VerifierRules) where
    Audited-cites :
        (a d : RecordId) (pos : ℕ) (rs : List Record) (pr z : Progress)
        → Audited p records rules pos rs pr z
        → contains (dependents z.state.epistemic_dependents a) d
          ≡ (cites a d rs || contains (dependents pr.state.epistemic_dependents a) d)
    unfolding cites
    Audited-cites a d _ _ pr _ (Audited.end pos _) = refl
    Audited-cites a d _ _ pr z (Audited.pair pos r next rs _ q _ other step more) =
        let dated : q.state.epistemic_dependents ≡ step.folded.epistemic_dependents =
          ap (λ (s : State). s.epistemic_dependents) step.state in
        let folded =
          folded-cites pr.state step.folded r step.stored a d
            (finished-eq-some (apply_record p pr.state r step.stored) step.folds) in
        let later = Audited-cites a d (pos + 2) rs q z more in
        rw (later, dated, folded, step.decoded) (ground arith)

    -- After a replay from genesis a record is recorded as depending on another exactly if it is an
    -- accepted subject of the log with a `Use` or `Require` ref to it.
    pub replay_from-cites :
        (z : Progress) (a d : RecordId)
        → replay_from p records rules none ≡ ok z
        → contains (dependents z.state.epistemic_dependents a) d ≡ cites a d records
    unfolding dependents contains get
    replay_from-cites z a d run =
        let all =
          Audited-cites a d 0 records _ z (replay_from-IsAudited p records rules z run).audited in
        ground (arith, all)
