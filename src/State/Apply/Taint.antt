-- ===== src/State/Apply/Taint.antt =====
-- Every fold keeps taint exact: only `enter` and `retract` touch what taint is made of.
use bellbook.Prelude.{true, ◌||◌, ◌&&◌, ◌==◌, refl, nat_ord, ◌≡◌, arith}
use bellbook.Record.Kind.{VerdictResult}
use bellbook.Record.Refs.{RecordId}
use bellbook.Record.Payloads.{VerdictData}
use bellbook.Record.Envelope.{Record}
use bellbook.State.Defs.{State}
use bellbook.State.Operations.{enter}
use bellbook.State.Taint.{dependents}
use bellbook.Prelude.Map.{contains, contains-insert}
use bellbook.State.Apply.{apply_accepted, fold_result, apply_record}
use bellbook.State.Apply.Exact.{IsTaintExact, enter-IsTaintExact}
use bellbook.State.Apply.Index.{depends_on}
use bellbook.Platform.{Platform}
use bellbook.State.Apply.Frame.{
  IsTaintExact-of_same, retracted-enter, index-enter, index-apply_retraction,
  retracted-apply_retraction, apply_retraction-IsTaintExact, fold_kind-Leaves,
}

module _ (p : Platform) where
  -- A record that is folded into a state whose taint is exact, whatever its kind, its verdict and
  -- whether its payload decodes, leaves a state whose taint is exact.
  pub apply_record-IsTaintExact :
      (s : State) (r : Record) (verdict : VerdictData)
      → IsTaintExact s
      → IsTaintExact (apply_record p s r verdict).0
  unfolding apply_record apply_accepted
  apply_record-IsTaintExact s r verdict v = by_result verdict.result
    where
      by_result : (x : VerdictResult) → IsTaintExact (fold_result p x r s).0
      by_result VerdictResult.accept =
          (fold_kind-Leaves p r IsTaintExact (λ s t k w. IsTaintExact-of_same k w)
            apply_retraction-IsTaintExact (enter r s) (enter-IsTaintExact r s v) r.kind).after
      by_result VerdictResult.reject = v

  -- Folding an accepted record adds exactly the edges from the targets of its `Use` and `Require` refs
  -- to it, whatever its kind and whether its payload decodes.
  pub apply_record-depends_on :
      (s : State) (r : Record) (verdict : VerdictData) (a d : RecordId)
      → verdict.result ≡ VerdictResult.accept
      → contains (dependents (apply_record p s r verdict).0.epistemic_dependents a) d
        ≡ (depends_on r.refs a && r.id == d || contains (dependents s.epistemic_dependents a) d)
  unfolding apply_record apply_accepted fold_result
  apply_record-depends_on s r verdict a d accepted =
      let kept =
        (fold_kind-Leaves p r (λ t. t.epistemic_dependents ≡ (enter r s).epistemic_dependents)
          (λ t u k w. cc (k.index, w)) (λ target t w. cc (index-apply_retraction target t, w))
          (enter r s) refl r.kind).after in
      rw (accepted, kept) (index-enter r s a d)

  -- No fold, of any kind and verdict, takes a retraction back.
  pub retracted-apply_record :
      (s : State) (r : Record) (verdict : VerdictData) (x : RecordId)
      → contains s.retracted_records x ≡ true
      → contains (apply_record p s r verdict).0.retracted_records x ≡ true
  unfolding apply_record apply_accepted
  retracted-apply_record s r verdict x h = by_result verdict.result
    where
      by_result : (o : VerdictResult) → contains (fold_result p o r s).0.retracted_records x ≡ true
      by_result VerdictResult.accept =
          (fold_kind-Leaves p r (λ t. contains t.retracted_records x ≡ true)
            (λ t u k w. rw (k.retracted) w)
            (λ target t w.
              rw (retracted-apply_retraction target t)
                (ground (arith, contains-insert t.retracted_records target x, w)))
            (enter r s) (rw (retracted-enter r s) h) r.kind).after
      by_result VerdictResult.reject = h
