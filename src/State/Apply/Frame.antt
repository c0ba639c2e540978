-- ===== src/State/Apply/Frame.antt =====
-- src/state/incremental.rs: what the operations of a fold leave of the retractions, the taint and
-- the dependence index.
use bellbook.Prelude.{
  ◌||◌, ◌&&◌, ◌==◌, refl, Bool-cases, inl, inr, nat_ord, ◌≡◌, Bool, Option, none, some, arith,
}
use bellbook.Base.Hash.{Hash256}
use bellbook.Record.Kind.{Kind}
use bellbook.Record.Refs.{RecordId}
use bellbook.Record.Payloads.{
  ActionData, RefusalData, CapabilityData, ApprovalData, UsageData, PlanData, ResponseData,
  RequirementData,
}
use bellbook.Record.Envelope.{Record}
use bellbook.State.Defs.{State}
use bellbook.State.Operations.{
  depend, inherits_taint, consume_approval, note_replaced, close_action, apply_action,
  apply_refusal, apply_capability, apply_approval, enter,
}
use bellbook.State.Taint.{mark_tainted, dependents}
use bellbook.Prelude.Map.{contains, insert}
use bellbook.State.Retract.{
  drop_capability, drop_exact_approval, drop_class_approval, release_requirement, apply_retraction,
  retract,
}
use bellbook.State.Apply.{
  apply_usage, apply_plan, apply_response, apply_requirement, apply_summary, fold_kind, and_fold,
}
use bellbook.State.Apply.Exact.{mark_all_frame, IsTaintExact, retract-IsTaintExact}
use bellbook.State.Apply.Index.{depends_on, contains-index_refs, tainted-index_refs}
use bellbook.Platform.{Platform}

-- What taint is made of is the same in both states.
pub record SameTaint (s t : State) : Type 0 where
  pub retracted : t.retracted_records ≡ s.retracted_records
  pub tainted : t.tainted_records ≡ s.tainted_records
  pub index : t.epistemic_dependents ≡ s.epistemic_dependents

pub IsTaintExact-of_same : {s t : State} → SameTaint s t → IsTaintExact s → IsTaintExact t
IsTaintExact-of_same same v = rw (same.retracted, same.tainted, same.index) v

SameTaint-trans : {s t u : State} → SameTaint s t → SameTaint t u → SameTaint s u
SameTaint-trans a b = ground arith

module _ (r : Record) (s : State) where
  note_replaced-SameTaint : SameTaint s (note_replaced r s)
  unfolding note_replaced
  note_replaced-SameTaint = ground arith

  consume_approval-SameTaint : (h : Hash256) → SameTaint s (consume_approval h r s)
  unfolding consume_approval
  consume_approval-SameTaint h = ground arith

  apply_action-SameTaint : (d : ActionData) (h : Hash256) → SameTaint s (apply_action d h r s)
  unfolding apply_action
  apply_action-SameTaint d h = ground (arith, consume_approval-SameTaint h)

  apply_capability-SameTaint : (d : CapabilityData) → SameTaint s (apply_capability d r s)
  unfolding apply_capability
  apply_capability-SameTaint d = ground arith

  apply_approval-SameTaint : (d : ApprovalData) → SameTaint s (apply_approval d r s)
  unfolding apply_approval
  apply_approval-SameTaint d = ground arith

  apply_plan-SameTaint : (d : PlanData) → SameTaint s (apply_plan d r s)
  unfolding apply_plan
  apply_plan-SameTaint d = ground arith

  apply_requirement-SameTaint : (d : RequirementData) → SameTaint s (apply_requirement d r s)
  unfolding apply_requirement
  apply_requirement-SameTaint d = ground arith

  apply_summary-SameTaint : (key : Hash256) → SameTaint s (apply_summary key r s)
  unfolding apply_summary
  apply_summary-SameTaint key = ground arith

close_action-SameTaint : (id : RecordId) (s : State) → SameTaint s (close_action id s)
unfolding close_action
close_action-SameTaint id s = ground arith

apply_refusal-SameTaint : (d : RefusalData) (s : State) → SameTaint s (apply_refusal d s)
unfolding apply_refusal
apply_refusal-SameTaint d s = ground arith

apply_usage-SameTaint : (d : UsageData) (s : State) → SameTaint s (apply_usage d s)
unfolding apply_usage
apply_usage-SameTaint d s = ground arith

apply_response-SameTaint : (d : ResponseData) (s : State) → SameTaint s (apply_response d s)
unfolding apply_response
apply_response-SameTaint d s = ground arith

module _ (target : RecordId) (s : State) where
  drop_capability-SameTaint : SameTaint s (drop_capability target s)
  unfolding drop_capability
  drop_capability-SameTaint = ground arith

  drop_exact_approval-SameTaint : SameTaint s (drop_exact_approval target s)
  unfolding drop_exact_approval
  drop_exact_approval-SameTaint = ground arith

  drop_class_approval-SameTaint : SameTaint s (drop_class_approval target s)
  unfolding drop_class_approval
  drop_class_approval-SameTaint = ground arith

  release_requirement-SameTaint : SameTaint s (release_requirement target s)
  unfolding release_requirement
  release_requirement-SameTaint = ground arith

-- A retraction adds its target to the retracted records, and nothing else.
pub retracted-apply_retraction :
    (target : RecordId) (s : State)
    → (apply_retraction target s).retracted_records ≡ insert target s.retracted_records
unfolding apply_retraction retract
retracted-apply_retraction target s =
    let gone : State = record s { retracted_records = insert target s.retracted_records } in
    let t1 = retract target s in
    let t2 = drop_capability target t1 in
    let t3 = drop_exact_approval target t2 in
    let t4 = drop_class_approval target t3 in
    cc (
      (release_requirement-SameTaint target t4).retracted,
      (drop_class_approval-SameTaint target t3).retracted,
      (drop_exact_approval-SameTaint target t2).retracted,
      (drop_capability-SameTaint target t1).retracted,
      (mark_all_frame (dependents s.epistemic_dependents target) gone).0,
    )

pub apply_retraction-IsTaintExact :
    (target : RecordId) (s : State) → IsTaintExact s → IsTaintExact (apply_retraction target s)
unfolding apply_retraction
apply_retraction-IsTaintExact target s v =
    IsTaintExact-of_same (release_requirement-SameTaint target _) (
      IsTaintExact-of_same (drop_class_approval-SameTaint target _) (
        IsTaintExact-of_same (drop_exact_approval-SameTaint target _) (
          IsTaintExact-of_same (drop_capability-SameTaint target _)
            (retract-IsTaintExact target s v))))

pub retracted-enter : (r : Record) (s : State) → (enter r s).retracted_records ≡ s.retracted_records
unfolding enter depend mark_tainted
retracted-enter r s =
    let t : State = record s { accepted_records = insert r.id s.accepted_records } in
    elim (Bool-cases (inherits_taint r.refs t)) [
      | inl e ↦ rw (enter, depend, e) ((tainted-index_refs r.id r.refs t).1)
      | inr e ↦ rw (enter, depend, e) ((tainted-index_refs r.id r.refs t).1)
    ]

pub index-enter :
    (r : Record) (s : State) (a d : RecordId)
    → contains (dependents (enter r s).epistemic_dependents a) d
      ≡ (depends_on r.refs a && r.id == d || contains (dependents s.epistemic_dependents a) d)
unfolding enter depend mark_tainted
index-enter r s a d =
    let t : State = record s { accepted_records = insert r.id s.accepted_records } in
    elim (Bool-cases (inherits_taint r.refs t)) [
      | inl e ↦ rw (enter, depend, e) (contains-index_refs r.id r.refs t a d)
      | inr e ↦ rw (enter, depend, e) (contains-index_refs r.id r.refs t a d)
    ]

pub index-apply_retraction :
    (target : RecordId) (s : State)
    → (apply_retraction target s).epistemic_dependents ≡ s.epistemic_dependents
unfolding apply_retraction retract
index-apply_retraction target s =
    let gone : State = record s { retracted_records = insert target s.retracted_records } in
    let t1 = retract target s in
    let t2 = drop_capability target t1 in
    let t3 = drop_exact_approval target t2 in
    let t4 = drop_class_approval target t3 in
    cc (
      (release_requirement-SameTaint target t4).index,
      (drop_class_approval-SameTaint target t3).index,
      (drop_exact_approval-SameTaint target t2).index,
      (drop_capability-SameTaint target t1).index,
      (mark_all_frame (dependents s.epistemic_dependents target) gone).1,
    )

-- What holds of the state that a fold leaves, whether the fold succeeds or not.
pub record Leaves (P : State → Type 0) (f : State × Bool) : Type 0 where
  pub after : P f.0

and_fold-Leaves {ℓ} :
    {A : Type ℓ} (P : State → Type 0) (s : State) (o : Option A) (f : A → State × Bool)
    → P s
    → ((a : A) → Leaves P (f a))
    → Leaves P (and_fold s o f)
unfolding and_fold
and_fold-Leaves P s none f v h = record { after = v }
and_fold-Leaves P s (some a) f v h = h a

-- A property that is kept where taint is the same, and by retractions, is kept by the match on the
-- kind.
module _ (p : Platform) (r : Record) (P : State → Type 0)
    (keep : (s t : State) → SameTaint s t → P s → P t)
    (retracts : (target : RecordId) (s : State) → P s → P (apply_retraction target s)) (s : State)
    (v : P s) where
  same : {t : State} {b : Bool} → SameTaint s t → Leaves P (t, b)
  same k = record { after = keep s _ k v }

  pub fold_kind-Leaves : (k : Kind) → Leaves P (fold_kind p k r s)
  unfolding fold_kind
  fold_kind-Leaves Kind.request = record {
    after = keep s _ (record { retracted = refl; tainted = refl; index = refl }) v;
  }
  fold_kind-Leaves Kind.action =
      and_fold-Leaves P s _ _ v
        λ d. and_fold-Leaves P s _ _ v λ h. same (apply_action-SameTaint r s d h)
  fold_kind-Leaves Kind.result =
      and_fold-Leaves P s _ _ v λ d. same (close_action-SameTaint d.action_id s)
  fold_kind-Leaves Kind.refusal = and_fold-Leaves P s _ _ v λ d. same (apply_refusal-SameTaint d s)
  fold_kind-Leaves Kind.capability =
      and_fold-Leaves P s _ _ v λ d. same (apply_capability-SameTaint r s d)
  fold_kind-Leaves Kind.approval =
      and_fold-Leaves P s _ _ v λ d. same (apply_approval-SameTaint r s d)
  fold_kind-Leaves Kind.summary =
      and_fold-Leaves P s _ _ v
        λ d. and_fold-Leaves P s _ _ v λ key. same (apply_summary-SameTaint r s key)
  fold_kind-Leaves Kind.usage = and_fold-Leaves P s _ _ v λ d. same (apply_usage-SameTaint d s)
  fold_kind-Leaves Kind.plan = and_fold-Leaves P s _ _ v λ d. same (apply_plan-SameTaint r s d)
  fold_kind-Leaves Kind.retraction =
      and_fold-Leaves P s _ _ v λ d. record { after = retracts d.target_id s v }
  fold_kind-Leaves Kind.response =
      and_fold-Leaves P s _ _ v λ d. same (apply_response-SameTaint d s)
  fold_kind-Leaves Kind.requirement =
      and_fold-Leaves P s _ _ v λ d. same (apply_requirement-SameTaint r s d)
  fold_kind-Leaves Kind.selection =
      let w = keep s _ (note_replaced-SameTaint r s) v in
      and_fold-Leaves P s _ _ v λ d. and_fold-Leaves P (note_replaced r s) _ _ w λ h. record {
        after = keep (note_replaced r s) _ (consume_approval-SameTaint r (note_replaced r s) h) w;
      }
  fold_kind-Leaves _ = record { after = v }
