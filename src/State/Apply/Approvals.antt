-- ===== src/State/Apply/Approvals.antt =====
-- src/state/incremental.rs: an exact approval is spent by the action that requires it.
use bellbook.Prelude.{
  ◌≡◌, refl, ap, ◌∙◌, Option-cases, true, none, some, List, [], ◌∷◌, ==_iff, nat_ord, inl, inr,
  Bool-cases, arith,
}
use bellbook.Prelude.Map.{BTreeMap, get, insert, get-delete}
use bellbook.Base.Hash.{Hash256}
use bellbook.Record.Kind.{Kind, RefType, VerdictResult}
use bellbook.Record.Refs.{RecordId, has_ref, Ref}
use bellbook.Record.Payloads.{ActionData, VerdictData}
use bellbook.Record.Envelope.{Record}
use bellbook.State.Defs.{State, ClassKey, CapabilityKey, is_epistemic}
use bellbook.State.Operations.{
  index_refs, inherits_taint, depend, enter, consume_approval, apply_action,
}
use bellbook.State.Taint.{mark_tainted}
use bellbook.State.Apply.{and_fold, fold_kind, apply_accepted, fold_result, apply_record}
use bellbook.Platform.{Platform, PayloadType, Form, decode, sha256_canonical}

-- What the checks of an action look up in the state.
abbrev Authority : Type 0
Authority = BTreeMap Hash256 RecordId × BTreeMap ClassKey RecordId × BTreeMap CapabilityKey RecordId

abbrev authority : State → Authority
authority s = (s.valid_approvals, s.class_approvals, s.active_capabilities)

authority-index_refs :
    (id : RecordId) (refs : List Ref) (s : State) → authority (index_refs id refs s) ≡ authority s
unfolding index_refs
authority-index_refs id [] s = refl
authority-index_refs id (x ∷ refs) s = elim (Bool-cases (is_epistemic x.type_)) [
  | inl e ↦ rw (index_refs, e) (authority-index_refs id refs _)
  | inr e ↦ rw (index_refs, e) (authority-index_refs id refs s)
]

authority-enter : (r : Record) (s : State) → authority (enter r s) ≡ authority s
unfolding enter depend mark_tainted
authority-enter r s =
    let t : State = record s { accepted_records = insert r.id s.accepted_records } in
    elim (Bool-cases (inherits_taint r.refs t)) [
      | inl e ↦ rw (enter, depend, e) (authority-index_refs r.id r.refs t)
      | inr e ↦ rw (enter, depend, e) (authority-index_refs r.id r.refs t)
    ]

consume_approval-keeps :
    (h : Hash256) (r : Record) (s : State)
    → ((consume_approval h r s).class_approvals ≡ s.class_approvals)
      × ((consume_approval h r s).active_capabilities ≡ s.active_capabilities)
unfolding consume_approval
consume_approval-keeps h r s = elim (Option-cases (get s.valid_approvals h)) [
  | inl e ↦ (rw (consume_approval, e) refl, rw (consume_approval, e) refl)
  | inr (id, e) ↦ elim (Bool-cases (has_ref RefType.require id r.refs)) [
    | inl c ↦ (rw (consume_approval, e, c) refl, rw (consume_approval, e, c) refl)
    | inr c ↦ (rw (consume_approval, e, c) refl, rw (consume_approval, e, c) refl)
  ]
]

get-consume_approval :
    (h : Hash256) (r : Record) (s : State) (id : RecordId)
    → get s.valid_approvals h ≡ some id
    → has_ref RefType.require id r.refs ≡ true
    → get (consume_approval h r s).valid_approvals h ≡ none
unfolding consume_approval
get-consume_approval h r s id held cited =
    ground (arith, held, cited, get-delete s.valid_approvals h h, ==_iff h h)

abbrev pub accepted_verdict : VerdictData
accepted_verdict = record { result = VerdictResult.accept; reason = none }

module _ (p : Platform) (s : State) (r : Record) (d : ActionData) (h : Hash256) where
  -- The fold of an accepted action takes out the exact approval that it requires, and leaves class
  -- approvals and capabilities as they are.
  pub record IsSpent (t : State) : Type 0 where
    pub spent :
        (id : RecordId)
        → get s.valid_approvals h ≡ some id
        → has_ref RefType.require id r.refs ≡ true
        → get t.valid_approvals h ≡ none
    pub class_kept : t.class_approvals ≡ s.class_approvals
    pub capabilities_kept : t.active_capabilities ≡ s.active_capabilities

  pub apply_record-IsSpent :
      r.kind ≡ Kind.action
      → decode p PayloadType.action r.payload ≡ some d
      → sha256_canonical p (Form.action_subject r.author.id d) ≡ some h
      → IsSpent (apply_record p s r accepted_verdict).0
  unfolding apply_record fold_result apply_accepted fold_kind and_fold apply_action
  apply_record-IsSpent kind decoded hashed =
      let kept = consume_approval-keeps h r (enter r s) in
      let entered = authority-enter r s in
      record {
        spent = λ id held cited.
            rw (kind, decoded, hashed)
              (get-consume_approval h r (enter r s) id
                (ap (λ (a : Authority). get a.0 h) entered ∙ held) cited);
        class_kept = rw (kind, decoded, hashed) (kept.0 ∙ ap (λ (a : Authority). a.1) entered);
        capabilities_kept =
            rw (kind, decoded, hashed) (kept.1 ∙ ap (λ (a : Authority). a.2) entered);
      }
