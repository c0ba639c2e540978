-- ===== src/Verify/Selection.antt =====
-- src/verify/verifier/evolution.rs: the rules of selections.
use bellbook.Prelude.{
  ℕ, ◌+◌, Bool, true, false, not, ◌&&◌, ◌||◌, Option, none, some, List, [], ◌∷◌, ◌==◌, ltb, nat_ord,
  string_ord, option_ord, if◌then◌else◌, ok, or_err, guard, ◌>>=◌, ◌>>◌, length, all,
}
use bellbook.Prelude.Map.{BTreeSet, contains, insert, get}
use bellbook.Base.Hash.{Bytes, Hash256}
use bellbook.Base.Schema.{schema_id, schema_evaluation}
use bellbook.Record.Kind.{Kind, RefType, ReasonCode, kind_ord, ref_type_ord}
use bellbook.Record.Refs.{RecordId, has_ref, targets_of, find_ref}
use bellbook.Record.Payloads.{SelectionData, SelectionOutcome}
use bellbook.Record.Envelope.{Record}
use bellbook.State.Defs.{State, stands}
use bellbook.Platform.{Platform, PayloadType, decode, selection_approval_subject_hash}
use bellbook.Verify.Rules.{VerifierRules}
use bellbook.Verify.Prior.{Prior, find_record}
use bellbook.Verify.Check.{Checked, Check, reject_if, dec}
use bellbook.Verify.Work.{is_expired}
use bellbook.Verify.Evolution.{resolve_candidate, is_manifest, is_v2_schema}

-- `iter().collect::<BTreeSet<_>>()`.
unfoldable pub collect : List RecordId → BTreeSet RecordId → BTreeSet RecordId
collect [] s = s
collect (id ∷ ids) s = collect ids (insert id s)

-- `==` of sets, which are lists in order.
unfoldable pub same_set : BTreeSet RecordId → BTreeSet RecordId → Bool
same_set [] [] = true
same_set (a ∷ s) (b ∷ t) = a == b && same_set s t
same_set _ _ = false

unfoldable pub resolve_all : List RecordId → Record → Prior → State → Check
resolve_all [] r prior s = ok tt
resolve_all (id ∷ ids) r prior s =
    let rest = resolve_all ids r prior s in do t ← resolve_candidate id r prior s; rest

module _ (p : Platform) where
  -- The judged candidate, the first part of `evaluation_summary`.
  unfoldable pub evaluation_subject : Hash256 → Bytes → Option RecordId
  evaluation_subject schema payload =
      if schema == schema_id p.sha256 schema_evaluation
      then elim (decode p PayloadType.evaluation payload) [
        | none ↦ none
        | some d ↦ some d.candidate
      ]
      else if is_v2_schema p schema
      then elim (decode p PayloadType.evaluation_v2 payload) [
        | none ↦ none
        | some d ↦ some d.candidate
      ]
      else none

  abbrev is_used_evaluation : Option Record → State → Option Record
  is_used_evaluation none s = none
  is_used_evaluation (some t) s =
      if t.kind == Kind.evaluation && contains s.accepted_records t.id then some t else none

  -- One used target: 1 for an accepted evaluation, whose candidate must be considered.
  unfoldable pub count_used : Option Record → BTreeSet RecordId → Checked ℕ
  unfolding evaluation_subject
  count_used none considered = ok 0
  count_used (some t) considered = do
    subject ← or_err (evaluation_subject t.schema t.payload) ReasonCode.invalid_payload
    guard (contains considered subject) ReasonCode.selection_invalid
    ok 1

  unfoldable pub used_evaluations : List RecordId → BTreeSet RecordId → Prior → State → Checked ℕ
  unfolding count_used
  used_evaluations [] considered prior s = ok 0
  used_evaluations (id ∷ ids) considered prior s =
      let rest = used_evaluations ids considered prior s in
      do
        n ← count_used (is_used_evaluation (find_record prior id) s) considered
        m ← rest
        ok (n + m)

  -- The loop over the winners under `min_binding`.
  unfoldable pub check_bindings : List RecordId → Prior → Check
  check_bindings [] prior = ok tt
  check_bindings (id ∷ ids) prior =
      let rest = check_bindings ids prior in
      do
        t ← or_err (find_record prior id) ReasonCode.selection_invalid
        d ← dec p PayloadType.candidate t.payload
        guard (is_manifest d.source.binding) ReasonCode.selection_invalid
        rest

  abbrev is_empty {ℓ} : {A : Type ℓ} → List A → Bool
  is_empty [] = true
  is_empty (a ∷ l) = false

  unfoldable pub winners_of :
      SelectionOutcome → BTreeSet RecordId → ℕ → Prior → VerifierRules → Checked (BTreeSet RecordId)
  unfolding collect check_bindings
  winners_of SelectionOutcome.none considered used prior rules = ok []
  winners_of (SelectionOutcome.selected candidates) considered used prior rules = do
    let selected = collect candidates []
    reject_if
        (is_empty selected
          || not (length selected == length candidates)
          || not (all (contains considered) selected))
        ReasonCode.selection_invalid
    if is_manifest rules.min_binding then check_bindings selected prior else ok tt
    reject_if (rules.selection_requires_evaluation && used == 0) ReasonCode.selection_invalid
    ok selected

  unfoldable pub resolve_selection_approval :
      Record → SelectionData → Prior → VerifierRules → State → Checked (Option RecordId)
  resolve_selection_approval r d prior rules s =
      if rules.selection_requires_approval
      then (do
        subject ←
            or_err
              (selection_approval_subject_hash p r.author.id (find_ref RefType.replace r.refs) d)
              ReasonCode.invalid_payload
        id ← or_err (get s.valid_approvals subject) ReasonCode.approval_missing
        guard (has_ref RefType.require id r.refs) ReasonCode.approval_missing
        guard (stands s id) ReasonCode.approval_missing
        approval ← or_err (find_record prior id) ReasonCode.approval_missing
        a ← dec p PayloadType.approval approval.payload
        guard (a.actor_id == some r.author.id) ReasonCode.approval_missing
        reject_if (is_expired a.expiry r.time) ReasonCode.approval_expired
        ok (some id))
      else ok none

  abbrev allow : Option RecordId → BTreeSet RecordId → BTreeSet RecordId
  allow none s = s
  allow (some id) s = insert id s

  abbrev same_objective : Option Record → SelectionData → Check
  same_objective none d = ok tt
  same_objective (some target) d = do
    t ← dec p PayloadType.selection target.payload
    guard (t.objective == d.objective) ReasonCode.reaffirmation_invalid

  -- The rules of a `Replace` ref.
  unfoldable pub check_reaffirmation :
      Option RecordId → Record → SelectionData → Prior → VerifierRules → Check
  check_reaffirmation none r d prior rules = ok tt
  check_reaffirmation (some id) r d prior rules = do
    same_objective (find_record prior id) d
    guard (is_empty rules.reaffirmation_actors || contains rules.reaffirmation_actors r.author.id)
        ReasonCode.reaffirmation_invalid

  unfoldable pub check_selection : Record → Prior → VerifierRules → State → Check
  unfolding collect same_set resolve_all used_evaluations winners_of resolve_selection_approval
      check_reaffirmation
  check_selection r prior rules s = do
    d ← dec p PayloadType.selection r.payload
    reject_if (is_empty d.considered || ltb rules.max_considered (length d.considered))
        ReasonCode.selection_invalid
    let considered = collect d.considered []
    guard (length considered == length d.considered) ReasonCode.selection_invalid
    resolve_all d.considered r prior s
    used ← used_evaluations (targets_of RefType.use_ r.refs) considered prior s
    winners ← winners_of d.outcome considered used prior rules
    approval ← resolve_selection_approval r d prior rules s
    guard (same_set (collect (targets_of RefType.require r.refs) []) (allow approval winners))
        ReasonCode.selection_invalid
    check_reaffirmation (find_ref RefType.replace r.refs) r d prior rules
