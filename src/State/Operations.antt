-- ===== src/State/Operations.antt =====
-- src/state/incremental.rs: the parts of `apply_accepted`, one for each kind of record that moves work or
-- grants authority. (Counts are u64 in the source; `close_action_for_request` never meets a zero.)
use bellbook.Prelude.{
  ◌+◌, ◌-◌, String, Bool, false, ◌&&◌, ◌||◌, Option, none, some, List, [], ◌∷◌, ◌==◌, nat_ord,
  string_ord, pair_ord, triple_ord, option_ord, if◌then◌else◌, unwrap_or,
}
use bellbook.Prelude.Map.{insert, remove, get, put, delete}
use bellbook.Base.Hash.{Hash256}
use bellbook.Record.Kind.{RefType, RefusalTarget}
use bellbook.Record.Refs.{RecordId, Ref, has_ref, find_ref}
use bellbook.Record.Payloads.{ActionData, RefusalData, CapabilityData, ApprovalData}
use bellbook.Record.Envelope.{Record}
use bellbook.State.Defs.{State, CapabilityKey, ClassKey, is_discredited, is_epistemic}
use bellbook.State.Taint.{Dependents, dependents, mark_tainted}

-- `entry(target).or_default().insert(id)`.
unfoldable pub add_dependent : RecordId → RecordId → Dependents → Dependents
unfolding dependents
add_dependent target id index = put target (insert id (dependents index target)) index

-- The loop over the refs: index the epistemic ones, and see whether a target is discredited.
unfoldable pub index_refs : RecordId → List Ref → State → State
unfolding add_dependent
index_refs id [] s = s
index_refs id (r ∷ refs) s = index_refs id refs (
    if is_epistemic r.type_
    then record s { epistemic_dependents = add_dependent r.target id s.epistemic_dependents }
    else s)

unfoldable pub inherits_taint : List Ref → State → Bool
inherits_taint [] s = false
inherits_taint (r ∷ refs) s =
    is_epistemic r.type_ && is_discredited s r.target || inherits_taint refs s

unfoldable pub depend : RecordId → List Ref → State → State
unfolding index_refs inherits_taint
depend id refs s =
    let indexed = index_refs id refs s in
    if inherits_taint refs s then mark_tainted indexed id else indexed

-- The part of `apply_accepted` before the match on the kind.
unfoldable pub enter : Record → State → State
unfolding depend
enter r s = depend r.id r.refs (record s { accepted_records = insert r.id s.accepted_records })

-- An exact approval is consumed when the record requires it.
unfoldable pub consume_approval : Hash256 → Record → State → State
consume_approval subject r s = elim (get s.valid_approvals subject) [
  | none ↦ s
  | some approval_id ↦
      if has_ref RefType.require approval_id r.refs
      then record s {
        valid_approvals = delete subject s.valid_approvals;
        exact_approval_index = delete approval_id s.exact_approval_index;
      }
      else s
]

unfoldable pub note_replaced : Record → State → State
note_replaced r s = elim (find_ref RefType.replace r.refs) [
  | none ↦ s
  | some replaced_id ↦ record s { replaced_records = insert replaced_id s.replaced_records }
]

-- `*count -= 1` with the entry dropped at zero, so that no count that is found is zero.
unfoldable pub close_action_for_request : RecordId → State → State
close_action_for_request action_id s = elim (get s.action_to_request action_id) [
  | none ↦ s
  | some request_id ↦ elim (get s.request_open_action_count request_id) [
    | none ↦ s
    | some count ↦ record s {
      request_open_action_count =
          if count - 1 == 0
          then delete request_id s.request_open_action_count
          else put request_id (count - 1) s.request_open_action_count;
    }
  ]
]

unfoldable pub close_action : RecordId → State → State
unfolding close_action_for_request
close_action action_id s =
    close_action_for_request action_id (record s { open_actions = remove action_id s.open_actions })

unfoldable pub apply_action : ActionData → Hash256 → Record → State → State
unfolding consume_approval
apply_action d exact_hash r s =
    let t = consume_approval exact_hash r s in
    record t {
      open_actions = insert r.id t.open_actions;
      action_to_request = put r.id d.request_id t.action_to_request;
      request_open_action_count =
          put d.request_id (unwrap_or (get t.request_open_action_count d.request_id) 0 + 1)
            t.request_open_action_count;
    }

unfoldable pub apply_refusal : RefusalData → State → State
unfolding close_action
apply_refusal d s = elim d.target_kind [
  | RefusalTarget.action ↦ close_action d.target_id s
  | RefusalTarget.request ↦ record s {
    active_requests = remove d.target_id s.active_requests;
    active_plans = delete d.target_id s.active_plans;
  }
  | RefusalTarget.verified_effect ↦ s
]

unfoldable pub apply_capability : CapabilityData → Record → State → State
unfolding note_replaced
apply_capability d r s =
    let key : CapabilityKey = (d.actor_id, d.action_class, d.scope) in
    let t = note_replaced r s in
    record t {
      capability_index = put r.id key t.capability_index;
      active_capabilities = put key r.id t.active_capabilities;
    }

abbrev index_exact : Option Hash256 → Record → State → State
index_exact none r s = s
index_exact (some target) r s = record s {
  exact_approval_index = put r.id target s.exact_approval_index;
  valid_approvals = put target r.id s.valid_approvals;
}

abbrev index_class : Option String → ApprovalData → Record → State → State
index_class none d r s = s
index_class (some action_class) d r s =
    let key : ClassKey = (action_class, d.scope, d.actor_id) in
    record s {
      class_approval_index = put r.id key s.class_approval_index;
      class_approvals = put key r.id s.class_approvals;
    }

unfoldable pub apply_approval : ApprovalData → Record → State → State
unfolding note_replaced
apply_approval d r s =
    index_class d.action_class d r (index_exact d.target_action r (note_replaced r s))
