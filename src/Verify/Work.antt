-- ===== src/Verify/Work.antt =====
-- src/verify/verifier/activity.rs: requests, and the authority of actions.
pub mod Authority
pub mod Revoked
pub mod Spent
use bellbook.Prelude.{
  ℕ, String, Bool, true, false, not, ◌&&◌, ◌||◌, Option, none, some, List, [], ◌∷◌, ◌==◌, leb,
  nat_ord, string_ord, option_ord, triple_ord, if◌then◌else◌, Result, ok, err, or_err, guard, ◌>>=◌,
  ◌>>◌,
}
use bellbook.Prelude.Map.{contains, get}
use bellbook.Record.Kind.{Kind, RefType, ReasonCode, CapabilityMode, kind_ord}
use bellbook.Record.Refs.{RecordId, has_ref, targets_of}
use bellbook.Record.Payloads.{Time, ActionData, ApprovalData, RequestData, CapabilityData}
use bellbook.Record.Envelope.{Record}
use bellbook.State.Defs.{State, CapabilityKey, ClassKey, is_discredited, stands}
use bellbook.Platform.{Platform, PayloadType, Form, sha256_canonical}
use bellbook.Verify.Prior.{Prior, find_record}
use bellbook.Verify.Check.{Checked, Check, reject_if, dec, same_place}

-- `expiry` has come at `time`.
abbrev pub is_expired : Option Time → Time → Bool
is_expired none time = false
is_expired (some expiry) time = leb expiry time

-- The request that work names: active, committed, in the same thread and space.
unfoldable pub active_request : Record → RecordId → Prior → State → Checked Record
active_request r id prior s = do
  guard (contains s.active_requests id) ReasonCode.request_missing
  request ← or_err (find_record prior id) ReasonCode.request_missing
  guard (same_place request r) ReasonCode.request_missing
  ok request

-- The loop over the `Cause` targets in `check_request`.
unfoldable pub check_parents : List RecordId → Record → Prior → State → Check
check_parents [] r prior s = ok tt
check_parents (id ∷ ids) r prior s =
    let rest = check_parents ids r prior s in
    do
      parent ← or_err (find_record prior id) ReasonCode.ref_unresolved
      guard (parent.kind == Kind.request) ReasonCode.invalid_payload
      guard (parent.thread == r.thread) ReasonCode.invalid_payload
      guard (contains s.accepted_records id) ReasonCode.request_missing
      rest

abbrev is_parent : Option RecordId → List RecordId → Bool
is_parent none [] = true
is_parent (some id) (x ∷ []) = x == id
is_parent _ _ = false

unfoldable pub has_require_ref : Record → RecordId → Bool
has_require_ref r target = has_ref RefType.require target r.refs

-- `if let Some(&id) = map.get(key) { … }`.
abbrev pub try_slot :
    Option RecordId → (RecordId → Checked (Option RecordId)) → Checked (Option RecordId)
try_slot none f = ok none
try_slot (some id) f = f id

-- The first of the searches that answers.
abbrev pub or_else : Checked (Option RecordId) → Checked RecordId → Checked RecordId
or_else (err reason) next = err reason
or_else (ok (some id)) next = ok id
or_else (ok none) next = next

module _ (p : Platform) where
  unfoldable pub check_request : Record → Prior → State → Check
  unfolding check_parents
  check_request r prior s = do
    d ← dec p PayloadType.request r.payload
    check_parents (targets_of RefType.cause r.refs) r prior s
    guard (is_parent d.parent_request_id (targets_of RefType.cause r.refs))
        ReasonCode.invalid_payload

  -- An exact approval whose declared actor and scope match and that has not expired; else the search
  -- goes on.
  unfoldable pub exact_approval :
      Record → ActionData → Prior → State → RecordId → Checked (Option RecordId)
  exact_approval r d prior s id = elim (find_record prior id) [
    | none ↦ ok none
    | some approval ↦
        if stands s id
        then (do
          a ← dec p PayloadType.approval approval.payload
          ok (
              if a.actor_id == some r.author.id
                && a.scope == d.scope
                && not (is_expired a.expiry r.time)
              then some id
              else none))
        else ok none
  ]

  -- A class approval under one key: an expired one is an error.
  unfoldable pub class_approval : Record → Prior → State → RecordId → Checked (Option RecordId)
  class_approval r prior s id = elim (find_record prior id) [
    | none ↦ ok none
    | some approval ↦
        if stands s id
        then (do
          a ← dec p PayloadType.approval approval.payload
          reject_if (is_expired a.expiry r.time) ReasonCode.approval_expired
          ok (some id))
        else ok none
  ]

  abbrev pub class_key : Record → ActionData → ClassKey
  class_key r d = (d.action_class, d.scope, some r.author.id)

  abbrev pub wildcard_key : ActionData → ClassKey
  wildcard_key d = (d.action_class, d.scope, none)

  unfoldable pub check_approval_for_action : Record → ActionData → Prior → State → Checked RecordId
  unfolding exact_approval class_approval
  check_approval_for_action r d prior s = do
    action_hash ←
        or_err (sha256_canonical p (Form.action_subject r.author.id d)) ReasonCode.invalid_payload
    or_else (try_slot (get s.valid_approvals action_hash) (exact_approval r d prior s)) (
        or_else (try_slot (get s.class_approvals (class_key r d)) (class_approval r prior s)) (
          or_else (try_slot (get s.class_approvals (wildcard_key d)) (class_approval r prior s))
            (err ReasonCode.approval_missing)))

  -- What each mode asks for: nothing, an approval, or it refuses.
  unfoldable pub approval_for_mode :
      CapabilityMode → Record → ActionData → Prior → State → Checked (Option RecordId)
  unfolding check_approval_for_action
  approval_for_mode CapabilityMode.deny r d prior s = err ReasonCode.capability_denied
  approval_for_mode CapabilityMode.auto r d prior s = ok none
  approval_for_mode CapabilityMode.ask r d prior s = do
    id ← check_approval_for_action r d prior s
    ok (some id)

  abbrev pub requires_approval : Record → Option RecordId → Bool
  requires_approval r none = true
  requires_approval r (some id) = has_require_ref r id

  abbrev pub capability_key : Record → ActionData → CapabilityKey
  capability_key r d = (r.author.id, d.action_class, d.scope)

  unfoldable pub check_capability : Record → ActionData → Prior → State → Check
  unfolding approval_for_mode has_require_ref
  check_capability r d prior s = do
    cap_id ← or_err (get s.active_capabilities (capability_key r d)) ReasonCode.capability_missing
    cap ← or_err (find_record prior cap_id) ReasonCode.capability_missing
    reject_if (is_discredited s cap_id) ReasonCode.capability_missing
    c ← dec p PayloadType.capability cap.payload
    reject_if (is_expired c.expiry r.time) ReasonCode.capability_missing
    approval_id ← approval_for_mode c.mode r d prior s
    guard (has_require_ref r cap_id) ReasonCode.authority_ref_missing
    guard (requires_approval r approval_id) ReasonCode.authority_ref_missing

  unfoldable pub check_action : Record → Prior → State → Check
  unfolding active_request check_capability
  check_action r prior s = do
    d ← dec p PayloadType.action r.payload
    request ← active_request r d.request_id prior s
    q ← dec p PayloadType.request request.payload
    guard (d.scope == q.scope) ReasonCode.invalid_payload
    check_capability r d prior s
