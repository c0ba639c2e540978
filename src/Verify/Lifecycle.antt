-- ===== src/Verify/Lifecycle.antt =====
-- src/verify/verifier/lifecycle.rs and plans.rs: the rules of results, refusals, usages, summaries,
-- responses, retractions and approvals.
pub mod Turns
use bellbook.Prelude.{
  Bool, true, false, not, ◌&&◌, ◌||◌, Option, none, some, List, [], ◌∷◌, ◌==◌, ltb, nat_ord,
  string_ord, if◌then◌else◌, ok, or_err, guard, ◌>>=◌, ◌>>◌, is_some, unwrap_or,
}
use bellbook.Prelude.Map.{contains, get}
use bellbook.Base.Schema.{schema_id, schema_result_external, schema_result_effect_confirmation}
use bellbook.Record.Kind.{
  Kind, RefType, ReasonCode, ExecMode, RefusalTarget, kind_ord, summary_type_ord,
}
use bellbook.Record.Refs.{RecordId, targets_of}
use bellbook.Record.Payloads.{ArtifactRef, artifact_refs_well_formed}
use bellbook.Record.Envelope.{Record}
use bellbook.State.Defs.{State}
use bellbook.State.Apply.{turn_max}
use bellbook.Platform.{Platform, PayloadType}
use bellbook.Verify.Rules.{VerifierRules}
use bellbook.Verify.Prior.{Prior, find_record}
use bellbook.Verify.Check.{Check, reject_if, dec, same_place, only_target}
use bellbook.Verify.Work.{active_request}

abbrev pub artifacts_fit : Option (List ArtifactRef) → Bool
artifacts_fit none = true
artifacts_fit (some artifacts) = artifact_refs_well_formed artifacts

module _ (p : Platform) where
  -- An external result is a signed attestation from an author with pinned keys.
  unfoldable pub check_exec_mode : ExecMode → Record → VerifierRules → Check
  check_exec_mode ExecMode.external r rules = do
    guard (r.schema == schema_id p.sha256 schema_result_external)
        ReasonCode.external_receipt_required
    guard (is_some r.author.signature) ReasonCode.signature_missing
    guard (is_some (get rules.author_keys r.author.id)) ReasonCode.signature_invalid
  check_exec_mode ExecMode.internal r rules =
      reject_if (r.schema == schema_id p.sha256 schema_result_external) ReasonCode.invalid_payload

  unfoldable pub check_result : Record → Prior → VerifierRules → State → Check
  unfolding check_exec_mode
  check_result r prior rules s = do
    d ← dec p PayloadType.result r.payload
    guard (artifacts_fit d.artifacts) ReasonCode.artifact_ref_invalid
    guard (contains s.open_actions d.action_id) ReasonCode.action_closed
    action ← or_err (find_record prior d.action_id) ReasonCode.action_closed
    guard (same_place action r) ReasonCode.action_closed
    a ← dec p PayloadType.action action.payload
    check_exec_mode a.exec_mode r rules
    guard (only_target RefType.cause r d.action_id) ReasonCode.invalid_payload

  unfoldable pub check_refusal_target : RefusalTarget → RecordId → Record → Record → State → Check
  check_refusal_target RefusalTarget.action id target r s = do
    guard (target.kind == Kind.action) ReasonCode.invalid_payload
    guard (contains s.open_actions id) ReasonCode.action_closed
    guard (same_place target r) ReasonCode.action_closed
  check_refusal_target RefusalTarget.request id target r s = do
    guard (target.kind == Kind.request) ReasonCode.invalid_payload
    guard (contains s.active_requests id) ReasonCode.request_missing
    guard (same_place target r) ReasonCode.request_missing
  check_refusal_target RefusalTarget.verified_effect id target r s = do
    guard
        (target.kind == Kind.result
          && target.schema == schema_id p.sha256 schema_result_effect_confirmation)
        ReasonCode.invalid_payload
    guard (contains s.accepted_records id) ReasonCode.invalid_payload
    guard (same_place target r) ReasonCode.invalid_payload

  unfoldable pub check_refusal : Record → Prior → State → Check
  unfolding check_refusal_target
  check_refusal r prior s = do
    d ← dec p PayloadType.refusal r.payload
    target ← or_err (find_record prior d.target_id) ReasonCode.request_missing
    check_refusal_target d.target_kind d.target_id target r s
    guard (only_target RefType.cause r d.target_id) ReasonCode.invalid_payload

  unfoldable pub check_usage : Record → Prior → State → Check
  check_usage r prior s = do
    d ← dec p PayloadType.usage r.payload
    guard (d.actor == r.author.id) ReasonCode.invalid_payload
    guard (is_some (find_record prior d.used_record)) ReasonCode.invalid_payload
    consuming ← or_err (find_record prior d.consuming_record) ReasonCode.invalid_payload
    guard (contains s.accepted_records d.consuming_record) ReasonCode.invalid_payload
    guard (consuming.kind == Kind.result || consuming.kind == Kind.refusal)
        ReasonCode.invalid_payload
    guard (consuming.thread == r.thread) ReasonCode.invalid_payload
    guard (only_target RefType.use_ r d.used_record) ReasonCode.invalid_payload

  abbrev is_nonempty {ℓ} : {A : Type ℓ} → List A → Bool
  is_nonempty [] = false
  is_nonempty (a ∷ l) = true

  unfoldable pub check_summary : Record → VerifierRules → Check
  check_summary r rules = do
    d ← dec p PayloadType.summary r.payload
    guard (contains rules.allowed_summary_types d.summary_type) ReasonCode.invalid_payload
    guard (is_nonempty (targets_of RefType.use_ r.refs)) ReasonCode.invalid_payload

  -- A closing response needs that no action is open and no plan is running.
  unfoldable pub check_closing : RecordId → State → Check
  check_closing request_id s = do
    reject_if (ltb 0 (unwrap_or (get s.request_open_action_count request_id) 0))
        ReasonCode.invalid_payload
    reject_if (is_some (get s.active_plans request_id)) ReasonCode.invalid_payload

  unfoldable pub check_response : Record → Prior → State → Check
  unfolding active_request check_closing
  check_response r prior s = do
    d ← dec p PayloadType.response r.payload
    request ← active_request r d.request_id prior s
    let expected_turn = unwrap_or (get s.response_turns d.request_id) 0
    guard (not (expected_turn == turn_max) && d.turn_index == expected_turn)
        ReasonCode.invalid_payload
    if d.closes_request then check_closing d.request_id s else ok tt

  unfoldable pub check_retraction : Record → Prior → VerifierRules → State → Check
  check_retraction r prior rules s = do
    d ← dec p PayloadType.retraction r.payload
    guard (only_target RefType.cause r d.target_id) ReasonCode.invalid_payload
    target ← or_err (find_record prior d.target_id) ReasonCode.ref_unresolved
    guard (contains s.accepted_records d.target_id) ReasonCode.invalid_payload
    reject_if (target.kind == Kind.verdict || target.kind == Kind.retraction)
        ReasonCode.invalid_payload
    guard (r.author.id == target.author.id || contains rules.admin_retraction_actors r.author.id)
        ReasonCode.author_role_invalid

  abbrev xor_bool : Bool → Bool → Bool
  xor_bool true b = not b
  xor_bool false b = b

  unfoldable pub check_approval : Record → Check
  check_approval r = do
    d ← dec p PayloadType.approval r.payload
    guard (xor_bool (is_some d.target_action) (is_some d.action_class)) ReasonCode.invalid_payload
    reject_if (is_some d.target_action && not (is_some d.actor_id)) ReasonCode.invalid_payload
