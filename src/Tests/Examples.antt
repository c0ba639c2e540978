-- ===== src/Tests/Examples.antt =====
-- The theorems at the examples of Tests/World.antt, and runs of the code on it.
use bellbook.Prelude.{
  ℕ, ◌*◌, ◌<◌, length, ◌==◌, ◌&&◌, ◌||◌, ◌≢◌, triple_ord, true, ◌≤◌, arith, ◌≡◌, refl, ok, [], ◌∷◌,
  none, some, nat_ord, string_ord,
}
use bellbook.Verify.Lifecycle.Turns.{IsNextTurn, check_response-IsNextTurn}
use bellbook.Verify.Work.Revoked.{check_action-revoked}
use bellbook.Tests.World.{
  response, response_data, world, log, rules, action, action_data, held, prior, final, built,
  shuffled, accepted, toy_hash,
}
use bellbook.State.Build.{build_state_unchecked, collect_verdicts, apply_all}
use bellbook.State.Build.Taint.{default_state-IsTaintExact, build_state_unchecked-IsTaintExact}
use bellbook.State.Apply.Exact.{IsTaintExact}
use bellbook.State.Apply.Index.{depends_on}
use bellbook.State.Apply.Taint.{
  apply_record-depends_on, retracted-apply_record, apply_record-IsTaintExact,
}
use bellbook.State.Taint.Loop.{walk_from_ends}
use bellbook.Record.Refs.Sorted.{sort_and_dedup_refs-strictly_sorted}
use bellbook.Record.Evidence.Bounds.{IsOneOf, derive_evidence-IsOneOf}
use bellbook.Base.Hash.{hex_encode, hex_decode_bytes}
use bellbook.Base.Hash.Hex.{hex_decode_bytes-hex_encode}
use bellbook.Verify.Prior.Scan.{scan, is_judged, find_record-index_of, has_verdict_for-index_of}
use bellbook.Verify.Work.Authority.{IsAuthorized}
use bellbook.Verify.RecordChecks.Accepted.{
  IsAdmitted, check_record-IsAdmitted, check_record-IsAuthorized,
}
use bellbook.Verify.Replay.Count.{IsChecked, verify_log-checked_records}
use bellbook.Verify.Replay.Edges.{cites, replay_from-cites}
use bellbook.Verify.Replay.Pairs.{IsAudited, replay_from-IsAudited}
use bellbook.Verify.Replay.Taint.{HasExactTaint, verify_log-HasExactTaint}
use bellbook.Prelude.Map.{remove, delete, contains, insert, get, put}
use bellbook.Base.Schema.{schema_id, schema_name_for_id}
use bellbook.Record.Kind.{
  RefType, VerdictResult, kind_ordinal, ref_ordinal, author_ordinal, allowed_author_types,
  requires_registered_author, result_ordinal,
}
use bellbook.Record.Refs.{
  RecordId, sort_and_dedup_refs, strictly_sorted, targets_of, has_ref, find_ref,
}
use bellbook.Record.Evidence.{
  Evidence, evidence_ordinal, base_evidence, weaker, weakest, derive_evidence,
}
use bellbook.Record.Envelope.{canonical_id_form, signing_form}
use bellbook.Platform.{
  PayloadType, try_from, decode, sha256_canonical, compute_id, selection_approval_subject_hash,
}
use bellbook.State.Defs.{default_state, ref_evidence}
use bellbook.State.Taint.{dependents, push_all, walk, edge_count, walk_from, mark_tainted}
use bellbook.State.Operations.{
  add_dependent, index_refs, inherits_taint, depend, enter, consume_approval, note_replaced,
  close_action_for_request, close_action, apply_action, apply_refusal, apply_capability,
  apply_approval,
}
use bellbook.State.Retract.{
  mark_all, drop_capability, drop_exact_approval, drop_class_approval, release_requirement, retract,
  apply_retraction,
}
use bellbook.State.Apply.{
  and_fold, apply_usage, apply_plan, apply_response, apply_requirement, apply_summary, fold_kind,
  apply_accepted, fold_result, apply_record,
}
use bellbook.Verify.Lifecycle.{check_response, check_closing, check_retraction}
use bellbook.Verify.Prior.{
  or_insert, add_subjects, insert_record, insert_all, index_of, view_prior, find_record,
  has_verdict_for,
}
use bellbook.Verify.Check.{only_target}
use bellbook.Verify.Envelope.{
  check_author_role, signature_required, check_refs, ref_evidences, check_id, check_schema,
  verified_key, check_signed, check_signature, check_replacement_compatibility, check_replacement,
  expected_evidence, check_evidence, decodes_canonically, payload_type, check_payload_decode,
}
use bellbook.Verify.RecordChecks.{
  verdict_of, check_kind_specific, check_verdict_record, check_subject, check_record, verify_record,
}
use bellbook.Verify.Work.{
  capability_key, active_request, check_parents, has_require_ref, check_request, exact_approval,
  class_approval, check_approval_for_action, approval_for_mode, check_capability, check_action,
}
use bellbook.Verify.Replay.{
  at, times_fit, conclude, id_fits, seed, replay_verdict, replay_pair, replay, replay_from,
  verify_log, verify_and_build_state,
}

log-accepted : (verify_log world log rules none).result ≡ VerdictResult.accept
unfolding check_retraction remove delete contains insert get put schema_id schema_name_for_id
    kind_ordinal ref_ordinal author_ordinal allowed_author_types requires_registered_author
    result_ordinal strictly_sorted targets_of has_ref find_ref evidence_ordinal base_evidence weaker
    weakest derive_evidence canonical_id_form signing_form try_from decode sha256_canonical
    compute_id selection_approval_subject_hash ref_evidence dependents push_all walk edge_count
    walk_from mark_tainted add_dependent index_refs inherits_taint depend enter consume_approval
    note_replaced close_action_for_request close_action apply_action apply_refusal apply_capability
    apply_approval mark_all drop_capability drop_exact_approval drop_class_approval
    release_requirement retract apply_retraction and_fold apply_usage apply_plan apply_response
    apply_requirement apply_summary fold_kind apply_accepted fold_result apply_record or_insert
    add_subjects insert_record insert_all index_of view_prior find_record has_verdict_for
    only_target check_author_role signature_required check_refs ref_evidences check_id check_schema
    verified_key check_signed check_signature check_replacement_compatibility check_replacement
    expected_evidence check_evidence decodes_canonically payload_type check_payload_decode
    verdict_of check_kind_specific check_verdict_record check_subject check_record verify_record
    active_request check_parents has_require_ref check_request exact_approval class_approval
    check_approval_for_action approval_for_mode check_capability check_action at times_fit conclude
    id_fits seed replay_verdict replay_pair replay replay_from verify_log verify_and_build_state
log-accepted = refl

action-accepted : check_record world action prior rules held ≡ ok tt
unfolding check_retraction remove delete contains insert get put schema_id schema_name_for_id
    kind_ordinal ref_ordinal author_ordinal allowed_author_types requires_registered_author
    result_ordinal strictly_sorted targets_of has_ref find_ref evidence_ordinal base_evidence weaker
    weakest derive_evidence canonical_id_form signing_form try_from decode sha256_canonical
    compute_id selection_approval_subject_hash ref_evidence dependents push_all walk edge_count
    walk_from mark_tainted add_dependent index_refs inherits_taint depend enter consume_approval
    note_replaced close_action_for_request close_action apply_action apply_refusal apply_capability
    apply_approval mark_all drop_capability drop_exact_approval drop_class_approval
    release_requirement retract apply_retraction and_fold apply_usage apply_plan apply_response
    apply_requirement apply_summary fold_kind apply_accepted fold_result apply_record or_insert
    add_subjects insert_record insert_all index_of view_prior find_record has_verdict_for
    only_target check_author_role signature_required check_refs ref_evidences check_id check_schema
    verified_key check_signed check_signature check_replacement_compatibility check_replacement
    expected_evidence check_evidence decodes_canonically payload_type check_payload_decode
    verdict_of check_kind_specific check_verdict_record check_subject check_record verify_record
    active_request check_parents has_require_ref check_request exact_approval class_approval
    check_approval_for_action approval_for_mode check_capability check_action at times_fit conclude
    id_fits seed replay_verdict replay_pair replay replay_from verify_log verify_and_build_state
action-accepted = refl

log-tainted : (verify_log world log rules none).tainted_records ≡ (5 ∷ [])
unfolding check_retraction remove delete contains insert get put schema_id schema_name_for_id
    kind_ordinal ref_ordinal author_ordinal allowed_author_types requires_registered_author
    result_ordinal strictly_sorted targets_of has_ref find_ref evidence_ordinal base_evidence weaker
    weakest derive_evidence canonical_id_form signing_form try_from decode sha256_canonical
    compute_id selection_approval_subject_hash ref_evidence dependents push_all walk edge_count
    walk_from mark_tainted add_dependent index_refs inherits_taint depend enter consume_approval
    note_replaced close_action_for_request close_action apply_action apply_refusal apply_capability
    apply_approval mark_all drop_capability drop_exact_approval drop_class_approval
    release_requirement retract apply_retraction and_fold apply_usage apply_plan apply_response
    apply_requirement apply_summary fold_kind apply_accepted fold_result apply_record or_insert
    add_subjects insert_record insert_all index_of view_prior find_record has_verdict_for
    only_target check_author_role signature_required check_refs ref_evidences check_id check_schema
    verified_key check_signed check_signature check_replacement_compatibility check_replacement
    expected_evidence check_evidence decodes_canonically payload_type check_payload_decode
    verdict_of check_kind_specific check_verdict_record check_subject check_record verify_record
    active_request check_parents has_require_ref check_request exact_approval class_approval
    check_approval_for_action approval_for_mode check_capability check_action at times_fit conclude
    id_fits seed replay_verdict replay_pair replay replay_from verify_log verify_and_build_state
log-tainted = refl

log-replayed : replay_from world log rules none ≡ ok final
unfolding check_retraction remove delete contains insert get put schema_id schema_name_for_id
    kind_ordinal ref_ordinal author_ordinal allowed_author_types requires_registered_author
    result_ordinal strictly_sorted targets_of has_ref find_ref evidence_ordinal base_evidence weaker
    weakest derive_evidence canonical_id_form signing_form try_from decode sha256_canonical
    compute_id selection_approval_subject_hash ref_evidence dependents push_all walk edge_count
    walk_from mark_tainted add_dependent index_refs inherits_taint depend enter consume_approval
    note_replaced close_action_for_request close_action apply_action apply_refusal apply_capability
    apply_approval mark_all drop_capability drop_exact_approval drop_class_approval
    release_requirement retract apply_retraction and_fold apply_usage apply_plan apply_response
    apply_requirement apply_summary fold_kind apply_accepted fold_result apply_record or_insert
    add_subjects insert_record insert_all index_of view_prior find_record has_verdict_for
    only_target check_author_role signature_required check_refs ref_evidences check_id check_schema
    verified_key check_signed check_signature check_replacement_compatibility check_replacement
    expected_evidence check_evidence decodes_canonically payload_type check_payload_decode
    verdict_of check_kind_specific check_verdict_record check_subject check_record verify_record
    active_request check_parents has_require_ref check_request exact_approval class_approval
    check_approval_for_action approval_for_mode check_capability check_action at times_fit conclude
    id_fits seed replay_verdict replay_pair replay replay_from verify_log verify_and_build_state
log-replayed = refl

replay_from-IsAudited_example : IsAudited world log rules final
replay_from-IsAudited_example = replay_from-IsAudited world log rules final log-replayed

verify_log-HasExactTaint_example : HasExactTaint world log rules none
verify_log-HasExactTaint_example = verify_log-HasExactTaint world log rules none log-accepted

check_record-IsAuthorized_example : IsAuthorized world action prior held
check_record-IsAuthorized_example =
    check_record-IsAuthorized world action prior rules held refl action-accepted

check_record-IsAdmitted_example : IsAdmitted world action prior rules held
unfolding kind_ordinal
check_record-IsAdmitted_example =
    check_record-IsAdmitted world action prior rules held refl action-accepted

apply_record-IsTaintExact_example :
    IsTaintExact (apply_record world default_state action accepted).0
apply_record-IsTaintExact_example =
    apply_record-IsTaintExact world default_state action accepted default_state-IsTaintExact

log-built : build_state_unchecked world log ≡ some built
unfolding build_state_unchecked collect_verdicts apply_all check_retraction remove delete contains
    insert get put schema_id schema_name_for_id kind_ordinal ref_ordinal author_ordinal
    allowed_author_types requires_registered_author result_ordinal strictly_sorted targets_of
    has_ref find_ref evidence_ordinal base_evidence weaker weakest derive_evidence canonical_id_form
    signing_form try_from decode sha256_canonical compute_id selection_approval_subject_hash
    ref_evidence dependents push_all walk edge_count walk_from mark_tainted add_dependent index_refs
    inherits_taint depend enter consume_approval note_replaced close_action_for_request close_action
    apply_action apply_refusal apply_capability apply_approval mark_all drop_capability
    drop_exact_approval drop_class_approval release_requirement retract apply_retraction and_fold
    apply_usage apply_plan apply_response apply_requirement apply_summary fold_kind apply_accepted
    fold_result apply_record or_insert add_subjects insert_record insert_all index_of view_prior
    find_record has_verdict_for only_target check_author_role signature_required check_refs
    ref_evidences check_id check_schema verified_key check_signed check_signature
    check_replacement_compatibility check_replacement expected_evidence check_evidence
    decodes_canonically payload_type check_payload_decode verdict_of check_kind_specific
    check_verdict_record check_subject check_record verify_record active_request check_parents
    has_require_ref check_request exact_approval class_approval check_approval_for_action
    approval_for_mode check_capability check_action at times_fit conclude id_fits seed
    replay_verdict replay_pair replay replay_from verify_log verify_and_build_state
log-built = refl

build_state_unchecked-IsTaintExact_example : IsTaintExact built
build_state_unchecked-IsTaintExact_example =
    build_state_unchecked-IsTaintExact world log built log-built

find_record-index_of_example : find_record (view_prior log (index_of log)) 3 ≡ scan 3 log
find_record-index_of_example = find_record-index_of log 3

has_verdict_for-index_of_example :
    has_verdict_for (view_prior log (index_of log)) 3 ≡ is_judged 3 log
has_verdict_for-index_of_example = has_verdict_for-index_of log 3

sort_and_dedup_refs-strictly_sorted_example :
    (strictly_sorted (sort_and_dedup_refs shuffled) ≡ true)
    × ((t : RefType) (id : RecordId)
        → has_ref t id (sort_and_dedup_refs shuffled) ≡ has_ref t id shuffled)
sort_and_dedup_refs-strictly_sorted_example = sort_and_dedup_refs-strictly_sorted shuffled

derive_evidence-IsOneOf_example :
    IsOneOf
      (derive_evidence toy_hash 5 (Evidence.verified ∷ []))
      (base_evidence toy_hash 5 ∷ Evidence.verified ∷ [])
    × ((x : Evidence)
        → IsOneOf x (base_evidence toy_hash 5 ∷ Evidence.verified ∷ [])
        → evidence_ordinal x
          ≤ evidence_ordinal (derive_evidence toy_hash 5 (Evidence.verified ∷ [])))
derive_evidence-IsOneOf_example = derive_evidence-IsOneOf toy_hash 5 (Evidence.verified ∷ [])

walk_from_ends_example : (walk_from ((3, 5 ∷ []) ∷ []) [] 3).stack ≡ []
walk_from_ends_example = walk_from_ends ((3, 5 ∷ []) ∷ []) [] 3

response-accepted : check_response world response prior held ≡ ok tt
unfolding check_response check_closing check_retraction remove delete contains insert get put
    schema_id schema_name_for_id kind_ordinal ref_ordinal author_ordinal allowed_author_types
    requires_registered_author result_ordinal strictly_sorted targets_of has_ref find_ref
    evidence_ordinal base_evidence weaker weakest derive_evidence canonical_id_form signing_form
    try_from decode sha256_canonical compute_id selection_approval_subject_hash ref_evidence
    dependents push_all walk edge_count walk_from mark_tainted add_dependent index_refs
    inherits_taint depend enter consume_approval note_replaced close_action_for_request close_action
    apply_action apply_refusal apply_capability apply_approval mark_all drop_capability
    drop_exact_approval drop_class_approval release_requirement retract apply_retraction and_fold
    apply_usage apply_plan apply_response apply_requirement apply_summary fold_kind apply_accepted
    fold_result apply_record or_insert add_subjects insert_record insert_all index_of view_prior
    find_record has_verdict_for only_target check_author_role signature_required check_refs
    ref_evidences check_id check_schema verified_key check_signed check_signature
    check_replacement_compatibility check_replacement expected_evidence check_evidence
    decodes_canonically payload_type check_payload_decode verdict_of check_kind_specific
    check_verdict_record check_subject check_record verify_record active_request check_parents
    has_require_ref check_request exact_approval class_approval check_approval_for_action
    approval_for_mode check_capability check_action at times_fit conclude id_fits seed
    replay_verdict replay_pair replay replay_from verify_log verify_and_build_state
response-accepted = refl

response-decoded : decode world PayloadType.response response.payload ≡ some response_data
unfolding decode try_from
response-decoded = refl

action-decoded : decode world PayloadType.action action.payload ≡ some action_data
unfolding decode try_from
action-decoded = refl

check_response-IsNextTurn_example : IsNextTurn response_data held
unfolding get
check_response-IsNextTurn_example =
    check_response-IsNextTurn world response prior held response_data response-decoded (omega arith)
      response-accepted

action-still_accepted : check_action world action prior (apply_retraction 9 held) ≡ ok tt
unfolding check_retraction remove delete contains insert get put schema_id schema_name_for_id
    kind_ordinal ref_ordinal author_ordinal allowed_author_types requires_registered_author
    result_ordinal strictly_sorted targets_of has_ref find_ref evidence_ordinal base_evidence weaker
    weakest derive_evidence canonical_id_form signing_form try_from decode sha256_canonical
    compute_id selection_approval_subject_hash ref_evidence dependents push_all walk edge_count
    walk_from mark_tainted add_dependent index_refs inherits_taint depend enter consume_approval
    note_replaced close_action_for_request close_action apply_action apply_refusal apply_capability
    apply_approval mark_all drop_capability drop_exact_approval drop_class_approval
    release_requirement retract apply_retraction and_fold apply_usage apply_plan apply_response
    apply_requirement apply_summary fold_kind apply_accepted fold_result apply_record or_insert
    add_subjects insert_record insert_all index_of view_prior find_record has_verdict_for
    only_target check_author_role signature_required check_refs ref_evidences check_id check_schema
    verified_key check_signed check_signature check_replacement_compatibility check_replacement
    expected_evidence check_evidence decodes_canonically payload_type check_payload_decode
    verdict_of check_kind_specific check_verdict_record check_subject check_record verify_record
    active_request check_parents has_require_ref check_request exact_approval class_approval
    check_approval_for_action approval_for_mode check_capability check_action at times_fit conclude
    id_fits seed replay_verdict replay_pair replay replay_from verify_log verify_and_build_state
action-still_accepted = refl

check_action-revoked_example :
    get (apply_retraction 9 held).active_capabilities (capability_key world action action_data)
    ≢ some 9
check_action-revoked_example =
    check_action-revoked world action prior held 9 action_data action-decoded action-still_accepted

apply_record-depends_on_example :
    contains (dependents (apply_record world held action accepted).0.epistemic_dependents 3) 5 ≡ (
      depends_on action.refs 3 && action.id == 5
      || contains (dependents held.epistemic_dependents 3) 5)
apply_record-depends_on_example = apply_record-depends_on world held action accepted 3 5 refl

retracted-apply_record_example :
    contains (apply_record world (apply_retraction 9 held) action accepted).0.retracted_records 9
    ≡ true
unfolding apply_retraction retract mark_all drop_capability drop_exact_approval drop_class_approval
    release_requirement insert get contains dependents
retracted-apply_record_example =
    retracted-apply_record world (apply_retraction 9 held) action accepted 9 refl

verify_log-checked_records_example :
    ((verify_log world log rules none).checked_records ≡ length log)
    × ((k : ℕ) → 2 * k < length log → IsChecked world log rules (2 * k))
verify_log-checked_records_example = verify_log-checked_records world log rules log-accepted

replay_from-cites_example :
    contains (dependents final.state.epistemic_dependents 3) 5 ≡ cites world 3 5 log
replay_from-cites_example = replay_from-cites world log rules final 3 5 log-replayed

hex_decode_bytes-hex_encode_example : hex_decode_bytes (hex_encode 3735928559) ≡ some 3735928559
hex_decode_bytes-hex_encode_example = hex_decode_bytes-hex_encode 3735928559 (omega arith)
