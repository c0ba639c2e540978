-- ===== src/Tests/Batches.antt =====
-- A batch of one proposal that is sent twice, on the ledger of Tests/Ledger.antt.
use bellbook.Prelude.{◌≡◌, refl, ok, [], ◌∷◌, nat_ord}
use bellbook.State.Defs.{default_state}
use bellbook.Log.Storage.{no_fault}
use bellbook.Tests.World.{rules, accepted}
use bellbook.Tests.Ledger.{ledger, ledger-ReadsVerdicts, writer, proposal}
use bellbook.State.Build.{build_state_unchecked, collect_verdicts, apply_all}
use bellbook.Base.Time.{from_last_time, next_time, exhausted, peek}
use bellbook.Prelude.Map.{remove, delete, contains, insert, get, put}
use bellbook.Base.Schema.{schema_id, schema_name_for_id}
use bellbook.Record.Kind.{
  kind_ordinal, ref_ordinal, author_ordinal, allowed_author_types, requires_registered_author,
  result_ordinal, reason_ordinal,
}
use bellbook.Record.Refs.{
  sort_and_dedup_refs, strictly_sorted, targets_of, has_ref, find_ref, place, sort_refs, dedup,
}
use bellbook.Record.Evidence.{evidence_ordinal, base_evidence, weaker, weakest, derive_evidence}
use bellbook.Record.Envelope.{canonical_id_form, signing_form}
use bellbook.Platform.{
  try_from, decode, sha256_canonical, compute_id, selection_approval_subject_hash,
}
use bellbook.State.Defs.{ref_evidence}
use bellbook.State.Taint.{dependents, push_all, walk, edge_count, walk_from, mark_tainted}
use bellbook.State.Operations.{
  add_dependent, index_refs, inherits_taint, depend, enter, consume_approval, note_replaced,
  close_action_for_request, close_action, apply_action, apply_refusal, apply_capability,
  apply_approval,
}
use bellbook.State.Retract.{
  mark_all, drop_capability, drop_exact_approval, drop_class_approval, release_requirement, retract,
  apply_retraction,
}
use bellbook.State.Apply.{
  and_fold, apply_usage, apply_plan, apply_response, apply_requirement, apply_summary, fold_kind,
  apply_accepted, fold_result, apply_record,
}
use bellbook.Verify.Lifecycle.{check_retraction}
use bellbook.Verify.Prior.{
  or_insert, add_subjects, insert_record, insert_all, index_of, view_prior, find_record,
  has_verdict_for,
}
use bellbook.Verify.Check.{only_target}
use bellbook.Verify.Envelope.{
  check_author_role, signature_required, check_refs, ref_evidences, check_id, check_schema,
  verified_key, check_signed, check_signature, check_replacement_compatibility, check_replacement,
  expected_evidence, check_evidence, decodes_canonically, payload_type, check_payload_decode,
}
use bellbook.Verify.RecordChecks.{
  verdict_of, check_kind_specific, check_verdict_record, check_subject, check_record, verify_record,
}
use bellbook.Verify.Work.{
  active_request, check_parents, has_require_ref, check_request, exact_approval, class_approval,
  check_approval_for_action, approval_for_mode, check_capability, check_action,
}
use bellbook.Verify.Replay.{
  at, times_fit, conclude, id_fits, seed, replay_verdict, replay_pair, replay, replay_from,
  verify_log,
}
use bellbook.Log.Storage.{
  to_be_bytes, from_be_bytes, complete_frame_end, next_frame, index_from, get_record, encode_record,
  projected_bytes, ensure_capacity_for, append, read_frames, read_all_records, open_file,
}
use bellbook.Log.Writer.{
  write_to_file, clear_file, proposal_matches_record, proposal_evidences, with_computed_id, sign,
  materialize_verdict, ensure_writable, ensure_rules_match, ensure_state_matches, prepare,
  write_pair, commit_inner, commit,
}
use bellbook.State.Equality.{same_state}
use bellbook.Log.Storage.Frames.{file_of}
use bellbook.Log.Writer.Open.{require_valid_log}
use bellbook.Prelude.Sorting.{sort_by}
use bellbook.Log.Writer.{Outcome}
use bellbook.Log.Writer.Batch.{
  BatchAppend, sort_batch, commit_all, match_landed, position, head, start_after, find_landed,
  checked_batch_commit,
}
use bellbook.Log.Writer.Batch.Retry.{checked_batch_commit-resent}

abbrev first : Outcome BatchAppend
first = checked_batch_commit ledger (λ n. no_fault) writer 0 (proposal ∷ []) rules default_state

abbrev batch : BatchAppend
batch = record { head = 2; results = (1, accepted) ∷ []; replayed = 0 }

first_run : first.result ≡ ok batch
unfolding active_request add_dependent add_subjects allowed_author_types and_fold apply_accepted
    apply_action apply_approval apply_capability apply_plan apply_record apply_refusal
    apply_requirement apply_response apply_retraction apply_summary apply_usage approval_for_mode at
    author_ordinal base_evidence canonical_id_form check_action check_approval_for_action
    check_author_role check_capability check_evidence check_id check_kind_specific check_parents
    check_payload_decode check_record check_refs check_replacement check_replacement_compatibility
    check_request check_retraction check_schema check_signature check_signed check_subject
    check_verdict_record class_approval close_action close_action_for_request compute_id conclude
    consume_approval contains decode decodes_canonically delete depend dependents derive_evidence
    drop_capability drop_class_approval drop_exact_approval edge_count enter evidence_ordinal
    exact_approval expected_evidence find_record find_ref fold_kind fold_result get has_ref
    has_require_ref has_verdict_for id_fits index_of index_refs inherits_taint insert insert_all
    insert_record kind_ordinal mark_all mark_tainted note_replaced only_target or_insert
    payload_type push_all put ref_evidence ref_evidences ref_ordinal release_requirement remove
    replay replay_from replay_pair replay_verdict requires_registered_author result_ordinal
    reason_ordinal retract schema_id schema_name_for_id seed selection_approval_subject_hash
    sha256_canonical signature_required signing_form strictly_sorted targets_of times_fit try_from
    verdict_of verified_key verify_log verify_record view_prior walk walk_from weaker weakest
    to_be_bytes from_be_bytes complete_frame_end next_frame index_from get_record encode_record
    projected_bytes ensure_capacity_for append read_frames read_all_records open_file write_to_file
    clear_file proposal_matches_record proposal_evidences with_computed_id sign materialize_verdict
    ensure_writable ensure_rules_match ensure_state_matches prepare write_pair commit_inner commit
    same_state file_of require_valid_log collect_verdicts apply_all build_state_unchecked
    from_last_time next_time exhausted peek sort_and_dedup_refs place sort_refs dedup sort_by
    sort_batch commit_all match_landed position head start_after find_landed checked_batch_commit
first_run = refl

state_current : ensure_state_matches ledger first.writer first.state ≡ ok tt
unfolding active_request add_dependent add_subjects allowed_author_types and_fold apply_accepted
    apply_action apply_approval apply_capability apply_plan apply_record apply_refusal
    apply_requirement apply_response apply_retraction apply_summary apply_usage approval_for_mode at
    author_ordinal base_evidence canonical_id_form check_action check_approval_for_action
    check_author_role check_capability check_evidence check_id check_kind_specific check_parents
    check_payload_decode check_record check_refs check_replacement check_replacement_compatibility
    check_request check_retraction check_schema check_signature check_signed check_subject
    check_verdict_record class_approval close_action close_action_for_request compute_id conclude
    consume_approval contains decode decodes_canonically delete depend dependents derive_evidence
    drop_capability drop_class_approval drop_exact_approval edge_count enter evidence_ordinal
    exact_approval expected_evidence find_record find_ref fold_kind fold_result get has_ref
    has_require_ref has_verdict_for id_fits index_of index_refs inherits_taint insert insert_all
    insert_record kind_ordinal mark_all mark_tainted note_replaced only_target or_insert
    payload_type push_all put ref_evidence ref_evidences ref_ordinal release_requirement remove
    replay replay_from replay_pair replay_verdict requires_registered_author result_ordinal
    reason_ordinal retract schema_id schema_name_for_id seed selection_approval_subject_hash
    sha256_canonical signature_required signing_form strictly_sorted targets_of times_fit try_from
    verdict_of verified_key verify_log verify_record view_prior walk walk_from weaker weakest
    to_be_bytes from_be_bytes complete_frame_end next_frame index_from get_record encode_record
    projected_bytes ensure_capacity_for append read_frames read_all_records open_file write_to_file
    clear_file proposal_matches_record proposal_evidences with_computed_id sign materialize_verdict
    ensure_writable ensure_rules_match ensure_state_matches prepare write_pair commit_inner commit
    same_state file_of require_valid_log collect_verdicts apply_all build_state_unchecked
    from_last_time next_time exhausted peek sort_and_dedup_refs place sort_refs dedup sort_by
    sort_batch commit_all match_landed position head start_after find_landed checked_batch_commit
state_current = refl

checked_batch_commit-resent_example :
    checked_batch_commit ledger (λ n. no_fault) first.writer 0 (proposal ∷ []) rules first.state
    ≡ record {
      result = ok record { head = 2; results = (1, accepted) ∷ []; replayed = 1 };
      writer = first.writer;
      state = first.state;
    }
unfolding sort_batch sort_by sha256_canonical
checked_batch_commit-resent_example =
    checked_batch_commit-resent ledger ledger-ReadsVerdicts (λ n. no_fault) (λ n. no_fault) writer 0
      (proposal ∷ []) rules default_state first.state batch first_run state_current
