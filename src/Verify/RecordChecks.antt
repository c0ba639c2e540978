-- ===== src/Verify/RecordChecks.antt =====
-- src/verify/verifier/record_checks.rs and verdict.rs: the whole check of one record, and its verdict.
pub mod Accepted
use bellbook.Prelude.{
  Bool, true, false, not, ◌&&◌, Option, none, some, List, [], ◌∷◌, ◌==◌, nat_ord, if◌then◌else◌,
  Result, ok, err, or_err, guard, ◌>>=◌, ◌>>◌, is_some,
}
use bellbook.Base.Schema.{schema_id, schema_verdict}
use bellbook.Record.Kind.{
  Kind, RefType, ReasonCode, AuthorType, VerdictResult, kind_ord, ref_type_ord, author_type_ord,
}
use bellbook.Record.Refs.{RecordId, Ref, targets_of}
use bellbook.Record.Evidence.{Evidence, evidence_ord}
use bellbook.Record.Payloads.{VerdictData}
use bellbook.Record.Envelope.{Record}
use bellbook.State.Defs.{State}
use bellbook.Platform.{Platform, PayloadType}
use bellbook.Verify.Rules.{VerifierRules}
use bellbook.Verify.Prior.{Prior, find_record, has_verdict_for, index_of, view_prior}
use bellbook.Verify.Check.{Checked, Check, reject_if}
use bellbook.Verify.Envelope.{
  check_id, check_schema, check_author_role, check_signature, check_refs, check_replacement,
  check_evidence, decodes_canonically, check_payload_decode,
}
use bellbook.Verify.Work.{check_request, check_action}
use bellbook.Verify.Lifecycle.{
  check_result, check_refusal, check_usage, check_summary, check_response, check_retraction,
  check_approval,
}
use bellbook.Verify.Plans.{check_plan}
use bellbook.Verify.Evolution.{check_candidate, check_evaluation, check_requirement}
use bellbook.Verify.Selection.{check_selection}

-- A verdict's only ref is the `Cause` edge to its subject.
abbrev pub subject_of : List Ref → Checked RecordId
subject_of (x ∷ []) =
    if x.type_ == RefType.cause then ok x.target else err ReasonCode.invalid_payload
subject_of _ = err ReasonCode.invalid_payload

-- The verdict that an outcome of the checks is written as.
unfoldable pub verdict_of : Check → VerdictData
verdict_of (ok _) = record { result = VerdictResult.accept; reason = none }
verdict_of (err reason) = record { result = VerdictResult.reject; reason = some reason }

module _ (p : Platform) where
  unfoldable pub check_kind_specific : Kind → Record → Prior → VerifierRules → State → Check
  unfolding check_approval
  check_kind_specific Kind.request r prior rules s = check_request p r prior s
  check_kind_specific Kind.action r prior rules s = check_action p r prior s
  check_kind_specific Kind.result r prior rules s = check_result p r prior rules s
  check_kind_specific Kind.refusal r prior rules s = check_refusal p r prior s
  check_kind_specific Kind.usage r prior rules s = check_usage p r prior s
  check_kind_specific Kind.summary r prior rules s = check_summary p r rules
  check_kind_specific Kind.response r prior rules s = check_response p r prior s
  check_kind_specific Kind.approval r prior rules s = check_approval p r
  check_kind_specific Kind.plan r prior rules s = check_plan p r prior s
  check_kind_specific Kind.retraction r prior rules s = check_retraction p r prior rules s
  check_kind_specific Kind.capability r prior rules s = ok tt
  check_kind_specific Kind.verdict r prior rules s = ok tt
  check_kind_specific Kind.candidate r prior rules s = check_candidate p r prior rules s
  check_kind_specific Kind.evaluation r prior rules s = check_evaluation p r prior rules s
  check_kind_specific Kind.selection r prior rules s = check_selection p r prior rules s
  check_kind_specific Kind.requirement r prior rules s = check_requirement p r prior s

  unfoldable pub check_verdict_record : Record → Prior → VerifierRules → Check
  unfolding check_id
  check_verdict_record r prior rules = do
    check_id p r
    guard (r.schema == schema_id p.sha256 schema_verdict) ReasonCode.kind_schema_mismatch
    guard (r.author.type_ == AuthorType.verifier) ReasonCode.invalid_payload
    reject_if (is_some r.author.signature) ReasonCode.invalid_payload
    guard (r.space == rules.space) ReasonCode.invalid_payload
    guard (r.evidence == Evidence.deterministic) ReasonCode.invalid_payload
    guard (decodes_canonically p PayloadType.verdict r.payload) ReasonCode.invalid_payload
    subject_id ← subject_of r.refs
    subject ← or_err (find_record prior subject_id) ReasonCode.ref_unresolved
    reject_if (subject.kind == Kind.verdict) ReasonCode.invalid_payload
    guard (subject.space == r.space && subject.thread == r.thread) ReasonCode.invalid_payload
    reject_if (has_verdict_for prior subject_id) ReasonCode.invalid_payload

  -- The rules of a record that is no verdict, in their order.
  unfoldable pub check_subject : Record → Prior → VerifierRules → State → Check
  unfolding check_id check_schema check_refs check_replacement check_kind_specific
  check_subject r prior rules s = do
    check_id p r
    check_schema p r rules
    check_author_role r rules
    check_signature p r rules
    check_refs r.refs r prior s
    check_replacement p (targets_of RefType.replace r.refs) r prior s
    check_evidence p r prior rules s
    check_payload_decode p r
    check_kind_specific r.kind r prior rules s

  unfoldable pub check_record : Record → Prior → VerifierRules → State → Check
  unfolding check_verdict_record check_subject
  check_record r prior rules s =
      if r.kind == Kind.verdict
      then check_verdict_record r prior rules
      else check_subject r prior rules s

  unfoldable pub verify_record : Record → List Record → VerifierRules → State → VerdictData
  unfolding check_record verdict_of
  verify_record r prior rules s =
      verdict_of (check_record r (view_prior prior (index_of prior)) rules s)
