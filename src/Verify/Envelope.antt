-- ===== src/Verify/Envelope.antt =====
-- src/verify/verifier/record_checks.rs: the rules that hold for every kind of record.
use bellbook.Prelude.{
  String, Bool, true, false, not, ◌&&◌, ◌||◌, Option, none, some, List, [], ◌∷◌, ◌==◌, ltb, any,
  length, nat_ord, string_ord, option_ord, if◌then◌else◌, ok, err, or_err, guard, ◌>>=◌, ◌>>◌,
  is_some,
}
use bellbook.Prelude.Map.{BTreeSet, contains, get}
use bellbook.Base.Hash.{Bytes, Hash256, hex_decode}
use bellbook.Base.Schema.{
  schema_id, schema_request, schema_action, schema_response, schema_result, schema_result_external,
  schema_result_effect_confirmation, schema_capability, schema_approval, schema_summary,
  schema_refusal, schema_usage, schema_verdict, schema_plan, schema_retraction, schema_candidate,
  schema_evaluation, schema_selection, schema_requirement, schema_evaluation_v2,
  schema_evaluation_attested,
}
use bellbook.Record.Kind.{
  Kind, RefType, ReasonCode, AuthorType, kind_ord, ref_type_ord, author_type_ord, summary_type_ord,
  allowed_author_types, requires_registered_author,
}
use bellbook.Record.Refs.{RecordId, Ref, strictly_sorted}
use bellbook.Record.Evidence.{Evidence, evidence_ord, evidence_ordinal, derive_evidence}
use bellbook.Record.Payloads.{ApprovalData}
use bellbook.Record.Envelope.{Record, Signature, signing_form}
use bellbook.State.Defs.{State, stands, ref_evidence}
use bellbook.Platform.{Platform, PayloadType, Form, decode, compute_id}
use bellbook.Verify.Rules.{VerifierRules, PublicKeyBytes}
use bellbook.Verify.Prior.{Prior, find_record}
use bellbook.Verify.Check.{Check, reject_if, dec}

abbrev same_bytes : Bytes → Bytes → Bool
same_bytes [] [] = true
same_bytes (x ∷ xs) (y ∷ ys) = x == y && same_bytes xs ys
same_bytes _ _ = false

-- The registered role must be declared; without one the kind must not ask for it.
abbrev pub role_fits : Option AuthorType → Record → Bool
role_fits none r = not (requires_registered_author r.kind)
role_fits (some role) r = r.author.type_ == role

unfoldable pub check_author_role : Record → VerifierRules → Check
unfolding allowed_author_types requires_registered_author
check_author_role r rules = do
  guard (any (λ t. t == r.author.type_) (allowed_author_types r.kind))
      ReasonCode.author_role_invalid
  guard (role_fits (get rules.author_roles r.author.id) r) ReasonCode.author_role_invalid

unfoldable pub signature_required : Record → VerifierRules → Bool
signature_required r rules =
    contains rules.signature_required_kinds r.kind || is_some (get rules.author_keys r.author.id)

abbrev pub key_allowed : Option (BTreeSet PublicKeyBytes) → PublicKeyBytes → Bool
key_allowed none key = true
key_allowed (some keys) key = contains keys key

-- The loop over the refs: each target is committed in the record's space, and a required one stands.
unfoldable pub check_refs : List Ref → Record → Prior → State → Check
check_refs [] r prior s = ok tt
check_refs (x ∷ refs) r prior s =
    let rest = check_refs refs r prior s in
    do
      t ← or_err (find_record prior x.target) ReasonCode.ref_unresolved
      guard (t.space == r.space) ReasonCode.ref_cross_space
      guard (not (x.type_ == RefType.require) || stands s t.id) ReasonCode.ref_unresolved
      rest

abbrev allows_replacement : Kind → Bool
allows_replacement Kind.summary = true
allows_replacement Kind.capability = true
allows_replacement Kind.approval = true
allows_replacement Kind.plan = true
allows_replacement Kind.selection = true
allows_replacement _ = false

abbrev approvals_fit : ApprovalData → ApprovalData → Bool
approvals_fit new old =
    if is_some new.target_action && is_some old.target_action
    then new.scope == old.scope && new.target_action == old.target_action
    else if is_some new.action_class && is_some old.action_class
    then new.action_class == old.action_class
      && new.scope == old.scope
      && new.actor_id == old.actor_id
    else false

-- The `filter_map` over the refs.
unfoldable pub ref_evidences : List Ref → Prior → State → List Evidence
unfolding ref_evidence
ref_evidences [] prior s = []
ref_evidences (x ∷ refs) prior s =
    let rest = ref_evidences refs prior s in
    elim (find_record prior x.target) [
      | none ↦ rest
      | some t ↦ elim (ref_evidence s x t) [ none ↦ rest | some e ↦ e ∷ rest ]
    ]

abbrev pub is_below : Option Evidence → Evidence → Bool
is_below none e = false
is_below (some threshold) e = ltb (evidence_ordinal threshold) (evidence_ordinal e)

module _ (p : Platform) where
  unfoldable pub check_id : Record → Check
  check_id r = do
    id ← or_err (compute_id p r) ReasonCode.invalid_payload
    guard (r.id == id) ReasonCode.invalid_payload

  unfoldable pub check_schema : Record → VerifierRules → Check
  check_schema r rules = do
    guard (strictly_sorted r.refs) ReasonCode.invalid_payload
    guard (r.space == rules.space) ReasonCode.invalid_payload
    kind ← or_err (get rules.kind_schema_map r.schema) ReasonCode.unknown_schema
    guard (r.kind == kind) ReasonCode.kind_schema_mismatch

  -- `sign::verified_key`, for the signature that the record carries.
  unfoldable pub verified_key : Record → Signature → Option PublicKeyBytes
  unfolding hex_decode signing_form
  verified_key r signature = elim (hex_decode signature.key_id) [
    | none ↦ none
    | some key ↦
        if p.is_verifying_key key && length signature.sig == 64
        then elim (p.canonical_json (Form.signing (signing_form r))) [
          | none ↦ none
          | some bytes ↦ if p.verify_strict key bytes signature.sig then some key else none
        ]
        else none
  ]

  unfoldable pub check_signed : Option Signature → Record → VerifierRules → Check
  unfolding verified_key
  check_signed none r rules = ok tt
  check_signed (some signature) r rules = do
    key ← or_err (verified_key r signature) ReasonCode.signature_invalid
    guard (key_allowed (get rules.author_keys r.author.id) key) ReasonCode.signature_invalid

  unfoldable pub check_signature : Record → VerifierRules → Check
  unfolding signature_required check_signed
  check_signature r rules = do
    reject_if (signature_required r rules && not (is_some r.author.signature))
        ReasonCode.signature_missing
    check_signed r.author.signature r rules

  unfoldable pub check_replacement_compatibility : Kind → Record → Record → Check
  check_replacement_compatibility Kind.capability r target = do
    new ← dec p PayloadType.capability r.payload
    old ← dec p PayloadType.capability target.payload
    guard
        (new.actor_id == old.actor_id
          && new.action_class == old.action_class
          && new.scope == old.scope)
        ReasonCode.replacement_invalid
  check_replacement_compatibility Kind.approval r target = do
    new ← dec p PayloadType.approval r.payload
    old ← dec p PayloadType.approval target.payload
    guard (approvals_fit new old) ReasonCode.replacement_invalid
  check_replacement_compatibility Kind.summary r target = do
    new ← dec p PayloadType.summary r.payload
    old ← dec p PayloadType.summary target.payload
    guard
        (new.summary_type == old.summary_type
          && new.subject == old.subject
          && new.scope == old.scope)
        ReasonCode.replacement_invalid
  check_replacement_compatibility Kind.plan r target = do
    new ← dec p PayloadType.plan r.payload
    old ← dec p PayloadType.plan target.payload
    guard (new.request_id == old.request_id) ReasonCode.replacement_invalid
  check_replacement_compatibility _ r target = ok tt

  -- By the targets of the `Replace` refs, of which there may be one.
  unfoldable pub check_replacement : List RecordId → Record → Prior → State → Check
  unfolding check_replacement_compatibility
  check_replacement [] r prior s = ok tt
  check_replacement (target ∷ []) r prior s = do
    guard (allows_replacement r.kind) ReasonCode.replacement_invalid
    t ← or_err (find_record prior target) ReasonCode.replacement_invalid
    guard (contains s.accepted_records t.id) ReasonCode.replacement_invalid
    guard (t.kind == r.kind) ReasonCode.replacement_invalid
    check_replacement_compatibility r.kind r t
  check_replacement _ r prior s = err ReasonCode.invalid_payload

  unfoldable pub expected_evidence : Record → Prior → State → Evidence
  unfolding ref_evidences
  expected_evidence r prior s = derive_evidence p.sha256 r.schema (ref_evidences r.refs prior s)

  unfoldable pub check_evidence : Record → Prior → VerifierRules → State → Check
  unfolding expected_evidence
  check_evidence r prior rules s = do
    guard (r.evidence == expected_evidence r prior s) ReasonCode.invalid_payload
    reject_if (is_below (get rules.evidence_thresholds r.kind) (expected_evidence r prior s))
        ReasonCode.evidence_below_threshold

  -- The bytes are the canonical serialization of the value that they decode to.
  unfoldable pub decodes_canonically : PayloadType → Bytes → Bool
  decodes_canonically t bytes = elim (decode p t bytes) [
    | none ↦ false
    | some value ↦ elim (p.canonical_json (Form.payload t value)) [
      | none ↦ false
      | some reencoded ↦ same_bytes reencoded bytes
    ]
  ]

  abbrev named : List (String × PayloadType) → Hash256 → Option PayloadType
  named [] schema = none
  named ((name, t) ∷ rest) schema =
      if schema == schema_id p.sha256 name then some t else named rest schema

  -- The type of each schema, in the order of the match.
  unfoldable pub payload_type : Hash256 → Option PayloadType
  unfolding schema_id
  payload_type schema =
      named
        ((schema_request, PayloadType.request)
          ∷ (schema_action, PayloadType.action)
          ∷ (schema_response, PayloadType.response)
          ∷ (schema_result, PayloadType.result)
          ∷ (schema_result_external, PayloadType.result)
          ∷ (schema_result_effect_confirmation, PayloadType.result)
          ∷ (schema_capability, PayloadType.capability)
          ∷ (schema_approval, PayloadType.approval)
          ∷ (schema_summary, PayloadType.summary)
          ∷ (schema_refusal, PayloadType.refusal)
          ∷ (schema_usage, PayloadType.usage)
          ∷ (schema_verdict, PayloadType.verdict)
          ∷ (schema_plan, PayloadType.plan)
          ∷ (schema_retraction, PayloadType.retraction)
          ∷ (schema_candidate, PayloadType.candidate)
          ∷ (schema_evaluation, PayloadType.evaluation)
          ∷ (schema_selection, PayloadType.selection)
          ∷ (schema_requirement, PayloadType.requirement)
          ∷ (schema_evaluation_v2, PayloadType.evaluation_v2)
          ∷ (schema_evaluation_attested, PayloadType.evaluation_v2)
          ∷ [])
        schema

  unfoldable pub check_payload_decode : Record → Check
  unfolding payload_type decodes_canonically
  check_payload_decode r = do
    t ← or_err (payload_type r.schema) ReasonCode.unknown_schema
    guard (decodes_canonically t r.payload) ReasonCode.invalid_payload
