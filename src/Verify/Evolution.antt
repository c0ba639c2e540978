-- ===== src/Verify/Evolution.antt =====
-- src/verify/verifier/evolution.rs: the rules of candidates, evaluations and requirements.
use bellbook.Prelude.{
  ℕ, String, Bool, true, false, not, ◌&&◌, ◌||◌, Option, none, some, List, [], ◌∷◌, ◌==◌, ltb,
  nat_ord, string_ord, if◌then◌else◌, ok, err, or_err, guard, ◌>>=◌, ◌>>◌, is_some, unwrap_or,
  length, all,
}
use bellbook.Prelude.Map.{contains, get}
use bellbook.Base.Hash.{Hash256, as_bytes}
use bellbook.Base.Schema.{schema_id, schema_evaluation_v2, schema_evaluation_attested}
use bellbook.Record.Kind.{Kind, RefType, ReasonCode, AuthorType, kind_ord, author_type_ord}
use bellbook.Record.Refs.{RecordId, has_ref, targets_of}
use bellbook.Record.Payloads.{
  SourceAlgo, SourceBinding, BindingMode, CandidateBasis, SelectionOutcome, Provenance,
  is_lower_hex_digit, artifact_refs_well_formed,
}
use bellbook.Record.Envelope.{Record}
use bellbook.State.Defs.{State, is_discredited}
use bellbook.Platform.{Platform, PayloadType}
use bellbook.Verify.Rules.{VerifierRules}
use bellbook.Verify.Prior.{Prior, find_record}
use bellbook.Verify.Check.{Checked, Check, reject_if, dec, same_place}
use bellbook.Verify.Lifecycle.{artifacts_fit}

abbrev pub oid_hex_len : SourceAlgo → ℕ
oid_hex_len SourceAlgo.sha1 = 40
oid_hex_len SourceAlgo.sha256 = 64

unfoldable pub is_lower_hex : String → ℕ → Bool
is_lower_hex s len = length (as_bytes s) == len && all is_lower_hex_digit (as_bytes s)

abbrev pub is_manifest : BindingMode → Bool
is_manifest BindingMode.manifest = true
is_manifest BindingMode.reported = false

abbrev commit_fits : Option String → ℕ → Bool
commit_fits none len = true
commit_fits (some commit) len = is_lower_hex commit len

abbrev same_bool : Bool → Bool → Bool
same_bool true b = b
same_bool false b = not b

unfoldable pub source_binding_well_formed : SourceBinding → Bool
unfolding is_lower_hex
source_binding_well_formed sb =
    let len = oid_hex_len sb.git.algo in
    is_lower_hex sb.git.tree len
    && commit_fits sb.git.commit len
    && same_bool (is_some sb.manifest_hash) (is_manifest sb.binding)

unfoldable pub resolve_candidate : RecordId → Record → Prior → State → Checked Record
resolve_candidate id r prior s = elim (find_record prior id) [
  | none ↦ err ReasonCode.payload_ref_unresolved
  | some t ↦
      if t.space == r.space && t.kind == Kind.candidate && contains s.accepted_records t.id
      then ok t
      else err ReasonCode.payload_ref_unresolved
]

-- A present parent must resolve.
abbrev resolve_parent : Option RecordId → Record → Prior → State → Check
resolve_parent none r prior s = ok tt
resolve_parent (some parent) r prior s = do t ← resolve_candidate parent r prior s; ok tt

-- The loop that collects the `Cause` targets.
unfoldable pub find_all : List RecordId → Prior → Checked (List Record)
find_all [] prior = ok []
find_all (id ∷ ids) prior =
    let rest = find_all ids prior in
    do t ← or_err (find_record prior id) ReasonCode.ref_unresolved; ts ← rest; ok (t ∷ ts)

abbrev pub is_in_outcome : SelectionOutcome → RecordId → Bool
is_in_outcome (SelectionOutcome.selected candidates) id = contains candidates id
is_in_outcome SelectionOutcome.none id = false

unfoldable pub check_root : Option RecordId → List Record → State → Check
check_root parent causes s = do
  reject_if (is_some parent || ltb 1 (length causes)) ReasonCode.lineage_invalid
  guard (all (λ c. c.kind == Kind.request && contains s.accepted_records c.id) causes)
      ReasonCode.lineage_invalid

abbrev single {ℓ} : {A : Type ℓ} → List A → Option A
single (a ∷ []) = some a
single _ = none

module _ (p : Platform) where
  unfoldable pub check_continuation : Option RecordId → List Record → VerifierRules → State → Check
  check_continuation parent causes rules s = do
    anchor ← or_err (single causes) ReasonCode.lineage_invalid
    guard (anchor.kind == Kind.selection && contains s.accepted_records anchor.id)
        ReasonCode.lineage_invalid
    reject_if (rules.reject_compromised_continuation && is_discredited s anchor.id)
        ReasonCode.lineage_invalid
    id ← or_err parent ReasonCode.lineage_invalid
    d ← dec p PayloadType.selection anchor.payload
    guard (is_in_outcome d.outcome id) ReasonCode.lineage_invalid

  abbrev is_empty {ℓ} : {A : Type ℓ} → List A → Bool
  is_empty [] = true
  is_empty (a ∷ l) = false

  unfoldable pub check_derivation : Option RecordId → List Record → State → Check
  check_derivation parent causes s = do
    reject_if (is_some parent || is_empty causes) ReasonCode.lineage_invalid
    guard
        (all
          (λ c.
            contains s.accepted_records c.id
            && (c.kind == Kind.candidate || c.kind == Kind.evaluation))
          causes)
        ReasonCode.lineage_invalid

  unfoldable pub check_basis :
      CandidateBasis → Option RecordId → List Record → VerifierRules → State → Check
  unfolding check_root check_continuation check_derivation
  check_basis CandidateBasis.root parent causes rules s = check_root parent causes s
  check_basis CandidateBasis.continuation parent causes rules s =
      check_continuation parent causes rules s
  check_basis CandidateBasis.derivation parent causes rules s = check_derivation parent causes s

  unfoldable pub check_candidate : Record → Prior → VerifierRules → State → Check
  unfolding check_basis
  check_candidate r prior rules s = do
    d ← dec p PayloadType.candidate r.payload
    guard (source_binding_well_formed d.source) ReasonCode.source_binding_invalid
    guard (artifacts_fit d.artifacts) ReasonCode.artifact_ref_invalid
    resolve_parent d.parent r prior s
    causes ← find_all (targets_of RefType.cause r.refs) prior
    check_basis d.basis d.parent causes rules s

  abbrev pub uses : Record → RecordId → Bool
  uses r target = has_ref RefType.use_ target r.refs

  -- `windows(2).all(w[0] < w[1])`.
  unfoldable pub ids_increase : List RecordId → Bool
  ids_increase [] = true
  ids_increase (x ∷ []) = true
  ids_increase (x ∷ y ∷ l) = ltb x y && ids_increase (y ∷ l)

  abbrev is_requirement : Option Record → Record → State → Bool
  is_requirement none r s = false
  is_requirement (some t) r s =
      t.kind == Kind.requirement && t.space == r.space && contains s.accepted_records t.id

  unfoldable pub check_requirements : List RecordId → Record → Prior → State → Check
  check_requirements [] r prior s = ok tt
  check_requirements (id ∷ ids) r prior s =
      let rest = check_requirements ids r prior s in
      do
        guard (is_requirement (find_record prior id) r s) ReasonCode.evaluation_invalid
        guard (uses r id) ReasonCode.evaluation_invalid
        rest

  -- The attested schema must be signed by an author with pinned keys.
  unfoldable pub check_attestation : Record → VerifierRules → Check
  check_attestation r rules =
      if r.schema == schema_id p.sha256 schema_evaluation_attested
      then (do
        guard (is_some r.author.signature) ReasonCode.signature_missing
        guard (is_some (get rules.author_keys r.author.id)) ReasonCode.signature_invalid)
      else ok tt

  unfoldable pub check_evaluation_v2 : Record → Prior → VerifierRules → State → Check
  unfolding check_attestation ids_increase check_requirements
  check_evaluation_v2 r prior rules s = do
    d ← dec p PayloadType.evaluation_v2 r.payload
    check_attestation r rules
    t ← resolve_candidate d.candidate r prior s
    guard (uses r d.candidate) ReasonCode.evaluation_invalid
    reject_if (d.evaluator.id == "") ReasonCode.evaluation_invalid
    guard (artifact_refs_well_formed d.evidence) ReasonCode.artifact_ref_invalid
    guard (ids_increase d.requirements) ReasonCode.evaluation_invalid
    check_requirements d.requirements r prior s

  abbrev pub is_v2_schema : Hash256 → Bool
  is_v2_schema schema =
      schema == schema_id p.sha256 schema_evaluation_v2
      || schema == schema_id p.sha256 schema_evaluation_attested

  unfoldable pub check_evaluation_v1 : Record → Prior → State → Check
  check_evaluation_v1 r prior s = do
    d ← dec p PayloadType.evaluation r.payload
    t ← resolve_candidate d.candidate r prior s
    guard (uses r d.candidate) ReasonCode.evaluation_invalid

  unfoldable pub check_evaluation : Record → Prior → VerifierRules → State → Check
  unfolding check_evaluation_v1 check_evaluation_v2
  check_evaluation r prior rules s =
      if is_v2_schema r.schema
      then check_evaluation_v2 r prior rules s
      else check_evaluation_v1 r prior s

  abbrev provenance_ok : Provenance → AuthorType → Bool
  provenance_ok Provenance.user_authored t = t == AuthorType.user
  provenance_ok Provenance.derived t = t == AuthorType.provider || t == AuthorType.system

  unfoldable pub check_requirement : Record → Prior → State → Check
  check_requirement r prior s = do
    d ← dec p PayloadType.requirement r.payload
    reject_if (d.key == "" || d.description == "") ReasonCode.requirement_invalid
    guard (provenance_ok d.provenance r.author.type_) ReasonCode.author_role_invalid
    request_id ← or_err (single (targets_of RefType.cause r.refs)) ReasonCode.requirement_invalid
    request ← or_err (find_record prior request_id) ReasonCode.requirement_invalid
    guard
        (request.kind == Kind.request
          && contains s.accepted_records request_id
          && same_place request r)
        ReasonCode.requirement_invalid
    reject_if (contains (unwrap_or (get s.requirement_keys request_id) []) d.key)
        ReasonCode.requirement_invalid
