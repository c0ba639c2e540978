-- ===== src/Verify/RecordChecks/Accepted.antt =====
-- src/verify/verifier/record_checks.rs: what holds of a record that passes its checks.
use bellbook.Prelude.{
  ◌≡◌, true, false, not, ◌&&◌, ◌||◌, some, List, [], ◌∷◌, ◌==◌, nat_ord, string_ord, ==_iff, any,
  is_some, Bool-cases, inl, inr, ok, or_err, guard, >>=-eq-ok, >>-eq-ok, guard-eq-ok, or_err-eq-ok,
  arith,
}
use bellbook.Prelude.Map.{get}
use bellbook.Record.Kind.{
  Kind, kind_ordinal, RefType, ReasonCode, kind_ord, ref_type_ord, author_type_ord,
  allowed_author_types,
}
use bellbook.Record.Refs.{RecordId, Ref, strictly_sorted, targets_of, has_ref}
use bellbook.Record.Evidence.{evidence_ord}
use bellbook.Record.Envelope.{Record, Signature}
use bellbook.State.Defs.{State, stands}
use bellbook.Platform.{Platform, PayloadType, compute_id}
use bellbook.Verify.Rules.{VerifierRules, PublicKeyBytes}
use bellbook.Verify.Prior.{Prior, find_record}
use bellbook.Verify.Check.{reject_if, reject_if-eq-ok}
use bellbook.Verify.Envelope.{
  check_id, check_schema, role_fits, check_author_role, signature_required, key_allowed,
  verified_key, check_signed, check_signature, check_refs, check_replacement, expected_evidence,
  is_below, check_evidence, decodes_canonically, payload_type, check_payload_decode,
}
use bellbook.Verify.Work.Authority.{IsAuthorized, check_action-IsAuthorized}
use bellbook.Verify.RecordChecks.{check_kind_specific, check_subject, check_record}

-- A ref's target is committed in the record's space, and stands if the ref requires it.
pub record IsResolved (r : Record) (prior : Prior) (s : State) (t : RefType) (target : RecordId)
    : Type 0 where
  pub found : Record
  pub resolves : find_record prior target ≡ some found
  pub placed : found.space ≡ r.space
  pub required : t ≡ RefType.require → stands s found.id ≡ true

check_refs-IsResolved :
    (refs : List Ref) (r : Record) (prior : Prior) (s : State)
    → check_refs refs r prior s ≡ ok tt
    → (t : RefType) (target : RecordId) → has_ref t target refs ≡ true
    → IsResolved r prior s t target
unfolding check_refs has_ref
check_refs-IsResolved [] r prior s run t target h = absurd (cc h)
check_refs-IsResolved (x ∷ refs) r prior s run t target h =
    let (found, e1, run1) =
      >>=-eq-ok (or_err (find_record prior x.target) ReasonCode.ref_unresolved) _ run in
    let (e2, run2) = >>-eq-ok (guard (found.space == r.space) ReasonCode.ref_cross_space) _ run1 in
    let (e3, run3) =
      >>-eq-ok
        (guard (not (x.type_ == RefType.require) || stands s found.id) ReasonCode.ref_unresolved) _
        run2 in
    let e4 = guard-eq-ok _ _ e3 in
    elim (Bool-cases (x.type_ == t && x.target == target)) [
      | inl here ↦ record {
        found = found;
        resolves =
            ground (arith, or_err-eq-ok (find_record prior x.target) _ e1, ==_iff x.target target);
        placed = (==_iff found.space r.space).0 (guard-eq-ok _ _ e2);
        required = λ is. ground (arith, ==_iff x.type_ t, ==_iff x.type_ RefType.require, e4);
      }
      | inr there ↦ check_refs-IsResolved refs r prior s run3 t target (ground arith)
    ]

module _ (p : Platform) (r : Record) (prior : Prior) (rules : VerifierRules) (s : State) where
  -- Where the rules ask for a signature the record carries one.
  pub record IsSigned (signature : Signature) : Type 0 where
    pub key : PublicKeyBytes
    pub verified : verified_key p r signature ≡ some key
    pub allowed : key_allowed (get rules.author_keys r.author.id) key ≡ true

  check_signed-IsSigned :
      (signature : Signature) → check_signed p (some signature) r rules ≡ ok tt → IsSigned signature
  unfolding check_signed
  check_signed-IsSigned signature run =
      let (key, e1, run1) =
        >>=-eq-ok (or_err (verified_key p r signature) ReasonCode.signature_invalid) _ run in
      record { key = key; verified = or_err-eq-ok _ _ e1; allowed = guard-eq-ok _ _ run1 }

  pub record IsAdmitted : Type 0 where
    pub identified : compute_id p r ≡ some r.id
    pub sorted : strictly_sorted r.refs ≡ true
    pub placed : r.space ≡ rules.space
    pub schema : get rules.kind_schema_map r.schema ≡ some r.kind
    pub role_allowed : any (λ t. t == r.author.type_) (allowed_author_types r.kind) ≡ true
    pub role_registered : role_fits (get rules.author_roles r.author.id) r ≡ true
    pub must_sign : signature_required r rules ≡ true → is_some r.author.signature ≡ true
    pub signed : (signature : Signature) → r.author.signature ≡ some signature → IsSigned signature
    pub resolved :
        (t : RefType) (target : RecordId)
        → has_ref t target r.refs ≡ true
        → IsResolved r prior s t target
    pub derived : r.evidence ≡ expected_evidence p r prior s
    pub strong : is_below (get rules.evidence_thresholds r.kind) r.evidence ≡ false
    pub t : PayloadType
    pub typed : payload_type p r.schema ≡ some t
    pub canonical : decodes_canonically p t r.payload ≡ true
    pub specific : check_kind_specific p r.kind r prior rules s ≡ ok tt

  check_subject-IsAdmitted : check_subject p r prior rules s ≡ ok tt → IsAdmitted
  unfolding check_subject check_id check_schema check_author_role check_signature check_evidence
      check_payload_decode
  check_subject-IsAdmitted run =
      let (a1, run1) = >>-eq-ok (check_id p r) _ run in
      let (a2, run2) = >>-eq-ok (check_schema p r rules) _ run1 in
      let (a3, run3) = >>-eq-ok (check_author_role r rules) _ run2 in
      let (a4, run4) = >>-eq-ok (check_signature p r rules) _ run3 in
      let (a5, run5) = >>-eq-ok (check_refs r.refs r prior s) _ run4 in
      let (a6, run6) =
        >>-eq-ok (check_replacement p (targets_of RefType.replace r.refs) r prior s) _ run5 in
      let (a7, run7) = >>-eq-ok (check_evidence p r prior rules s) _ run6 in
      let (a8, run8) = >>-eq-ok (check_payload_decode p r) _ run7 in
      let (id, b1, c1) = >>=-eq-ok (or_err (compute_id p r) ReasonCode.invalid_payload) _ a1 in
      let (b2, c2) = >>-eq-ok (guard (strictly_sorted r.refs) ReasonCode.invalid_payload) _ a2 in
      let (b3, c3) = >>-eq-ok (guard (r.space == rules.space) ReasonCode.invalid_payload) _ c2 in
      let (kind, b4, c4) =
        >>=-eq-ok (or_err (get rules.kind_schema_map r.schema) ReasonCode.unknown_schema) _ c3 in
      let (b5, c5) =
        >>-eq-ok
          (guard (any (λ t. t == r.author.type_) (allowed_author_types r.kind))
            ReasonCode.author_role_invalid)
          _ a3 in
      let (b6, c6) =
        >>-eq-ok
          (reject_if (signature_required r rules && not (is_some r.author.signature))
            ReasonCode.signature_missing)
          _ a4 in
      let (b7, c7) =
        >>-eq-ok (guard (r.evidence == expected_evidence p r prior s) ReasonCode.invalid_payload) _
          a7 in
      let (t, b8, c8) =
        >>=-eq-ok (or_err (payload_type p r.schema) ReasonCode.unknown_schema) _ a8 in
      let same_id : r.id ≡ id = (==_iff r.id id).0 (guard-eq-ok _ _ c1) in
      let same_kind : r.kind ≡ kind = (==_iff r.kind kind).0 (guard-eq-ok _ _ c4) in
      let same_evidence : r.evidence ≡ expected_evidence p r prior s =
        (==_iff r.evidence (expected_evidence p r prior s)).0 (guard-eq-ok _ _ b7) in
      record {
        identified = cc (or_err-eq-ok _ _ b1, same_id);
        sorted = guard-eq-ok _ _ b2;
        placed = (==_iff r.space rules.space).0 (guard-eq-ok _ _ b3);
        schema = cc (or_err-eq-ok _ _ b4, same_kind);
        role_allowed = guard-eq-ok _ _ b5;
        role_registered = guard-eq-ok _ _ c5;
        must_sign = λ h. ground (arith, reject_if-eq-ok _ _ b6);
        signed = λ signature h. check_signed-IsSigned signature (cc (c6, h));
        resolved = check_refs-IsResolved r.refs r prior s a5;
        derived = same_evidence;
        strong = rw (same_evidence) (reject_if-eq-ok _ _ c7);
        t = t;
        typed = or_err-eq-ok _ _ b8;
        canonical = guard-eq-ok _ _ c8;
        specific = run8;
      }

  -- A record that is no verdict and that the verifier accepts has the id that its content hashes to;
  -- strictly sorted refs, each resolved in its space, the required ones to records that stand; a
  -- schema of its kind; an author whose declared role is allowed and registered; a verified, pinned
  -- signature where one is present, and one present where the rules ask; exactly the evidence that is
  -- derived from its refs, within the threshold; and a payload in canonical form.
  pub check_record-IsAdmitted :
      (r.kind == Kind.verdict) ≡ false → check_record p r prior rules s ≡ ok tt → IsAdmitted
  unfolding check_record
  check_record-IsAdmitted other run = check_subject-IsAdmitted (ground arith)

  -- So an action that the verifier accepts has the authority that its check asks for.
  pub check_record-IsAuthorized :
      r.kind ≡ Kind.action → check_record p r prior rules s ≡ ok tt → IsAuthorized p r prior s
  unfolding check_kind_specific kind_ordinal
  check_record-IsAuthorized is run =
      check_action-IsAuthorized p r prior s
        (cc (is, (check_record-IsAdmitted (ground arith) run).specific))
