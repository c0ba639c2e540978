-- ===== src/Log/Writer/Steps.antt =====
-- src/log/writer/core.rs, storage.rs: the checks of a commit taken apart, and what one append leaves.
use bellbook.Prelude.{
  ℕ, ◌+◌, ◌≤◌, ◌≡◌, refl, sym, ap, subst, ◌∙◌, false, not, Option, none, some, [], ◌∷◌, nat_ord, ok,
  or_err, guard, or_err-eq-ok, guard-eq-ok, >>=-eq-ok, >>-eq-ok, arith,
}
use bellbook.Base.Time.{time_max, checked_add, peek, exhausted}
use bellbook.Record.Evidence.{derive_evidence}
use bellbook.Record.Kind.{Kind}
use bellbook.Record.Payloads.{Time, VerdictData}
use bellbook.Record.Envelope.{Record, Proposal, Author, signing_form}
use bellbook.Base.Hash.{Bytes}
use bellbook.State.Defs.{State}
use bellbook.State.Equality.{same_state-eq}
use bellbook.State.Build.{build_state_unchecked}
use bellbook.Platform.{Platform, PayloadType, Form, compute_id}
use bellbook.Verify.Rules.{VerifierRules}
use bellbook.Verify.RecordChecks.{verify_record}
use bellbook.Log.Errors.{LogError, Logged}
use bellbook.Log.Storage.{ensure_capacity_for}
use bellbook.Log.Writer.{
  LogWriter, Ed25519Signer, Prepared, ensure_writable, ensure_rules_match, ensure_state_matches,
  proposal_evidences, materialize, verdict_body, sign, signed, with_computed_id,
  materialize_verdict, prepare,
}

checked_add-eq-some :
    (a b : ℕ) {c : ℕ} → checked_add a b ≡ some c → (c ≡ a + b) × (a + b ≤ time_max)
checked_add-eq-some a b h = ground (arith, h)

same_ok : {r t : Record} → ◌≡◌ {A = Logged Record} (ok r) (ok t) → r ≡ t
same_ok run = cc run

module _ (p : Platform) where
  -- The proposal as a record of the next time, with its evidence, before it is signed.
  abbrev pub materialized : LogWriter → Proposal → State → Record
  materialized w proposal s =
      materialize p proposal (peek w.time_source)
        (derive_evidence p.sha256 proposal.schema (proposal_evidences proposal.refs w.log s))

  -- The author of a subject: the proposal's, with another signature where a signer was given.
  abbrev pub IsSignedBy : Option Ed25519Signer → Author → Author → Type 0
  IsSignedBy none subject proposed = subject ≡ proposed
  IsSignedBy (some signer) subject proposed =
      (subject.id ≡ proposed.id)
      × (subject.type_ ≡ proposed.type_)
      × ((sig : Bytes) × (subject.signature
            ≡ some record { key_id = signer.public_key_hex; sig = sig }))

  -- What holds of a pair that the checks let through.
  pub record IsPrepared (w : LogWriter) (proposal : Proposal) (rules : VerifierRules) (s : State)
      (signer : Option Ed25519Signer) (pr : Prepared) : Type 0 where
    pub writable : w.recovery_required ≡ false
    pub live : exhausted w.time_source ≡ false
    pub current : build_state_unchecked p w.log.records ≡ some s
    pub body :
        pr.subject
        ≡ record (materialized w proposal s) { id = pr.subject.id; author = pr.subject.author }
    pub author : IsSignedBy signer pr.subject.author proposal.author
    pub judged : pr.verdict_data ≡ verify_record p pr.subject w.log.records rules s
    pub verdict_time : checked_add pr.subject.time 1 ≡ some pr.verdict_time
    pub verdict_made :
        materialize_verdict p pr.subject pr.verdict_time pr.verdict_data ≡ ok pr.verdict_record
    pub room : ensure_capacity_for p w.log (pr.subject ∷ pr.verdict_record ∷ []) ≡ ok tt

  signed-keeps :
      (signer : Option Ed25519Signer) (r : Record) {t : Record}
      → signed p signer r ≡ ok t
      → t ≡ record r { author = t.author }
  signed-keeps none r {t} run = subst (λ x. x ≡ record r { author = x.author }) (same_ok run) refl
  signed-keeps (some signer) r {t} run =
      let (signature, e, run1) = >>=-eq-ok (sign p signer r) _ run in
      let made : Record = record r { author = record (r.author) { signature = some signature } } in
      let same : made ≡ t = cc run1 in subst (λ x. x ≡ record r { author = x.author }) same refl

  signed-IsSignedBy :
      (signer : Option Ed25519Signer) (r : Record) {t : Record}
      → signed p signer r ≡ ok t
      → IsSignedBy signer t.author r.author
  unfolding sign
  signed-IsSignedBy none r run = ap (λ (x : Record). x.author) (sym (same_ok run))
  signed-IsSignedBy (some signer) r {t} run =
      let (signature, e, run1) = >>=-eq-ok (sign p signer r) _ run in
      let (bytes, e2, run2) =
        >>=-eq-ok (or_err (p.canonical_json (Form.signing (signing_form r))) LogError.serde_json) _
          e in
      let made : Record = record r { author = record (r.author) { signature = some signature } } in
      let same : made ≡ t = same_ok run1 in
      let written : record { key_id = signer.public_key_hex; sig = signer.sign_bytes bytes }
          ≡ signature =
        cc run2 in
      (
        ap (λ (x : Record). x.author.id) (sym same),
        ap (λ (x : Record). x.author.type_) (sym same),
        (
          signer.sign_bytes bytes,
          ap (λ (x : Record). x.author.signature) (sym same) ∙ ap some (sym written),
        ),
      )

  pub with_computed_id-keeps :
      (r : Record) {t : Record} → with_computed_id p r ≡ ok t → t ≡ record r { id = t.id }
  unfolding with_computed_id
  with_computed_id-keeps r {t} run =
      let (id, e, run1) = >>=-eq-ok (or_err (compute_id p r) LogError.serde_json) _ run in
      let made : Record = record r { id = id } in
      let same : made ≡ t = cc run1 in subst (λ x. x ≡ record r { id = x.id }) same refl

  ensure_state_matches-eq-ok :
      (w : LogWriter) (s : State)
      → ensure_state_matches p w s ≡ ok tt
      → build_state_unchecked p w.log.records ≡ some s
  unfolding ensure_state_matches
  ensure_state_matches-eq-ok w s run =
      let (expected, e, run1) =
        >>=-eq-ok (or_err (build_state_unchecked p w.log.records) LogError.serde_json) _ run in
      or_err-eq-ok _ _ e ∙ ap some (same_state-eq expected s (guard-eq-ok _ _ run1))

  ensure_writable-eq-ok :
      (w : LogWriter) → ensure_writable p w ≡ ok tt → w.recovery_required ≡ false
  unfolding ensure_writable
  ensure_writable-eq-ok w run = ground (arith, run)

  pub prepare-IsPrepared :
      (w : LogWriter) (proposal : Proposal) (rules : VerifierRules) (s : State)
      (signer : Option Ed25519Signer) (pr : Prepared)
      → prepare p w proposal rules s signer ≡ ok pr
      → IsPrepared w proposal rules s signer pr
  unfolding prepare
  prepare-IsPrepared w proposal rules s signer pr run =
      let (e1, run1) = >>-eq-ok (ensure_writable p w) _ run in
      let (e2, run2) = >>-eq-ok (ensure_rules_match p w rules) _ run1 in
      let (e3, run3) = >>-eq-ok (ensure_state_matches p w s) _ run2 in
      let (e4, run4) =
        >>-eq-ok (guard (not (exhausted w.time_source)) LogError.time_exhausted) _ run3 in
      let (verdict_time, e5, run5) =
        >>=-eq-ok (or_err (checked_add (peek w.time_source) 1) LogError.time_exhausted) _ run4 in
      let (unidentified, e6, run6) =
        >>=-eq-ok (signed p signer (materialized w proposal s)) _ run5 in
      let (subject, e7, run7) = >>=-eq-ok (with_computed_id p unidentified) _ run6 in
      let verdict_data = verify_record p subject w.log.records rules s in
      let (verdict_record, e8, run8) =
        >>=-eq-ok (materialize_verdict p subject verdict_time verdict_data) _ run7 in
      let (e9, run9) =
        >>-eq-ok (ensure_capacity_for p w.log (subject ∷ verdict_record ∷ [])) _ run8 in
      let author = signed-keeps signer (materialized w proposal s) e6 in
      let id = with_computed_id-keeps unidentified e7 in
      let body =
        id
        ∙ ap (λ (u : Record). record u { id = subject.id }) author
        ∙ ap (λ a. record (materialized w proposal s) { id = subject.id; author = a })
            (sym (ap (λ (x : Record). x.author) id)) in
      let made : Prepared = record {
        subject = subject;
        verdict_data = verdict_data;
        verdict_record = verdict_record;
        verdict_time = verdict_time;
      } in
      let same : made ≡ pr = cc run9 in
      subst (IsPrepared w proposal rules s signer) same record {
        writable = ensure_writable-eq-ok w e1;
        live = ground (arith, guard-eq-ok _ _ e4);
        current = ensure_state_matches-eq-ok w s e3;
        body = body;
        author =
            subst (λ a. IsSignedBy signer a proposal.author)
              (ap (λ (x : Record). x.author) (sym id))
              (signed-IsSignedBy signer (materialized w proposal s) e6);
        judged = refl;
        verdict_time = ap (λ (x : Record). checked_add x.time 1) body ∙ or_err-eq-ok _ _ e5;
        verdict_made = e8;
        room = e9;
      }

  -- A verdict record is a verdict in its subject's space.
  pub materialize_verdict-place :
      (subject : Record) (time : Time) (d : VerdictData) (verdict : Record)
      → materialize_verdict p subject time d ≡ ok verdict
      → (verdict.kind ≡ Kind.verdict) × (verdict.space ≡ subject.space)
  unfolding materialize_verdict
  materialize_verdict-place subject time d verdict made =
      let (payload, e1, run1) =
        >>=-eq-ok
          (or_err (p.canonical_json (Form.payload PayloadType.verdict d)) LogError.serde_json) _
          made in
      let e = with_computed_id-keeps (verdict_body p subject time payload) run1 in
      (ap (λ (r : Record). r.kind) e, ap (λ (r : Record). r.space) e)
