-- ===== src/Log/Writer/Batch/Landing.antt =====
-- src/log/writer/core.rs: a batch that has been committed is found again in the log.
use bellbook.Prelude.{
  append_assoc, append_nil, get_elem?-append, ℕ, ◌+◌, ◌≡◌, refl, sym, ap, subst, ◌∙◌, true, false,
  Option, none, some, List, [], ◌∷◌, ◌++◌, ==_iff, nat_ord, string_ord, list_ord, pair_ord, ok, err,
  or_err, >>=-eq-ok, length, length-append, map, get_elem?, Result-cases, arith, or_err-eq-ok, inl,
  inr,
}
use bellbook.Base.Hash.{Bytes}
use bellbook.Record.Kind.{kind_ord, author_type_ord, ref_type_ord}
use bellbook.Record.Refs.{RecordId, ref_key, sort_and_dedup_refs}
use bellbook.Record.Payloads.{Time, VerdictData}
use bellbook.Record.Envelope.{Record, Proposal, Author, Signature}
use bellbook.State.Defs.{State}
use bellbook.Platform.{Platform, PayloadType, Form, decode}
use bellbook.Verify.Rules.{VerifierRules}
use bellbook.Log.Errors.{LogError}
use bellbook.Log.Storage.{Fault, FileLog}
use bellbook.Log.Writer.{
  LogWriter, Outcome, proposal_matches_record, same_author, same_signature, verdict_body,
  materialize_verdict, commit,
}
use bellbook.Log.Writer.Steps.{with_computed_id-keeps}
use bellbook.Log.Writer.Outcomes.{IsCommitted, commit_inner-Ends}
use bellbook.Log.Writer.Space.{Ends-IsCommitted}
use bellbook.Log.Writer.Batch.{match_landed, commit_all}

-- serde reads a verdict back from the canonical text that it was printed as.
pub record ReadsVerdicts (p : Platform) : Type 0 where
  pub reads :
      (d : VerdictData) (bytes : Bytes)
      → p.canonical_json (Form.payload PayloadType.verdict d) ≡ some bytes
      → decode p PayloadType.verdict bytes ≡ some d

same_signature_refl : (a : Option Signature) → same_signature a a ≡ true
same_signature_refl none = refl
same_signature_refl (some a) = ground (arith, ==_iff a.key_id a.key_id, ==_iff a.sig a.sig)

same_author_refl : (a : Author) → same_author a a ≡ true
same_author_refl a =
    ground (arith, ==_iff a.id a.id, ==_iff a.type_ a.type_, same_signature_refl a.signature)

module _ (p : Platform) where
  -- A record with the proposal's content matches it.
  IsPrepared-matches :
      (w : LogWriter) (proposal : Proposal) (rules : VerifierRules) (s : State)
      (out : Outcome (RecordId × VerdictData)) (done : IsCommitted p w proposal rules s none out)
      → proposal_matches_record proposal done.pair.subject ≡ true
  unfolding proposal_matches_record
  IsPrepared-matches w proposal rules s out done =
      let r = done.pair.subject in
      let body = done.facts.body in
      let author = done.facts.author in
      ground (
        arith,
        (==_iff r.space proposal.space).1 (ap (λ (x : Record). x.space) body),
        (==_iff r.thread proposal.thread).1 (ap (λ (x : Record). x.thread) body),
        subst (λ a. same_author r.author a ≡ true) author (same_author_refl r.author),
        (==_iff r.kind proposal.kind).1 (ap (λ (x : Record). x.kind) body),
        (==_iff r.schema proposal.schema).1 (ap (λ (x : Record). x.schema) body),
        (==_iff r.payload proposal.payload).1 (ap (λ (x : Record). x.payload) body),
        (==_iff (map ref_key r.refs) (map ref_key (sort_and_dedup_refs proposal.refs))).1
            (ap (λ (x : Record). map ref_key x.refs) body),
      )

  materialize_verdict-decode :
      ReadsVerdicts p
      → (subject : Record) (time : Time) (d : VerdictData) (verdict : Record)
      → materialize_verdict p subject time d ≡ ok verdict
      → decode p PayloadType.verdict verdict.payload ≡ some d
  unfolding materialize_verdict
  materialize_verdict-decode codec subject time d verdict made =
      let (payload, e1, run1) =
        >>=-eq-ok
          (or_err (p.canonical_json (Form.payload PayloadType.verdict d)) LogError.serde_json) _
          made in
      let e = with_computed_id-keeps p (verdict_body p subject time payload) run1 in
      ap (λ (r : Record). decode p PayloadType.verdict r.payload) e
      ∙ codec.reads d payload (or_err-eq-ok _ _ e1)

  -- One pair that stands at a position is matched there.
  match_landed-pair :
      (records : List Record) (pos : ℕ) (proposal : Proposal) (proposals : List Proposal)
      (results : List (RecordId × VerdictData)) (subject verdict : Record) (d : VerdictData)
      → get_elem? records pos ≡ some subject
      → proposal_matches_record proposal subject ≡ true
      → get_elem? records (pos + 1) ≡ some verdict
      → decode p PayloadType.verdict verdict.payload ≡ some d
      → match_landed p records pos (proposal ∷ proposals) results
        ≡ match_landed p records (pos + 2) proposals (results ++ (subject.id, d) ∷ [])
  unfolding match_landed
  match_landed-pair records pos proposal proposals results subject verdict d at matches next
        decoded =
      rw (match_landed, at, matches, next, decoded) refl

  -- What a run of commits that returns `Ok` leaves.
  pub record IsLanded (w : LogWriter) (proposals : List Proposal)
      (results final : List (RecordId × VerdictData)) (v : LogWriter) : Type 0 where
    pub more : List Record
    pub grown : v.log.records ≡ w.log.records ++ more
    pub found :
        match_landed p v.log.records (length w.log.records) proposals results
        ≡ ok record { pos = length v.log.records; results = final; rest = [] }
    pub usable : v.recovery_required ≡ false
    pub hash : v.rules_hash ≡ w.rules_hash

  -- A first pair and what lands after it.
  IsLanded-cons :
      ReadsVerdicts p
      → (w : LogWriter) (proposal : Proposal) (proposals : List Proposal) (rules : VerifierRules)
        (s : State) (results final : List (RecordId × VerdictData)) (given : RecordId × VerdictData)
        (out : Outcome (RecordId × VerdictData)) (v : LogWriter)
      → out.result ≡ ok given
      → IsCommitted p w proposal rules s none out
      → IsLanded out.writer proposals (results ++ given ∷ []) final v
      → IsLanded w (proposal ∷ proposals) results final v
  IsLanded-cons codec w proposal proposals rules s results final given out v ran done later =
      let r = done.pair.subject in
      let verdict = done.pair.verdict_record in
      let old = w.log.records in
      let first : out.writer.log.records ≡ (old ++ r ∷ []) ++ verdict ∷ [] =
        ap (λ (l : FileLog). l.records) done.log in
      let grown : v.log.records ≡ old ++ r ∷ verdict ∷ later.more =
        later.grown
        ∙ ap (λ l. l ++ later.more) first
        ∙ append_assoc (old ++ r ∷ []) (verdict ∷ []) later.more
        ∙ append_assoc old (r ∷ []) (verdict ∷ later.more) in
      let half : length (old ++ r ∷ []) ≡ length old + 1 =
        omega (arith, length-append old (r ∷ [])) in
      let all : length out.writer.log.records ≡ length old + 2 =
        ap length first ∙ omega (arith, length-append (old ++ r ∷ []) (verdict ∷ []), half) in
      let at : get_elem? v.log.records (length old) ≡ some r =
        ap (λ l. get_elem? l (length old)) grown ∙ get_elem?-append old r (verdict ∷ later.more) in
      let next : get_elem? v.log.records (length old + 1) ≡ some verdict =
        ap (λ l. get_elem? l (length old + 1))
          (grown ∙ sym (append_assoc old (r ∷ []) (verdict ∷ later.more)))
        ∙ ap (get_elem? ((old ++ r ∷ []) ++ verdict ∷ later.more)) (sym half)
        ∙ get_elem?-append (old ++ r ∷ []) verdict later.more in
      let same : given ≡ (r.id, done.pair.verdict_data) = cc (ran, done.result) in
      record {
        more = r ∷ verdict ∷ later.more;
        grown = grown;
        found =
            match_landed-pair v.log.records (length old) proposal proposals results r verdict
              done.pair.verdict_data at (IsPrepared-matches w proposal rules s out done) next
              (materialize_verdict-decode codec r done.pair.verdict_time done.pair.verdict_data
                verdict done.facts.verdict_made)
            ∙ ap (λ g. match_landed p v.log.records (length old + 2) proposals (results ++ g ∷ []))
                (sym same)
            ∙ ap (λ n. match_landed p v.log.records n proposals (results ++ given ∷ [])) (sym all)
            ∙ later.found;
        usable = later.usable;
        hash = later.hash ∙ done.hash;
      }

  pub commit_all-IsLanded :
      ReadsVerdicts p
      → (faults : ℕ → Fault) (proposals : List Proposal) (n : ℕ) (rules : VerifierRules)
        (w : LogWriter) (s : State) (results final : List (RecordId × VerdictData))
      → w.recovery_required ≡ false
      → (commit_all p faults n proposals rules w s results).result ≡ ok final
      → IsLanded w proposals results final
          (commit_all p faults n proposals rules w s results).writer
  unfolding commit_all match_landed commit
  commit_all-IsLanded codec faults [] n rules w s results final usable run = record {
    more = [];
    grown = sym (append_nil w.log.records);
    found = cc run;
    usable = usable;
    hash = refl;
  }
  commit_all-IsLanded codec faults (x ∷ xs) n rules w s results final usable run =
      let out = commit p (faults n) w x rules s in
      elim (Result-cases out.result) [
        | inr failed ↦ absurd (stopped failed.0 failed.1)
        | inl ran ↦
            let next =
              commit_all p faults (n + 1) xs rules out.writer out.state (results ++ ran.0 ∷ []) in
            let same : commit_all p faults n (x ∷ xs) rules w s results ≡ next =
              rw (commit_all, ran.1) refl in
            let done =
              Ends-IsCommitted p w x rules s none out ran.0 ran.1
                (commit_inner-Ends p w x rules s none (faults n)) in
            subst
              (λ (o : Outcome (List (RecordId × VerdictData))).
                IsLanded w (x ∷ xs) results final o.writer)
              (sym same)
              (IsLanded-cons codec w x xs rules s results final ran.0 out next.writer ran.1 done (
                commit_all-IsLanded codec faults xs (n + 1) rules out.writer out.state
                  (results ++ ran.0 ∷ []) final done.usable
                  (ap (λ (o : Outcome (List (RecordId × VerdictData))). o.result) (sym same)
                    ∙ run)))
      ]
    where
      stopped : (e : LogError) → (commit p (faults n) w x rules s).result ≡ err e → ⊥
      stopped e failed =
          let gone : (commit_all p faults n (x ∷ xs) rules w s results).result ≡ err e =
            rw (commit_all, failed) refl in
          cc (gone, run)
