-- ===== src/Tests/Ledger.antt =====
-- A platform whose canonical text of a record is its number among a few known records, so that it
-- reads back what it prints; and a writer on an empty log of it.
use bellbook.Prelude.{
  ℕ, suc, ◌≡◌, refl, sym, ap, subst, Bool, true, false, ◌&&◌, Option, none, some, List, [], ◌∷◌,
  ◌==◌, ==_iff, nat_ord, string_ord, option_ord, pair_ord, list_ord, map, get_elem?, String,
}
use bellbook.Base.Hash.{Bytes}
use bellbook.Record.Kind.{
  VerdictResult, ReasonCode, verdict_result_ord, reason_ord, kind_ord, author_type_ord,
  ref_type_ord,
}
use bellbook.Record.Refs.{Ref, ref_key}
use bellbook.Record.Evidence.{evidence_ord}
use bellbook.Record.Envelope.{Record, Proposal, Signature}
use bellbook.Record.Payloads.{VerdictData}
use bellbook.State.Equality.{last-eq}
use bellbook.Platform.{Platform, Form, PayloadType, PayloadOf, decode, try_from}
use bellbook.Log.Storage.{Call, Fault}
use bellbook.Log.Storage.Frames.{ReadsBack}
use bellbook.Log.Writer.{LogWriter}
use bellbook.Log.Writer.Batch.Landing.{ReadsVerdicts}
use bellbook.Tests.World.{world, print, parse, accepted, verdict_on, request}

abbrev pub signature_key : Option Signature → Option (String × Bytes)
signature_key none = none
signature_key (some s) = some (s.key_id, s.sig)

signature_key-inj : (a b : Option Signature) → signature_key a ≡ signature_key b → a ≡ b
signature_key-inj none none h = refl
signature_key-inj none (some b) h = absurd (cc h)
signature_key-inj (some a) none h = absurd (cc h)
signature_key-inj (some a) (some b) h = cc h

ref_keys-inj : (a b : List Ref) → map ref_key a ≡ map ref_key b → a ≡ b
ref_keys-inj [] [] h = refl
ref_keys-inj [] (y ∷ b) h = absurd (cc h)
ref_keys-inj (x ∷ a) [] h = absurd (cc h)
ref_keys-inj (x ∷ a) (y ∷ b) h = cc (h, ref_keys-inj a b (cc h))

abbrev pub same_record : Record → Record → Bool
same_record a b =
    a.id == b.id
    && a.space == b.space
    && a.thread == b.thread
    && a.time == b.time
    && a.author.id == b.author.id
    && a.author.type_ == b.author.type_
    && signature_key a.author.signature == signature_key b.author.signature
    && a.kind == b.kind
    && a.schema == b.schema
    && a.payload == b.payload
    && map ref_key a.refs == map ref_key b.refs
    && a.evidence == b.evidence

same_record-eq : (a b : Record) → same_record a b ≡ true → a ≡ b
same_record-eq a b h11 =
    let (h10, e11) = last-eq _ a.evidence b.evidence h11 in
    let (h9, e10) = last-eq _ (map ref_key a.refs) (map ref_key b.refs) h10 in
    let (h8, e9) = last-eq _ a.payload b.payload h9 in
    let (h7, e8) = last-eq _ a.schema b.schema h8 in
    let (h6, e7) = last-eq _ a.kind b.kind h7 in
    let (h5, e6) =
      last-eq _ (signature_key a.author.signature) (signature_key b.author.signature) h6 in
    let (h4, e5) = last-eq _ a.author.type_ b.author.type_ h5 in
    let (h3, e4) = last-eq _ a.author.id b.author.id h4 in
    let (h2, e3) = last-eq _ a.time b.time h3 in
    let (h1, e2) = last-eq _ a.thread b.thread h2 in
    let (h0, e1) = last-eq _ a.space b.space h1 in
    let e0 = (==_iff a.id b.id).0 h0 in
    let signed = signature_key-inj a.author.signature b.author.signature e6 in
    let refs = ref_keys-inj a.refs b.refs e10 in
    λ i. record {
      id = e0 i;
      space = e1 i;
      thread = e2 i;
      time = e3 i;
      author = record { id = e4 i; type_ = e5 i; signature = signed i };
      kind = e7 i;
      schema = e8 i;
      payload = e9 i;
      refs = refs i;
      evidence = e11 i;
    }

-- The request and its verdict, and the same in another space.
abbrev pub foreign : Record
foreign = record request { space = 1 }

abbrev pub known : List Record
known =
    request ∷ verdict_on 1 ∷ foreign ∷ record (verdict_on 1) { space = 1; payload = 44 ∷ [] } ∷ []

abbrev pub count : Bool → Option ℕ → Option ℕ
count true rest = some 0
count false none = none
count false (some n) = some (suc n)

abbrev pub number : List Record → Record → Option ℕ
number [] r = none
number (x ∷ l) r = count (same_record x r) (number l r)

number-get_elem? :
    (l : List Record) (r : Record) (n : ℕ) → number l r ≡ some n → get_elem? l n ≡ some r
number-get_elem? [] r n h = absurd (cc h)
number-get_elem? (x ∷ l) r n h =
    by_place (same_record x r) (number l r) refl refl h λ m. number-get_elem? l r m
  where
    by_place :
        (here : Bool) (rest : Option ℕ)
        → same_record x r ≡ here
        → number l r ≡ rest
        → count here rest ≡ some n
        → ((m : ℕ) → number l r ≡ some m → get_elem? l m ≡ some r)
        → get_elem? (x ∷ l) n ≡ some r
    by_place true rest same later found more =
        let place : 0 ≡ n = cc found in
        subst (λ m. get_elem? (x ∷ l) m ≡ some r) place (ap some (same_record-eq x r same))
    by_place false none same later found more = absurd (cc found)
    by_place false (some m) same later found more =
        let place : suc m ≡ n = cc found in
        subst (λ k. get_elem? (x ∷ l) k ≡ some r) place (more m later)

abbrev pub write : Option ℕ → Option Bytes
write none = none
write (some n) = some (n ∷ [])

-- Two verdicts have a canonical text.
abbrev pub refused : VerdictData
refused = record { result = VerdictResult.reject; reason = some ReasonCode.invalid_payload }

abbrev pub same_verdict : VerdictData → VerdictData → Bool
same_verdict a b = a.result == b.result && a.reason == b.reason

same_verdict-eq : (a b : VerdictData) → same_verdict a b ≡ true → a ≡ b
same_verdict-eq a b h1 =
    let (h0, e1) = last-eq _ a.reason b.reason h1 in
    let e0 = (==_iff a.result b.result).0 h0 in λ i. record { result = e0 i; reason = e1 i }

abbrev pub choose : Bool → Bool → Option Bytes
choose true second = some (4 ∷ [])
choose false true = some (44 ∷ [])
choose false false = none

abbrev pub ledger_print : Form → Option Bytes
ledger_print (Form.envelope r) = write (number known r)
ledger_print (Form.rules r) = some (7 ∷ [])
ledger_print (Form.proposal d) = some (8 ∷ [])
ledger_print (Form.payload PayloadType.verdict d) =
    choose (same_verdict d accepted) (same_verdict d refused)
ledger_print (Form.state s) = some (9 ∷ [])
ledger_print f = print f

abbrev pub ledger_parse : Bytes → Option Record
ledger_parse (n ∷ []) = get_elem? known n
ledger_parse _ = none

abbrev pub by_tag : Bool → Bool → Option VerdictData
by_tag true second = some accepted
by_tag false true = some refused
by_tag false false = none

abbrev pub as_verdict : Bytes → Option VerdictData
as_verdict (n ∷ []) = by_tag (n == 4) (n == 44)
as_verdict _ = none

abbrev pub ledger_payload : (t : PayloadType) → Bytes → Option (PayloadOf t)
ledger_payload PayloadType.verdict bytes = as_verdict bytes
ledger_payload t bytes = parse t bytes

abbrev pub ledger : Platform
ledger = record world {
  canonical_json = ledger_print;
  from_slice = ledger_payload;
  record_from_slice = ledger_parse;
}

pub ledger-ReadsBack : ReadsBack ledger
ledger-ReadsBack = record { reads = λ r bytes h. by_number r bytes (number known r) refl h }
  where
    by_number :
        (r : Record) (bytes : Bytes) (n : Option ℕ)
        → number known r ≡ n
        → write n ≡ some bytes
        → ledger_parse bytes ≡ some r
    by_number r bytes none e h = absurd (cc h)
    by_number r bytes (some n) e h =
        let printed : (n ∷ []) ≡ bytes = cc h in
        subst (λ b. ledger_parse b ≡ some r) printed (number-get_elem? known r n e)

pub ledger-ReadsVerdicts : ReadsVerdicts ledger
unfolding decode try_from
ledger-ReadsVerdicts = record {
  reads =
      λ d bytes h. by_test d bytes (same_verdict d accepted) (same_verdict d refused) refl refl h;
}
  where
    by_test :
        (d : VerdictData) (bytes : Bytes) (first second : Bool)
        → same_verdict d accepted ≡ first
        → same_verdict d refused ≡ second
        → choose first second ≡ some bytes
        → decode ledger PayloadType.verdict bytes ≡ some d
    by_test d bytes true second e1 e2 h =
        let printed : (4 ∷ []) ≡ bytes = cc h in
        subst (λ b. decode ledger PayloadType.verdict b ≡ some d) printed
          (ap some (sym (same_verdict-eq d accepted e1)))
    by_test d bytes false true e1 e2 h =
        let printed : (44 ∷ []) ≡ bytes = cc h in
        subst (λ b. decode ledger PayloadType.verdict b ≡ some d) printed
          (ap some (sym (same_verdict-eq d refused e2)))
    by_test d bytes false false e1 e2 h = absurd (cc h)

-- A writer on an empty log, and the request as a proposal.
abbrev pub writer : LogWriter
writer = record {
  log = record {
    dir = record { file = []; intent = none; locked = true };
    records = [];
    index = [];
    max_file_bytes = 1000;
  };
  time_source = record { next = 1 };
  rules_hash = 7;
  recovery_required = false;
}

abbrev pub proposal : Proposal
proposal = record {
  space = 0;
  thread = 0;
  author = request.author;
  kind = request.kind;
  schema = request.schema;
  payload = request.payload;
  refs = [];
}

-- The append of the verdict fails after three bytes.
abbrev pub torn_verdict : Fault
torn_verdict = record {
  fails = λ call. elim call [ Call.append_verdict ↦ true | _ ↦ false ];
  kept = 3;
}
