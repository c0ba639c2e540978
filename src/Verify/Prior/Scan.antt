-- ===== src/Verify/Prior/Scan.antt =====
-- src/verify/verifier/verdict.rs: the index answers as a front-to-back scan of the records would.
use bellbook.Prelude.{
  ℕ, suc, ◌+◌, ◌≡◌, refl, ap, Bool, ◌&&◌, ◌||◌, Option, none, some, List, [], ◌∷◌, ◌==◌, nat_ord,
  ==_iff, Bool-cases, Option-cases, inl, inr, get_elem?, find, any, if◌then◌else◌, arith,
}
use bellbook.Prelude.Map.{BTreeMap, BTreeSet, contains, insert, get, get-put, contains-insert}
use bellbook.Record.Kind.{Kind, RefType, kind_ord, ref_type_ord}
use bellbook.Record.Refs.{RecordId, Ref, has_ref}
use bellbook.Record.Envelope.{Record}
use bellbook.Verify.Prior.{
  PriorIndex, empty_index, or_insert, add_subjects, insert_record, insert_all, index_of, view_prior,
  find_record, has_verdict_for,
}

-- The scan that the index replaces.
abbrev pub scan : RecordId → List Record → Option Record
scan id records = find (λ r. r.id == id) records

-- Some verdict among the records has a `Cause` ref to the subject.
abbrev pub is_judged : RecordId → List Record → Bool
is_judged subject records =
    any (λ r. r.kind == Kind.verdict && has_ref RefType.cause subject r.refs) records

-- The position of the first record with the id, from position `pos` on.
abbrev position : RecordId → ℕ → List Record → Option ℕ
position id pos [] = none
position id pos (r ∷ rs) = if r.id == id then some pos else position id (suc pos) rs

abbrev pub or_else : {A : Type 0} → Option A → Option A → Option A
or_else none o = o
or_else (some a) o = some a

get-or_insert :
    (k : RecordId) (pos : ℕ) (m : BTreeMap RecordId ℕ) (id : RecordId)
    → get (or_insert k pos m) id ≡ or_else (get m id) (if k == id then some pos else none)
unfolding or_insert
get-or_insert k pos m id = elim (Option-cases (get m k)) [
  | inl e ↦ rw (or_insert, e, get-put m k pos id) (ground (arith, e, ==_iff k id))
  | inr (old, e) ↦ rw (or_insert, e) (ground (arith, e, ==_iff k id))
]

pub get-insert_record :
    (pos : ℕ) (r : Record) (index : PriorIndex) (id : RecordId)
    → get (insert_record pos r index).by_id id
      ≡ or_else (get index.by_id id) (if r.id == id then some pos else none)
unfolding insert_record
get-insert_record pos r index id = get-or_insert r.id pos index.by_id id

get-insert_all :
    (pos : ℕ) (rs : List Record) (index : PriorIndex) (id : RecordId)
    → get (insert_all pos rs index).by_id id ≡ or_else (get index.by_id id) (position id pos rs)
unfolding insert_all
get-insert_all pos [] index id = ground arith
get-insert_all pos (r ∷ rs) index id = ground (
  arith,
  get-insert_all (pos + 1) rs (insert_record pos r index) id,
  get-insert_record pos r index id,
)

pub zero_add : (n : ℕ) → 0 + n ≡ n
zero_add n = omega arith

pub add_zero : (n : ℕ) → n + 0 ≡ n
add_zero n = omega arith

pub add_suc : (n i : ℕ) → suc n + i ≡ n + suc i
add_suc n i = omega arith

abbrev at_position : List Record → Option ℕ → Option Record
at_position records none = none
at_position records (some pos) = get_elem? records pos

-- Where `rs` stands in the records from `pos` on, the first position is that of the scan's answer.
at_position-position :
    (records : List Record) (id : RecordId) (pos : ℕ) (rs : List Record)
    → ((i : ℕ) → get_elem? records (pos + i) ≡ get_elem? rs i)
    → at_position records (position id pos rs) ≡ scan id rs
at_position-position records id pos [] h = refl
at_position-position records id pos (r ∷ rs) h = elim (Bool-cases (r.id == id)) [
  | inl e ↦ rw (e) (cc (h 0, ap (get_elem? records) (add_zero pos)))
  | inr e ↦ rw (e) (
      at_position-position records id (suc pos) rs
        λ i. cc (h (suc i), ap (get_elem? records) (add_suc pos i)))
]

-- Looking an id up in the index of the records finds the first record with the id, if there is one.
pub find_record-index_of :
    (records : List Record) (id : RecordId)
    → find_record (view_prior records (index_of records)) id ≡ scan id records
unfolding find_record view_prior index_of get
find_record-index_of records id =
    rw (find_record, view_prior, index_of, get-insert_all 0 records empty_index id)
      (at_position-position records id 0 records λ i. ap (get_elem? records) (zero_add i))

contains-add_subjects :
    (refs : List Ref) (s : BTreeSet RecordId) (subject : RecordId)
    → contains (add_subjects refs s) subject
      ≡ (has_ref RefType.cause subject refs || contains s subject)
unfolding add_subjects has_ref
contains-add_subjects [] s subject = refl
contains-add_subjects (x ∷ refs) s subject = ground (
  arith,
  contains-add_subjects refs (insert x.target s) subject,
  contains-add_subjects refs s subject,
  contains-insert s x.target subject,
)

pub contains-insert_record :
    (pos : ℕ) (r : Record) (index : PriorIndex) (subject : RecordId)
    → contains (insert_record pos r index).verdicted_subjects subject ≡ (
        r.kind == Kind.verdict && has_ref RefType.cause subject r.refs
        || contains index.verdicted_subjects subject)
unfolding insert_record
contains-insert_record pos r index subject =
    ground (arith, contains-add_subjects r.refs index.verdicted_subjects subject)

contains-insert_all :
    (pos : ℕ) (rs : List Record) (index : PriorIndex) (subject : RecordId)
    → contains (insert_all pos rs index).verdicted_subjects subject
      ≡ (is_judged subject rs || contains index.verdicted_subjects subject)
unfolding insert_all insert_record
contains-insert_all pos [] index subject = refl
contains-insert_all pos (r ∷ rs) index subject = ground (
  arith,
  contains-insert_all (pos + 1) rs (insert_record pos r index) subject,
  contains-add_subjects r.refs index.verdicted_subjects subject,
)

-- The index knows a verdict for a subject exactly if some verdict among the records names it as its
-- cause.
pub has_verdict_for-index_of :
    (records : List Record) (subject : RecordId)
    → has_verdict_for (view_prior records (index_of records)) subject ≡ is_judged subject records
unfolding has_verdict_for view_prior index_of contains
has_verdict_for-index_of records subject =
    ground (arith, contains-insert_all 0 records empty_index subject)
