-- ===== src/Verify/Prior.antt =====
-- src/verify/verifier/verdict.rs: the id index over the records before the one that is checked.
pub mod Scan
use bellbook.Prelude.{
  ℕ, zero, suc, ◌+◌, Bool, true, false, Option, none, some, List, [], ◌∷◌, ◌==◌, nat_ord, get_elem?,
  if◌then◌else◌,
}
use bellbook.Prelude.Map.{BTreeMap, BTreeSet, contains, insert, get, put}
use bellbook.Record.Kind.{Kind, RefType, kind_ord, ref_type_ord}
use bellbook.Record.Refs.{RecordId, Ref}
use bellbook.Record.Envelope.{Record}

pub record PriorIndex : Type 0 where
  pub by_id : BTreeMap RecordId ℕ
  pub verdicted_subjects : BTreeSet RecordId

abbrev pub empty_index : PriorIndex
empty_index = record { by_id = []; verdicted_subjects = [] }

-- The index with the sequence that its positions point into.
pub record Prior : Type 0 where
  pub records : List Record
  pub index : PriorIndex

-- `entry(id).or_insert(pos)`.
unfoldable pub or_insert : RecordId → ℕ → BTreeMap RecordId ℕ → BTreeMap RecordId ℕ
or_insert id pos m = elim (get m id) [ none ↦ put id pos m | some old ↦ m ]

unfoldable pub add_subjects : List Ref → BTreeSet RecordId → BTreeSet RecordId
add_subjects [] s = s
add_subjects (r ∷ refs) s =
    add_subjects refs (if r.type_ == RefType.cause then insert r.target s else s)

unfoldable pub insert_record : ℕ → Record → PriorIndex → PriorIndex
unfolding or_insert add_subjects
insert_record pos r index = record {
  by_id = or_insert r.id pos index.by_id;
  verdicted_subjects =
      if r.kind == Kind.verdict
      then add_subjects r.refs index.verdicted_subjects
      else index.verdicted_subjects;
}

-- The records from position `pos` on.
unfoldable pub insert_all : ℕ → List Record → PriorIndex → PriorIndex
unfolding insert_record
insert_all pos [] index = index
insert_all pos (r ∷ rs) index = insert_all (pos + 1) rs (insert_record pos r index)

unfoldable pub index_of : List Record → PriorIndex
unfolding insert_all
index_of records = insert_all 0 records empty_index

unfoldable pub view_prior : List Record → PriorIndex → Prior
view_prior records index = record { records = records; index = index }

unfoldable pub find_record : Prior → RecordId → Option Record
find_record prior id = elim (get prior.index.by_id id) [
  | none ↦ none
  | some pos ↦ get_elem? prior.records pos
]

unfoldable pub has_verdict_for : Prior → RecordId → Bool
has_verdict_for prior subject = contains prior.index.verdicted_subjects subject
