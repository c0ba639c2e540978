-- ===== src/Record/Refs.antt =====
-- src/record/refs.rs: typed edges, and the order in which a record lists them.
pub mod Sorted
use bellbook.Prelude.{
  ℕ, ◌≡◌, Bool, true, false, ◌&&◌, List, [], ◌∷◌, Ord, ◌==◌, pair_ord, nat_ord, Ordering,
  if◌then◌else◌, Option, none, some, ◌||◌,
}
use text.Mathlib.Text.{is_lt}
use bellbook.Base.Hash.{Hash256}
use bellbook.Record.Kind.{RefType, ref_type_ord}

abbrev pub RecordId : Type 0
RecordId = Hash256

pub record Ref : Type 0 where
  pub type_ : RefType
  pub target : RecordId

-- The sort key: the type's ordinal, then the target.
abbrev pub ref_key : Ref → RefType × RecordId
ref_key r = (r.type_, r.target)

abbrev pub ref_cmp : Ref → Ref → Ordering
ref_cmp a b = (pair_ord {A = RefType} {B = RecordId}).cmp (ref_key a) (ref_key b)

-- `slice::sort_by` is stable: an element goes before its equals.
unfoldable pub place : Ref → List Ref → List Ref
place r [] = r ∷ []
place r (x ∷ l) = elim (ref_cmp r x) [ Ordering.gt ↦ x ∷ place r l | _ ↦ r ∷ x ∷ l ]

unfoldable pub sort_refs : List Ref → List Ref
unfolding place
sort_refs [] = []
sort_refs (r ∷ l) = place r (sort_refs l)

-- `Vec::dedup`: of neighbours that are equal one stays.
unfoldable pub dedup : List Ref → List Ref
dedup [] = []
dedup (x ∷ []) = x ∷ []
dedup (x ∷ y ∷ l) = let rest = dedup (y ∷ l) in if ref_key x == ref_key y then rest else x ∷ rest

unfoldable pub sort_and_dedup_refs : List Ref → List Ref
unfolding sort_refs dedup
sort_and_dedup_refs refs = dedup (sort_refs refs)

-- `windows(2).all(w[0] < w[1])`, the verifier's test of a record's refs.
unfoldable pub strictly_sorted : List Ref → Bool
strictly_sorted [] = true
strictly_sorted (x ∷ []) = true
strictly_sorted (x ∷ y ∷ l) = is_lt (ref_cmp x y) && strictly_sorted (y ∷ l)

-- The refs of one type, as the checks filter them.
unfoldable pub targets_of : RefType → List Ref → List RecordId
targets_of t [] = []
targets_of t (r ∷ l) = let rest = targets_of t l in if r.type_ == t then r.target ∷ rest else rest

unfoldable pub has_ref : RefType → RecordId → List Ref → Bool
has_ref t id [] = false
has_ref t id (r ∷ l) = r.type_ == t && r.target == id || has_ref t id l

-- `find_replace_ref`, and the like searches for the first `Cause`.
unfoldable pub find_ref : RefType → List Ref → Option RecordId
find_ref t [] = none
find_ref t (r ∷ l) = if r.type_ == t then some r.target else find_ref t l
