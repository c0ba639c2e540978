-- ===== src/Record/Refs/Sorted.antt =====
-- src/record/refs.rs: what sorting and deduplicating a record's refs gives.
use bellbook.Prelude.{
  Ordering, ◌≡◌, refl, Bool, true, false, not, ◌&&◌, List, [], ◌∷◌, ==_iff, nat_ord, pair_ord,
  arith,
}
use text.Mathlib.Text.{is_lt}
use bellbook.Record.Kind.{RefType, ref_type_ord, ref_ordinal}
use bellbook.Record.Refs.{
  RecordId, Ref, ref_key, ref_cmp, place, sort_refs, dedup, sort_and_dedup_refs, strictly_sorted,
  has_ref,
}

abbrev exceeds : Ref → Ref → Bool
exceeds x y = elim (ref_cmp x y) [ Ordering.gt ↦ true | _ ↦ false ]

-- `x` is at most, or less than, the first element if there is one.
abbrev at_most : Ref → List Ref → Bool
at_most x [] = true
at_most x (y ∷ l) = not (exceeds x y)

abbrev less : Ref → List Ref → Bool
less x [] = true
less x (y ∷ l) = is_lt (ref_cmp x y)

abbrev sorted : List Ref → Bool
sorted [] = true
sorted (x ∷ l) = at_most x l && sorted l

at_most-place :
    (x r : Ref) (l : List Ref)
    → at_most x l ≡ true
    → exceeds x r ≡ false
    → at_most x (place r l) ≡ true
unfolding place ref_ordinal
at_most-place x r [] h e = ground arith
at_most-place x r (y ∷ l) h e = ground arith

sorted-place : (r : Ref) (l : List Ref) → sorted l ≡ true → sorted (place r l) ≡ true
unfolding place ref_ordinal
sorted-place r [] h = refl
sorted-place r (x ∷ l) h = ground (arith, sorted-place r l, at_most-place x r l)

sorted-sort_refs : (l : List Ref) → sorted (sort_refs l) ≡ true
unfolding sort_refs
sorted-sort_refs [] = refl
sorted-sort_refs (r ∷ l) = sorted-place r (sort_refs l) (sorted-sort_refs l)

less-dedup : (x y : Ref) (l : List Ref) → is_lt (ref_cmp x y) ≡ true → less x (dedup (y ∷ l)) ≡ true
unfolding dedup
less-dedup x y [] h = h
less-dedup x y (z ∷ l) h = ground (arith, less-dedup x z l, ==_iff (ref_key y) (ref_key z))

strictly_sorted-cons :
    (x : Ref) (l : List Ref) → strictly_sorted (x ∷ l) ≡ (less x l && strictly_sorted l)
unfolding strictly_sorted
strictly_sorted-cons x [] = refl
strictly_sorted-cons x (y ∷ l) = refl

strictly_sorted-dedup : (l : List Ref) → sorted l ≡ true → strictly_sorted (dedup l) ≡ true
unfolding strictly_sorted dedup ref_ordinal
strictly_sorted-dedup [] h = refl
strictly_sorted-dedup (x ∷ []) h = refl
strictly_sorted-dedup (x ∷ y ∷ l) h =
    ground (
      arith,
      strictly_sorted-dedup (y ∷ l),
      less-dedup x y l,
      strictly_sorted-cons x (dedup (y ∷ l)),
    )

has_ref-place :
    (t : RefType) (id : RecordId) (r : Ref) (l : List Ref)
    → has_ref t id (place r l) ≡ has_ref t id (r ∷ l)
unfolding place has_ref
has_ref-place t id r [] = refl
has_ref-place t id r (x ∷ l) = ground (arith, has_ref-place t id r l)

has_ref-sort_refs :
    (t : RefType) (id : RecordId) (l : List Ref) → has_ref t id (sort_refs l) ≡ has_ref t id l
unfolding sort_refs has_ref
has_ref-sort_refs t id [] = refl
has_ref-sort_refs t id (r ∷ l) =
    ground (arith, has_ref-place t id r (sort_refs l), has_ref-sort_refs t id l)

has_ref-dedup :
    (t : RefType) (id : RecordId) (l : List Ref) → has_ref t id (dedup l) ≡ has_ref t id l
unfolding dedup has_ref
has_ref-dedup t id [] = refl
has_ref-dedup t id (x ∷ []) = refl
has_ref-dedup t id (x ∷ y ∷ l) =
    ground (arith, has_ref-dedup t id (y ∷ l), ==_iff (ref_key x) (ref_key y))

-- The writer's sorting gives what the verifier asks for, strictly sorted refs, and neither drops a ref
-- nor makes one up.
pub sort_and_dedup_refs-strictly_sorted :
    (refs : List Ref)
    → (strictly_sorted (sort_and_dedup_refs refs) ≡ true)
      × ((t : RefType) (id : RecordId)
          → has_ref t id (sort_and_dedup_refs refs) ≡ has_ref t id refs)
unfolding sort_and_dedup_refs
sort_and_dedup_refs-strictly_sorted refs = (
  strictly_sorted-dedup (sort_refs refs) (sorted-sort_refs refs),
  λ t id. ground (arith, has_ref-dedup t id (sort_refs refs), has_ref-sort_refs t id refs),
)
