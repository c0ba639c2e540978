-- ===== src/State/Apply/Index.antt =====
-- What `enter` writes to the dependence index, and when it taints.
use bellbook.Prelude.{
  ◌≡◌, refl, Bool, true, false, ◌&&◌, ◌||◌, List, [], ◌∷◌, ◌==◌, ==_iff, nat_ord, arith,
  if◌then◌else◌, Bool-cases, inl, inr,
}
use bellbook.Prelude.Map.{contains, insert, contains-insert, get-put}
use bellbook.Record.Refs.{RecordId, Ref}
use bellbook.State.Defs.{State, is_discredited, is_epistemic}
use bellbook.State.Taint.{Dependents, dependents}
use bellbook.State.Operations.{add_dependent, index_refs, inherits_taint}

-- A `Use` or `Require` ref to `a` is among the refs.
abbrev pub depends_on : List Ref → RecordId → Bool
depends_on [] a = false
depends_on (r ∷ refs) a = is_epistemic r.type_ && r.target == a || depends_on refs a

pub contains-add_dependent :
    (target id : RecordId) (index : Dependents) (a d : RecordId)
    → contains (dependents (add_dependent target id index) a) d
      ≡ (target == a && id == d || contains (dependents index a) d)
unfolding add_dependent dependents
contains-add_dependent target id index a d = ground (
  arith,
  get-put index target (insert id (dependents index target)) a,
  contains-insert (dependents index target) id d,
  ==_iff target a,
)

abbrev index_ref : RecordId → Ref → State → State
index_ref id r s =
    if is_epistemic r.type_
    then record s { epistemic_dependents = add_dependent r.target id s.epistemic_dependents }
    else s

pub contains-index_refs :
    (id : RecordId) (refs : List Ref) (s : State) (a d : RecordId)
    → contains (dependents (index_refs id refs s).epistemic_dependents a) d
      ≡ (depends_on refs a && id == d || contains (dependents s.epistemic_dependents a) d)
unfolding index_refs
contains-index_refs id [] s a d = refl
contains-index_refs id (r ∷ refs) s a d = ground (
  arith,
  contains-index_refs id refs (index_ref id r s) a d,
  contains-add_dependent r.target id s.epistemic_dependents a d,
)

pub tainted-index_refs :
    (id : RecordId) (refs : List Ref) (s : State)
    → ((index_refs id refs s).tainted_records ≡ s.tainted_records)
      × ((index_refs id refs s).retracted_records ≡ s.retracted_records)
      × ((index_refs id refs s).accepted_records ≡ s.accepted_records)
unfolding index_refs
tainted-index_refs id [] s = (refl, refl, refl)
tainted-index_refs id (r ∷ refs) s = ground (arith, tainted-index_refs id refs (index_ref id r s))

-- Taint is inherited exactly from a discredited target.
pub inherits_taint-false :
    (refs : List Ref) (s : State) (a : RecordId)
    → inherits_taint refs s ≡ false
    → depends_on refs a ≡ true
    → is_discredited s a ≡ false
unfolding inherits_taint
inherits_taint-false [] s a h e = cc
inherits_taint-false (r ∷ refs) s a h e =
    ground (arith, inherits_taint-false refs s a, ==_iff r.target a)

pub inherits_taint-true :
    (refs : List Ref) (s : State)
    → inherits_taint refs s ≡ true
    → (a : RecordId) × (depends_on refs a ≡ true) × (is_discredited s a ≡ true)
unfolding inherits_taint
inherits_taint-true [] s h = cc
inherits_taint-true (r ∷ refs) s h =
    elim (Bool-cases (is_epistemic r.type_ && is_discredited s r.target)) [
      | inl here ↦ (r.target, ground (arith, ==_iff r.target r.target), ground arith)
      | inr not_here ↦
          let (a, e, d) = inherits_taint-true refs s (ground arith) in (a, ground arith, d)
    ]
