-- ===== src/State/Taint/Loop.antt =====
-- The walk of `mark_tainted` ends with an empty stack.
use bellbook.Prelude.{
  ℕ, zero, suc, ◌+◌, ◌≤◌, ◌≡◌, refl, false, List, [], ◌∷◌, length, nat_ord, arith, if◌then◌else◌,
}
use bellbook.Prelude.Map.{BTreeSet, contains, insert, get, contains-insert}
use bellbook.Record.Refs.{RecordId}
use bellbook.State.Taint.{Dependents, dependents, push_all, walk, edge_count, walk_from}

length-push_all : (ds stack : List RecordId) → length (push_all ds stack) ≡ length ds + length stack
unfolding push_all
length-push_all [] stack = omega arith
length-push_all (d ∷ ds) stack = omega (arith, length-push_all ds (d ∷ stack))

-- The edges out of nodes that are not tainted yet.
unspent : Dependents → BTreeSet RecordId → ℕ
unspent [] t = 0
unspent ((k, ds) ∷ index) t = (if contains t k then 0 else length ds) + unspent index t

unspent-le : (index : Dependents) (t : BTreeSet RecordId) → unspent index t ≤ edge_count index
unfolding unspent edge_count
unspent-le [] t = omega arith
unspent-le ((k, ds) ∷ index) t = ground (arith, unspent-le index t)

unspent_mono :
    (index : Dependents) (t : BTreeSet RecordId) (c : RecordId)
    → unspent index (insert c t) ≤ unspent index t
unfolding unspent
unspent_mono [] t c = omega arith
unspent_mono ((k, ds) ∷ index) t c = ground (arith, unspent_mono index t c, contains-insert t c k)

-- Tainting a node spends its edges.
unspent-insert :
    (index : Dependents) (t : BTreeSet RecordId) (c : RecordId)
    → contains t c ≡ false
    → unspent index (insert c t) + length (dependents index c) ≤ unspent index t
unfolding unspent dependents get
unspent-insert [] t c h = omega arith
unspent-insert ((k, ds) ∷ index) t c h =
    ground (arith, unspent-insert index t c, unspent_mono index t c, contains-insert t c k)

walk_ends :
    (index : Dependents) (fuel : ℕ) (stack : List RecordId) (t : BTreeSet RecordId)
    → length stack + unspent index t ≤ fuel
    → (walk index fuel stack t).stack ≡ []
unfolding walk
walk_ends index zero [] t h = refl
walk_ends index zero (c ∷ rest) t h = absurd (omega arith)
walk_ends index (suc fuel) [] t h = refl
walk_ends index (suc fuel) (c ∷ rest) t h = ground (
  arith,
  walk_ends index fuel rest t,
  walk_ends index fuel (push_all (dependents index c) rest) (insert c t),
  unspent-insert index t c,
  length-push_all (dependents index c) rest,
)

-- The fuel of `mark_tainted` is enough, whatever the index holds: its loop runs until the stack is
-- empty.
pub walk_from_ends :
    (index : Dependents) (t : BTreeSet RecordId) (id : RecordId) → (walk_from index t id).stack ≡ []
unfolding walk_from
walk_from_ends index t id =
    walk_ends index (suc (edge_count index)) (id ∷ []) t (omega (arith, unspent-le index t))
