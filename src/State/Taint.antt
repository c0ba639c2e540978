-- ===== src/State/Taint.antt =====
-- src/state/incremental.rs: `mark_tainted`, a depth-first walk over the dependence index.
pub mod Loop
pub mod Closed
use bellbook.Prelude.{
  ℕ, zero, suc, ◌+◌, Bool, true, false, Option, List, [], ◌∷◌, length, unwrap_or, nat_ord,
}
use bellbook.Prelude.Map.{BTreeMap, BTreeSet, contains, insert, get}
use bellbook.Record.Refs.{RecordId}
use bellbook.State.Defs.{State}

abbrev pub Dependents : Type 0
Dependents = BTreeMap RecordId (BTreeSet RecordId)

unfoldable pub dependents : Dependents → RecordId → BTreeSet RecordId
dependents index id = unwrap_or (get index id) []

-- `stack.extend(…)`: the last one pushed is on top, at the head of the list.
unfoldable pub push_all : List RecordId → List RecordId → List RecordId
push_all [] stack = stack
push_all (d ∷ ds) stack = push_all ds (d ∷ stack)

pub record Walk : Type 0 where
  pub stack : List RecordId
  pub tainted : BTreeSet RecordId

-- The `while let Some(current) = stack.pop()` loop on fuel.
unfoldable pub walk : Dependents → ℕ → List RecordId → BTreeSet RecordId → Walk
walk index zero stack t = record { stack = stack; tainted = t }
walk index (suc fuel) [] t = record { stack = []; tainted = t }
walk index (suc fuel) (current ∷ rest) t = elim (contains t current) [
  | true ↦ walk index fuel rest t
  | false ↦ walk index fuel (push_all (dependents index current) rest) (insert current t)
]

-- The number of edges in the index, which bounds the pushes.
unfoldable pub edge_count : Dependents → ℕ
edge_count [] = 0
edge_count ((k, ds) ∷ index) = length ds + edge_count index

unfoldable pub walk_from : Dependents → BTreeSet RecordId → RecordId → Walk
unfolding walk edge_count
walk_from index tainted id = walk index (suc (edge_count index)) (id ∷ []) tainted

unfoldable pub mark_tainted : State → RecordId → State
unfolding walk_from
mark_tainted s id = record s {
  tainted_records = (walk_from s.epistemic_dependents s.tainted_records id).tainted;
}
