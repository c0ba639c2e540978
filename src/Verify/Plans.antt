-- ===== src/Verify/Plans.antt =====
-- src/verify/verifier/plans.rs: the plan rules, with the cycle test (Kahn's algorithm).
use bellbook.Prelude.{
  ℕ, zero, suc, ◌+◌, ◌-◌, ◌^◌, String, Bool, true, false, not, ◌&&◌, ◌||◌, Option, none, some, List,
  [], ◌∷◌, ◌++◌, ◌==◌, nat_ord, string_ord, if◌then◌else◌, ok, or_err, guard, ◌>>=◌, ◌>>◌,
  unwrap_or, all, any, length,
}
use bellbook.Prelude.Map.{BTreeMap, BTreeSet, contains, insert, get, put}
use bellbook.Record.Kind.{Kind, RefType, ReasonCode, kind_ord}
use bellbook.Record.Refs.{RecordId}
use bellbook.Record.Payloads.{PlanTask, PlanStatus, TaskStatus}
use bellbook.Record.Envelope.{Record}
use bellbook.State.Defs.{State}
use bellbook.Platform.{Platform, PayloadType}
use bellbook.Verify.Prior.{Prior, find_record}
use bellbook.Verify.Check.{Check, reject_if, dec, same_place, only_target}

-- `in_degree` and `adj`: hash maps in the source; no result depends on their order.
pub record Graph : Type 0 where
  pub in_degree : BTreeMap String ℕ
  pub adj : BTreeMap String (List String)

abbrev pub usize_max : ℕ
usize_max = 2 ^ 64 - 1

-- `entry(id).or_insert(0)`, `entry(id).or_default()`.
unfoldable pub add_node : String → Graph → Graph
add_node id g = record {
  in_degree = put id (unwrap_or (get g.in_degree id) 0) g.in_degree;
  adj = put id (unwrap_or (get g.adj id) []) g.adj;
}

-- The edge from `dep` to `id`.
unfoldable pub add_edge : String → String → Graph → Graph
add_edge id dep g = record {
  in_degree = put id (unwrap_or (get g.in_degree id) 0 + 1) g.in_degree;
  adj = put dep (unwrap_or (get g.adj dep) [] ++ id ∷ []) g.adj;
}

unfoldable pub add_edges : String → List String → Graph → Graph
unfolding add_edge
add_edges id [] g = g
add_edges id (dep ∷ deps) g = add_edges id deps (add_edge id dep g)

unfoldable pub build_graph : List PlanTask → Graph → Graph
unfolding add_node add_edges
build_graph [] g = g
build_graph (t ∷ tasks) g = build_graph tasks (add_edges t.id t.depends_on (add_node t.id g))

unfoldable pub roots : BTreeMap String ℕ → List String
roots [] = []
roots ((id, d) ∷ m) = let rest = roots m in if d == 0 then id ∷ rest else rest

pub record Sweep : Type 0 where
  pub in_degree : BTreeMap String ℕ
  pub queue : List String

-- `*d -= 1` over usize, and the push of what falls to zero.
unfoldable pub release : String → Sweep → Sweep
release nb w = elim (get w.in_degree nb) [
  | none ↦ w
  | some d ↦ record {
    in_degree = put nb (if d == 0 then usize_max else d - 1) w.in_degree;
    queue = if d == 1 then w.queue ++ nb ∷ [] else w.queue;
  }
]

unfoldable pub release_all : List String → Sweep → Sweep
unfolding release
release_all [] w = w
release_all (nb ∷ nbs) w = release_all nbs (release nb w)

pub record Visit : Type 0 where
  pub pending : List String
  pub visited : ℕ

-- The `while let Some(id) = queue.pop_front()` loop on fuel.
unfoldable pub sweep : BTreeMap String (List String) → ℕ → Sweep → ℕ → Visit
unfolding release_all
sweep adj zero w visited = record { pending = w.queue; visited = visited }
sweep adj (suc fuel) w visited = elim w.queue [
  | [] ↦ record { pending = []; visited = visited }
  | id ∷ rest ↦
      sweep adj fuel (release_all (unwrap_or (get adj id) []) (record w { queue = rest }))
        (visited + 1)
]

unfoldable pub kahn : List PlanTask → Visit
unfolding build_graph roots sweep
kahn tasks =
    let g = build_graph tasks (record { in_degree = []; adj = [] }) in
    sweep g.adj (length g.in_degree) (record { in_degree = g.in_degree; queue = roots g.in_degree })
      0

unfoldable pub has_cycle : List PlanTask → Bool
unfolding kahn
has_cycle tasks = not ((kahn tasks).visited == length tasks)

abbrev pub is_running : TaskStatus → Bool
is_running TaskStatus.pending = true
is_running TaskStatus.running = true
is_running _ = false

abbrev pub is_done : TaskStatus → Bool
is_done TaskStatus.done = true
is_done _ = false

abbrev pub is_cut_short : TaskStatus → Bool
is_cut_short TaskStatus.failed = true
is_cut_short TaskStatus.skipped = true
is_cut_short _ = false

abbrev pub has_outcome : TaskStatus → Bool
has_outcome TaskStatus.done = true
has_outcome TaskStatus.failed = true
has_outcome _ = false

unfoldable pub status_consistent : PlanStatus → List PlanTask → Bool
status_consistent PlanStatus.running tasks = any (λ t. is_running t.status) tasks
status_consistent PlanStatus.completed tasks = all (λ t. is_done t.status) tasks
status_consistent PlanStatus.abandoned tasks =
    all (λ t. is_done t.status || is_cut_short t.status) tasks
    && any (λ t. is_cut_short t.status) tasks

-- `seen_ids.insert(…)` over the tasks: the set, unless an id comes twice.
unfoldable pub collect_ids : List PlanTask → BTreeSet String → Option (BTreeSet String)
collect_ids [] seen = some seen
collect_ids (t ∷ tasks) seen =
    let rest = collect_ids tasks (insert t.id seen) in if contains seen t.id then none else rest

unfoldable pub edges_resolve : BTreeSet String → List PlanTask → Bool
edges_resolve seen tasks =
    all (λ t. all (contains seen) t.depends_on && all (contains seen) t.inputs_from) tasks

abbrev is_nonempty {ℓ} : {A : Type ℓ} → List A → Bool
is_nonempty [] = false
is_nonempty (a ∷ l) = true

module _ (p : Platform) where
  -- A task's proof: an accepted result, in place, of an action of this plan's request.
  unfoldable pub check_proof :
      Option RecordId → TaskStatus → RecordId → Record → Prior → State → Check
  check_proof none status request_id r prior s = ok tt
  check_proof (some result_id) status request_id r prior s = do
    guard (has_outcome status) ReasonCode.invalid_payload
    result ← or_err (find_record prior result_id) ReasonCode.invalid_payload
    guard
        (result.kind == Kind.result && contains s.accepted_records result_id && same_place result r)
        ReasonCode.invalid_payload
    d ← dec p PayloadType.result result.payload
    action ← or_err (find_record prior d.action_id) ReasonCode.invalid_payload
    a ← dec p PayloadType.action action.payload
    guard (a.request_id == request_id) ReasonCode.invalid_payload

  unfoldable pub check_proofs : List PlanTask → RecordId → Record → Prior → State → Check
  unfolding check_proof
  check_proofs [] request_id r prior s = ok tt
  check_proofs (t ∷ tasks) request_id r prior s =
      let rest = check_proofs tasks request_id r prior s in
      check_proof t.result_record_id t.status request_id r prior s >> rest

  unfoldable pub check_plan : Record → Prior → State → Check
  unfolding check_proofs collect_ids edges_resolve has_cycle status_consistent
  check_plan r prior s = do
    d ← dec p PayloadType.plan r.payload
    guard (only_target RefType.cause r d.request_id) ReasonCode.request_missing
    guard (contains s.active_requests d.request_id) ReasonCode.request_missing
    request ← or_err (find_record prior d.request_id) ReasonCode.request_missing
    guard (same_place request r) ReasonCode.request_missing
    guard (is_nonempty d.tasks) ReasonCode.invalid_payload
    seen ← or_err (collect_ids d.tasks []) ReasonCode.invalid_payload
    guard (edges_resolve seen d.tasks) ReasonCode.invalid_payload
    check_proofs d.tasks d.request_id r prior s
    reject_if (has_cycle d.tasks) ReasonCode.invalid_payload
    guard (status_consistent d.status d.tasks) ReasonCode.invalid_payload
