-- ===== src/Context.antt =====
-- src/context/context.rs: the records of a thread that a proposer is shown.
pub mod Selection
use bellbook.Prelude.{
  ℕ, String, Ordering, compare, Bool, true, false, not, ◌&&◌, ◌||◌, List, [], ◌∷◌, ◌==◌, nat_ord,
  then_with, map, filter, take,
}
use bellbook.Prelude.Map.{BTreeMap, BTreeSet, contains, insert}
use bellbook.Prelude.Sorting.{sort_by}
use bellbook.Record.Kind.{Kind, kind_ord}
use bellbook.Record.Refs.{RecordId}
use bellbook.Record.Payloads.{UsageOutcomeCounts}
use bellbook.Record.Envelope.{Record, ThreadId}
use bellbook.State.Defs.{State}
use bellbook.Verify.Rules.{VerifierRules}

pub data ContextPolicy : Type 0 where
  exclude_tainted include_tainted : ContextPolicy

pub record Context : Type 0 where
  pub records : List Record
  pub usage_feedback : BTreeMap (RecordId × String) UsageOutcomeCounts
  pub tainted_records : BTreeSet RecordId

-- `policy == ContextPolicy::IncludeTainted`.
abbrev includes_tainted : ContextPolicy → Bool
includes_tainted ContextPolicy.include_tainted = true
includes_tainted ContextPolicy.exclude_tainted = false

-- The filter of step 1.
unfoldable pub is_selected : State → ThreadId → ContextPolicy → Record → Bool
is_selected s thread policy r =
    r.thread == thread
    && not (r.kind == Kind.verdict)
    && contains s.accepted_records r.id
    && not (contains s.replaced_records r.id)
    && not (contains s.retracted_records r.id)
    && (includes_tainted policy || not (contains s.tainted_records r.id))

-- Newest first, ties by id.
abbrev pub newest_first : Record → Record → Ordering
newest_first a b = then_with (compare b.time a.time) (compare a.id b.id)

-- `collect` into a set.
unfoldable pub id_set : List Record → BTreeSet RecordId
unfolding insert
id_set [] = []
id_set (r ∷ rs) = insert r.id (id_set rs)

unfoldable pub build_context_with :
    List Record → State → VerifierRules → ThreadId → ContextPolicy → Context
unfolding is_selected id_set
build_context_with records s rules thread policy =
    let selected = sort_by newest_first (filter (is_selected s thread policy) records) in
    let context_records = take rules.max_context_records selected in
    let context_ids = id_set context_records in
    record {
      records = context_records;
      usage_feedback = filter (λ e. contains context_ids e.0.0) s.usage_counts;
      tainted_records = id_set (filter (λ r. contains s.tainted_records r.id) context_records);
    }

unfoldable pub build_context : List Record → State → VerifierRules → ThreadId → Context
unfolding build_context_with
build_context records s rules thread =
    build_context_with records s rules thread ContextPolicy.exclude_tainted
