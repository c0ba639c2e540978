-- ===== src/State/Apply.antt =====
-- src/state/incremental.rs: folding a judged record into the state. A fold that fails to decode
pub mod Index
pub mod Exact
pub mod Frame
pub mod Taint
pub mod Approvals
-- leaves what it wrote before, as the code does through its `&mut State`.
use bellbook.Prelude.{
  ℕ, ◌+◌, ◌-◌, ◌^◌, String, Bool, true, false, Option, none, some, List, [], ◌∷◌, leb, nat_ord,
  string_ord, pair_ord, if◌then◌else◌, unwrap_or,
}
use bellbook.Prelude.Map.{contains, insert, remove, get, put, delete}
use bellbook.Base.Hash.{Hash256}
use bellbook.Record.Kind.{Kind, RefType, UsageOutcome, VerdictResult}
use bellbook.Record.Refs.{RecordId, find_ref}
use bellbook.Record.Payloads.{
  SummaryData, UsageData, PlanData, PlanStatus, ResponseData, RequirementData, SelectionData,
  VerdictData, UsageOutcomeCounts,
}
use bellbook.Record.Envelope.{Record}
use bellbook.State.Defs.{State}
use bellbook.State.Operations.{
  enter, consume_approval, note_replaced, close_action, apply_action, apply_refusal,
  apply_capability, apply_approval,
}
use bellbook.State.Retract.{apply_retraction}
use bellbook.Platform.{
  Platform, PayloadType, Form, decode, sha256_canonical, selection_approval_subject_hash,
}

-- The state left behind, and whether the fold returned `Ok`.
abbrev pub Fold : Type 0
Fold = State × Bool

abbrev done : State → Fold
done s = (s, true)

-- `decode(…)?` and the like: an error returns at once.
unfoldable pub and_fold {ℓ} : {A : Type ℓ} → State → Option A → (A → Fold) → Fold
and_fold s none f = (s, false)
and_fold s (some a) f = f a

-- `saturating_add` over u32.
abbrev pub turn_max : ℕ
turn_max = 2 ^ 32 - 1

abbrev next_turn : ℕ → ℕ
next_turn n = if leb (n + 1) turn_max then n + 1 else turn_max

abbrev tally : UsageOutcome → UsageOutcomeCounts → UsageOutcomeCounts
tally UsageOutcome.done c = record c { done = c.done + 1 }
tally UsageOutcome.not_done c = record c { not_done = c.not_done + 1 }
tally UsageOutcome.no_change c = record c { no_change = c.no_change + 1 }

abbrev no_counts : UsageOutcomeCounts
no_counts = record { done = 0; not_done = 0; no_change = 0 }

unfoldable pub apply_usage : UsageData → State → State
apply_usage d s =
    let key : RecordId × String = (d.used_record, d.role) in
    record s {
      usage_counts =
          put key (tally d.outcome (unwrap_or (get s.usage_counts key) no_counts)) s.usage_counts;
    }

abbrev keeps_plan : PlanStatus → Bool
keeps_plan PlanStatus.running = true
keeps_plan _ = false

unfoldable pub apply_plan : PlanData → Record → State → State
unfolding note_replaced
apply_plan d r s =
    let t = note_replaced r s in
    let plans = put d.request_id r.id t.active_plans in
    record t { active_plans = if keeps_plan d.status then plans else delete d.request_id plans }

unfoldable pub apply_response : ResponseData → State → State
apply_response d s =
    let turns = next_turn (unwrap_or (get s.response_turns d.request_id) 0) in
    let t = record s { response_turns = put d.request_id turns s.response_turns } in
    if d.closes_request
    then record t {
      active_requests = remove d.request_id t.active_requests;
      active_plans = delete d.request_id t.active_plans;
    }
    else t

unfoldable pub apply_requirement : RequirementData → Record → State → State
apply_requirement d r s = elim (find_ref RefType.cause r.refs) [
  | none ↦ s
  | some request_id ↦ record s {
    requirement_keys =
        put request_id (insert d.key (unwrap_or (get s.requirement_keys request_id) []))
          s.requirement_keys;
    requirement_index = put r.id (request_id, d.key) s.requirement_index;
  }
]

unfoldable pub apply_summary : Hash256 → Record → State → State
unfolding note_replaced
apply_summary key r s =
    let t = note_replaced r s in record t { active_summaries = put key r.id t.active_summaries }

module _ (p : Platform) where
  -- The match on the kind.
  unfoldable pub fold_kind : Kind → Record → State → Fold
  unfolding apply_action close_action apply_refusal apply_capability apply_approval apply_summary
      apply_usage apply_plan apply_retraction apply_response apply_requirement
  fold_kind Kind.request r s = done (record s { active_requests = insert r.id s.active_requests })
  fold_kind Kind.action r s = and_fold s (decode p PayloadType.action r.payload) λ d.
      and_fold s (sha256_canonical p (Form.action_subject r.author.id d))
        λ exact_hash. done (apply_action d exact_hash r s)
  fold_kind Kind.result r s =
      and_fold s (decode p PayloadType.result r.payload) λ d. done (close_action d.action_id s)
  fold_kind Kind.refusal r s =
      and_fold s (decode p PayloadType.refusal r.payload) λ d. done (apply_refusal d s)
  fold_kind Kind.capability r s =
      and_fold s (decode p PayloadType.capability r.payload) λ d. done (apply_capability d r s)
  fold_kind Kind.approval r s =
      and_fold s (decode p PayloadType.approval r.payload) λ d. done (apply_approval d r s)
  fold_kind Kind.summary r s = and_fold s (decode p PayloadType.summary r.payload) λ d.
      and_fold s (sha256_canonical p (Form.summary_identity d.summary_type d.subject d.scope))
        λ key. done (apply_summary key r s)
  fold_kind Kind.usage r s =
      and_fold s (decode p PayloadType.usage r.payload) λ d. done (apply_usage d s)
  fold_kind Kind.plan r s =
      and_fold s (decode p PayloadType.plan r.payload) λ d. done (apply_plan d r s)
  fold_kind Kind.retraction r s =
      and_fold s (decode p PayloadType.retraction r.payload)
        λ d. done (apply_retraction d.target_id s)
  fold_kind Kind.response r s =
      and_fold s (decode p PayloadType.response r.payload) λ d. done (apply_response d s)
  fold_kind Kind.requirement r s =
      and_fold s (decode p PayloadType.requirement r.payload) λ d. done (apply_requirement d r s)
  fold_kind Kind.selection r s = and_fold s (decode p PayloadType.selection r.payload) λ d.
      let t = note_replaced r s in
      and_fold t (selection_approval_subject_hash p r.author.id (find_ref RefType.replace r.refs) d)
        λ subject. done (consume_approval subject r t)
  fold_kind _ r s = done s

  unfoldable pub apply_accepted : Record → State → Fold
  unfolding enter fold_kind
  apply_accepted r s = fold_kind r.kind r (enter r s)

  unfoldable pub fold_result : VerdictResult → Record → State → Fold
  unfolding apply_accepted
  fold_result VerdictResult.accept r s = apply_accepted r s
  fold_result VerdictResult.reject r s = done s

  unfoldable pub apply_record : State → Record → VerdictData → Fold
  unfolding fold_result
  apply_record s r verdict = fold_result verdict.result r s
