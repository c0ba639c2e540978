-- ===== src/State/Defs.antt =====
-- src/state/state.rs: the state derived from committed records.
use bellbook.Prelude.{
  ℕ, String, Bool, true, false, not, ◌&&◌, ◌||◌, Option, none, some, [], nat_ord, if◌then◌else◌,
}
use bellbook.Prelude.Map.{BTreeMap, BTreeSet, contains}
use bellbook.Base.Hash.{Hash256}
use bellbook.Record.Kind.{RefType}
use bellbook.Record.Refs.{RecordId, Ref}
use bellbook.Record.Evidence.{Evidence}
use bellbook.Record.Envelope.{Record}
use bellbook.Record.Payloads.{ActorId, ScopeId, Time, UsageOutcomeCounts}

abbrev pub CapabilityKey : Type 0
CapabilityKey = ActorId × String × ScopeId

abbrev pub ClassKey : Type 0
ClassKey = String × ScopeId × Option ActorId

pub record State : Type 0 where
  pub accepted_records : BTreeSet RecordId
  pub active_requests : BTreeSet RecordId
  pub active_capabilities : BTreeMap CapabilityKey RecordId
  pub valid_approvals : BTreeMap Hash256 RecordId
  pub class_approvals : BTreeMap ClassKey RecordId
  pub open_actions : BTreeSet RecordId
  pub action_to_request : BTreeMap RecordId RecordId
  pub active_summaries : BTreeMap Hash256 RecordId
  pub replaced_records : BTreeSet RecordId
  pub request_open_action_count : BTreeMap RecordId ℕ
  pub usage_counts : BTreeMap (RecordId × String) UsageOutcomeCounts
  pub active_plans : BTreeMap RecordId RecordId
  pub response_turns : BTreeMap RecordId ℕ
  pub capability_index : BTreeMap RecordId CapabilityKey
  pub exact_approval_index : BTreeMap RecordId Hash256
  pub class_approval_index : BTreeMap RecordId ClassKey
  pub retracted_records : BTreeSet RecordId
  pub tainted_records : BTreeSet RecordId
  pub epistemic_dependents : BTreeMap RecordId (BTreeSet RecordId)
  pub requirement_keys : BTreeMap RecordId (BTreeSet String)
  pub requirement_index : BTreeMap RecordId (RecordId × String)
  pub applied_up_to : Time

-- `State::default()`.
abbrev pub default_state : State
default_state = record {
  accepted_records = [];
  active_requests = [];
  active_capabilities = [];
  valid_approvals = [];
  class_approvals = [];
  open_actions = [];
  action_to_request = [];
  active_summaries = [];
  replaced_records = [];
  request_open_action_count = [];
  usage_counts = [];
  active_plans = [];
  response_turns = [];
  capability_index = [];
  exact_approval_index = [];
  class_approval_index = [];
  retracted_records = [];
  tainted_records = [];
  epistemic_dependents = [];
  requirement_keys = [];
  requirement_index = [];
  applied_up_to = 0;
}

-- `retracted_records.contains(id) || tainted_records.contains(id)`.
abbrev pub is_discredited : State → RecordId → Bool
is_discredited s id = contains s.retracted_records id || contains s.tainted_records id

abbrev pub stands : State → RecordId → Bool
stands s id = contains s.accepted_records id && not (is_discredited s id)

-- `Use` and `Require` refs are epistemic dependence.
abbrev pub is_epistemic : RefType → Bool
is_epistemic RefType.use_ = true
is_epistemic RefType.require = true
is_epistemic _ = false

unfoldable pub ref_evidence : State → Ref → Record → Option Evidence
ref_evidence s r target =
    if is_epistemic r.type_
    then some (if stands s target.id then target.evidence else Evidence.assumed)
    else none
