-- ===== src/State/Equality.antt =====
-- src/state/state.rs: the derived equality of states, field by field.
use bellbook.Prelude.{
  ℕ, ◌≡◌, ◌↔◌, Bool, true, ◌&&◌, Ord, ◌==◌, ==_iff, nat_ord, string_ord, pair_ord, triple_ord,
  triple_cmp, triple_iff, option_ord, list_ord, arith,
}
use text.Mathlib.Text.{is_eq}
use bellbook.Record.Payloads.{UsageOutcomeCounts}
use bellbook.State.Defs.{State}

abbrev pub counts_key : UsageOutcomeCounts → ℕ × ℕ × ℕ
counts_key c = (c.done, c.not_done, c.no_change)

pub counts_iff :
    (a b : UsageOutcomeCounts) → (is_eq (triple_cmp (counts_key a) (counts_key b)) ≡ true) ↔ (a ≡ b)
counts_iff a b = ground (arith, triple_iff (counts_key a) (counts_key b))

instance abbrev pub counts_ord : Ord UsageOutcomeCounts
counts_ord = record { cmp = λ a b. triple_cmp (counts_key a) (counts_key b); cmp_iff = counts_iff }

-- `State: PartialEq`.
unfoldable pub same_state : State → State → Bool
same_state a b =
    a.accepted_records == b.accepted_records
    && a.active_requests == b.active_requests
    && a.active_capabilities == b.active_capabilities
    && a.valid_approvals == b.valid_approvals
    && a.class_approvals == b.class_approvals
    && a.open_actions == b.open_actions
    && a.action_to_request == b.action_to_request
    && a.active_summaries == b.active_summaries
    && a.replaced_records == b.replaced_records
    && a.request_open_action_count == b.request_open_action_count
    && a.usage_counts == b.usage_counts
    && a.active_plans == b.active_plans
    && a.response_turns == b.response_turns
    && a.capability_index == b.capability_index
    && a.exact_approval_index == b.exact_approval_index
    && a.class_approval_index == b.class_approval_index
    && a.retracted_records == b.retracted_records
    && a.tainted_records == b.tainted_records
    && a.epistemic_dependents == b.epistemic_dependents
    && a.requirement_keys == b.requirement_keys
    && a.requirement_index == b.requirement_index
    && a.applied_up_to == b.applied_up_to

-- The last of a chain of comparisons, and those before it.
pub last-eq :
    {A : Type 0} ⦃o : Ord A⦄ (before : Bool) (a b : A)
    → (before && a == b) ≡ true
    → (before ≡ true) × (a ≡ b)
last-eq before a b h = ground (arith, h, ==_iff a b)

-- States that compare equal are equal.
pub same_state-eq : (a b : State) → same_state a b ≡ true → a ≡ b
unfolding same_state
same_state-eq a b h21 =
    let (h20, e21) = last-eq _ a.applied_up_to b.applied_up_to h21 in
    let (h19, e20) = last-eq _ a.requirement_index b.requirement_index h20 in
    let (h18, e19) = last-eq _ a.requirement_keys b.requirement_keys h19 in
    let (h17, e18) = last-eq _ a.epistemic_dependents b.epistemic_dependents h18 in
    let (h16, e17) = last-eq _ a.tainted_records b.tainted_records h17 in
    let (h15, e16) = last-eq _ a.retracted_records b.retracted_records h16 in
    let (h14, e15) = last-eq _ a.class_approval_index b.class_approval_index h15 in
    let (h13, e14) = last-eq _ a.exact_approval_index b.exact_approval_index h14 in
    let (h12, e13) = last-eq _ a.capability_index b.capability_index h13 in
    let (h11, e12) = last-eq _ a.response_turns b.response_turns h12 in
    let (h10, e11) = last-eq _ a.active_plans b.active_plans h11 in
    let (h9, e10) = last-eq _ a.usage_counts b.usage_counts h10 in
    let (h8, e9) = last-eq _ a.request_open_action_count b.request_open_action_count h9 in
    let (h7, e8) = last-eq _ a.replaced_records b.replaced_records h8 in
    let (h6, e7) = last-eq _ a.active_summaries b.active_summaries h7 in
    let (h5, e6) = last-eq _ a.action_to_request b.action_to_request h6 in
    let (h4, e5) = last-eq _ a.open_actions b.open_actions h5 in
    let (h3, e4) = last-eq _ a.class_approvals b.class_approvals h4 in
    let (h2, e3) = last-eq _ a.valid_approvals b.valid_approvals h3 in
    let (h1, e2) = last-eq _ a.active_capabilities b.active_capabilities h2 in
    let (h0, e1) = last-eq _ a.active_requests b.active_requests h1 in
    let e0 = (==_iff a.accepted_records b.accepted_records).0 h0 in
    λ i. record {
      accepted_records = e0 i;
      active_requests = e1 i;
      active_capabilities = e2 i;
      valid_approvals = e3 i;
      class_approvals = e4 i;
      open_actions = e5 i;
      action_to_request = e6 i;
      active_summaries = e7 i;
      replaced_records = e8 i;
      request_open_action_count = e9 i;
      usage_counts = e10 i;
      active_plans = e11 i;
      response_turns = e12 i;
      capability_index = e13 i;
      exact_approval_index = e14 i;
      class_approval_index = e15 i;
      retracted_records = e16 i;
      tainted_records = e17 i;
      epistemic_dependents = e18 i;
      requirement_keys = e19 i;
      requirement_index = e20 i;
      applied_up_to = e21 i;
    }
