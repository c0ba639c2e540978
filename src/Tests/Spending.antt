-- ===== src/Tests/Spending.antt =====
-- An action under a capability that asks, with an exact approval for it.
use bellbook.Prelude.{
  ◌≡◌, ◌≢◌, refl, Option, none, some, ok, [], ◌∷◌, nat_ord, string_ord, option_ord, triple_ord,
}
use bellbook.Prelude.Map.{contains, get}
use bellbook.Base.Hash.{Bytes}
use bellbook.Base.Schema.{schema_id, schema_approval}
use bellbook.Record.Kind.{Kind, RefType, AuthorType, CapabilityMode, ref_ordinal}
use bellbook.Record.Refs.{has_ref}
use bellbook.Record.Evidence.{Evidence}
use bellbook.Record.Payloads.{ApprovalData, CapabilityData}
use bellbook.Record.Envelope.{Record}
use bellbook.Platform.{Platform, PayloadType, PayloadOf, decode, try_from, sha256_canonical}
use bellbook.State.Defs.{State}
use bellbook.State.Apply.{apply_record}
use bellbook.State.Apply.Approvals.{accepted_verdict}
use bellbook.Verify.Prior.{Prior, find_record}
use bellbook.Verify.Work.{
  active_request, has_require_ref, exact_approval, class_approval, check_approval_for_action,
  approval_for_mode, check_capability, check_action,
}
use bellbook.Verify.Work.Spent.{IsAsked, check_action-spent}
use bellbook.Tests.World.{
  world, parse, author, entry, edge, request, capability, action, action_data, held,
}

abbrev asking_grant : CapabilityData
asking_grant = record {
  actor_id = "bot";
  action_class = "send";
  scope = 7;
  mode = CapabilityMode.ask;
  expiry = none;
}

abbrev approval_data : ApprovalData
approval_data = record {
  target_action = some 99;
  action_class = none;
  scope = 7;
  actor_id = some "bot";
  expiry = none;
}

abbrev asking_parse : (t : PayloadType) → Bytes → Option (PayloadOf t)
asking_parse PayloadType.capability bytes = some asking_grant
asking_parse PayloadType.approval bytes = some approval_data
asking_parse t bytes = parse t bytes

abbrev asking : Platform
asking = record world { from_slice = asking_parse }

abbrev approval : Record
approval =
    entry 4 (author "ann" AuthorType.user) Kind.approval schema_approval 7 [] Evidence.reported

-- The action requires its capability and its approval.
abbrev approved_action : Record
approved_action = record action { refs = edge RefType.require 3 ∷ edge RefType.require 4 ∷ [] }

abbrev approved : State
approved = record held { accepted_records = 1 ∷ 3 ∷ 4 ∷ []; valid_approvals = (99, 4) ∷ [] }

abbrev before : Prior
before = record {
  records = request ∷ capability ∷ approval ∷ [];
  index = record { by_id = (1, 0) ∷ (3, 1) ∷ (4, 2) ∷ []; verdicted_subjects = [] };
}

approved_action-IsAsked : IsAsked asking approved_action action_data before approved
unfolding get find_record decode try_from
approved_action-IsAsked = record {
  cap_id = 3;
  cap = capability;
  grant = asking_grant;
  held = refl;
  found = refl;
  decoded = refl;
  asks = refl;
  no_class = refl;
  no_wildcard = refl;
}

first_passes : check_action asking approved_action before approved ≡ ok tt
unfolding check_action active_request check_capability approval_for_mode check_approval_for_action
    exact_approval class_approval has_require_ref has_ref get find_record decode try_from contains
    sha256_canonical ref_ordinal schema_id
first_passes = refl

-- The same action a second time, with another id and at a later time.
check_action-spent_example :
    check_action asking
      (record approved_action { id = 7; time = 7 })
      before
      (apply_record asking approved approved_action accepted_verdict).0
    ≢ ok tt
unfolding decode try_from get find_record
check_action-spent_example =
    check_action-spent asking approved_action (record approved_action { id = 7; time = 7 })
      action_data before before approved approved_action-IsAsked refl refl first_passes refl refl
      approved_action-IsAsked.found
