-- ===== src/Tests/World.antt =====
-- A platform that can be evaluated, a log of a request, a capability, an action and the
-- capability's retraction, each with its verdict, and a state in which the action is authorized. Identifiers are the records' times, and a payload's bytes name its type.
use bellbook.Prelude.{
  ok, err, String, ℕ, ◌+◌, ◌*◌, Bool, true, false, Option, none, some, List, [], ◌∷◌, ◌==◌, nat_ord,
}
use bellbook.Base.Hash.{Bytes, Hash256}
use bellbook.Base.Schema.{
  schema_response, schema_id, schema_request, schema_action, schema_capability, schema_verdict,
  schema_retraction,
}
use bellbook.Record.Kind.{Kind, RefType, AuthorType, VerdictResult, CapabilityMode, ExecMode}
use bellbook.Record.Refs.{Ref}
use bellbook.Record.Evidence.{Evidence}
use bellbook.Record.Payloads.{
  ResponseData, RequestData, ActionData, CapabilityData, VerdictData, RetractionData, Value,
  BindingMode,
}
use bellbook.Record.Envelope.{Record, Author}
use bellbook.Platform.{Platform, PayloadType, PayloadOf, Form}
use bellbook.State.Defs.{State, default_state}
use bellbook.Verify.Prior.{Prior}
use bellbook.State.Build.{build_state_unchecked}
use bellbook.Verify.Replay.{Progress, start, replay_from}
use bellbook.Verify.Rules.{VerifierRules}

-- Distinct on the schema names; a one-byte text hashes to its byte.
abbrev pub toy_hash : Bytes → Hash256
toy_hash [] = 0
toy_hash (b ∷ bs) = b + 257 * toy_hash bs

abbrev request_data : RequestData
request_data = record { objective = "go"; scope = 7; attachments = []; parent_request_id = none }

abbrev pub action_data : ActionData
action_data = record {
  request_id = 1;
  action_class = "send";
  scope = 7;
  exec_mode = ExecMode.internal;
  params = Value.null;
}

abbrev capability_data : CapabilityData
capability_data = record {
  actor_id = "bot";
  action_class = "send";
  scope = 7;
  mode = CapabilityMode.auto;
  expiry = none;
}

abbrev pub accepted : VerdictData
accepted = record { result = VerdictResult.accept; reason = none }

abbrev pub response_data : ResponseData
response_data = record { request_id = 1; content = "done"; turn_index = 0; closes_request = true }

abbrev retraction_data : RetractionData
retraction_data = record { target_id = 3; reason = "gone" }

abbrev pub print : Form → Option Bytes
print (Form.id_form f) = some (f.time ∷ [])
print (Form.payload PayloadType.request d) = some (1 ∷ [])
print (Form.payload PayloadType.action d) = some (2 ∷ [])
print (Form.payload PayloadType.capability d) = some (3 ∷ [])
print (Form.payload PayloadType.verdict d) = some (4 ∷ [])
print (Form.payload PayloadType.retraction d) = some (5 ∷ [])
print (Form.action_subject actor d) = some (99 ∷ [])
print _ = none

abbrev is_tag : Bytes → ℕ → Bool
is_tag [] n = false
is_tag (b ∷ bs) n = b == n

abbrev when : {A : Type 0} → Bool → A → Option A
when true a = some a
when false a = none

abbrev pub parse : (t : PayloadType) → Bytes → Option (PayloadOf t)
parse PayloadType.request b = when (is_tag b 1) request_data
parse PayloadType.action b = when (is_tag b 2) action_data
parse PayloadType.capability b = when (is_tag b 3) capability_data
parse PayloadType.verdict b = when (is_tag b 4) accepted
parse PayloadType.retraction b = when (is_tag b 5) retraction_data
parse PayloadType.response b = when (is_tag b 6) response_data
parse _ b = none

abbrev pub world : Platform
world = record {
  sha256 = toy_hash;
  canonical_json = print;
  from_slice = parse;
  record_from_slice = λ bytes. none;
  is_verifying_key = λ key. true;
  verify_strict = λ key message signature. true;
}

abbrev pub author : String → AuthorType → Author
author id t = record { id = id; type_ = t; signature = none }

abbrev pub entry : ℕ → Author → Kind → String → ℕ → List Ref → Evidence → Record
entry time a kind schema tag refs evidence = record {
  id = time;
  space = 0;
  thread = 0;
  time = time;
  author = a;
  kind = kind;
  schema = schema_id toy_hash schema;
  payload = tag ∷ [];
  refs = refs;
  evidence = evidence;
}

abbrev pub edge : RefType → ℕ → Ref
edge t target = record { type_ = t; target = target }

abbrev pub verdict_on : ℕ → Record
verdict_on subject =
    entry (subject + 1) (author "verifier" AuthorType.verifier) Kind.verdict schema_verdict 4
      (edge RefType.cause subject ∷ []) Evidence.deterministic

abbrev pub request : Record
request = entry 1 (author "ann" AuthorType.user) Kind.request schema_request 1 [] Evidence.reported

abbrev pub capability : Record
capability =
    entry 3 (author "ann" AuthorType.user) Kind.capability schema_capability 3 [] Evidence.reported

abbrev pub action : Record
action =
    entry 5 (author "bot" AuthorType.provider) Kind.action schema_action 2
      (edge RefType.require 3 ∷ []) Evidence.reported

abbrev retraction : Record
retraction =
    entry 7 (author "ann" AuthorType.user) Kind.retraction schema_retraction 5
      (edge RefType.cause 3 ∷ []) Evidence.reported

-- The action rests on a capability that is retracted after it.
abbrev pub log : List Record
log =
    request
    ∷ verdict_on 1
    ∷ capability
    ∷ verdict_on 3
    ∷ action
    ∷ verdict_on 5
    ∷ retraction
    ∷ verdict_on 7
    ∷ []

-- A state in which the request is active and the capability held.
abbrev pub held : State
held = record default_state {
  accepted_records = 1 ∷ 3 ∷ [];
  active_requests = 1 ∷ [];
  active_capabilities = (("bot", "send", 7), 3) ∷ [];
}

abbrev pub prior : Prior
prior = record {
  records = request ∷ capability ∷ [];
  index = record { by_id = (1, 0) ∷ (3, 1) ∷ []; verdicted_subjects = [] };
}

abbrev pub rules : VerifierRules
rules = record {
  space = 0;
  kind_schema_map =
      (schema_id toy_hash schema_request, Kind.request)
      ∷ (schema_id toy_hash schema_action, Kind.action)
      ∷ (schema_id toy_hash schema_capability, Kind.capability)
      ∷ (schema_id toy_hash schema_retraction, Kind.retraction)
      ∷ (schema_id toy_hash schema_verdict, Kind.verdict)
      ∷ [];
  signature_required_kinds = [];
  author_keys = [];
  author_roles = ("ann", AuthorType.user) ∷ ("bot", AuthorType.provider) ∷ [];
  admin_retraction_actors = [];
  allowed_summary_types = [];
  evidence_thresholds = [];
  max_context_records = 100;
  min_binding = BindingMode.reported;
  selection_requires_evaluation = true;
  reaffirmation_actors = [];
  max_considered = 4096;
  selection_requires_approval = false;
  reject_compromised_continuation = false;
}

-- Where the replay and the build of the log end.
abbrev pub final : Progress
final = elim (replay_from world log rules none) [ ok z ↦ z | err e ↦ start ]

abbrev pub built : State
built = elim (build_state_unchecked world log) [ none ↦ default_state | some s ↦ s ]

-- The state with an exact approval for the action, under the id of the record that it requires.
abbrev pub approved : State
approved = record held { valid_approvals = (99, 3) ∷ [] }

abbrev pub shuffled : List Ref
shuffled =
    edge RefType.require 3
    ∷ edge RefType.cause 1
    ∷ edge RefType.require 3
    ∷ edge RefType.use_ 2
    ∷ []

-- The last word on the request.
abbrev pub response : Record
response =
    entry 9 (author "bot" AuthorType.provider) Kind.response schema_response 6
      (edge RefType.cause 1 ∷ []) Evidence.reported
