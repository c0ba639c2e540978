-- ===== src/Platform.antt =====
-- What the program takes from libraries: SHA-256, serde's parsing and printing of the derived types,
-- and strict Ed25519. Each is a parameter; the decode checks and the hash inputs are the program's own.
use bellbook.Prelude.{String, Bool, true, Option, none, some, if◌then◌else◌}
use bellbook.Base.Hash.{Bytes, Hash256}
use bellbook.Record.Kind.{SummaryType}
use bellbook.Record.Refs.{RecordId}
use bellbook.Record.Payloads.{
  ActorId, ScopeId, RequestData, ActionData, ResponseData, ResultData, CapabilityData, ApprovalData,
  SummaryData, RefusalData, UsageData, VerdictData, PlanData, RetractionData, CandidateData,
  EvaluationData, SelectionData, RequirementData, EvaluationDataV2, evaluation_valid,
  evaluation_v2_valid, selection_valid,
}
use bellbook.Record.Envelope.{
  Record, Proposal, CanonicalIdForm, SigningForm, canonical_id_form, selection_approval_domain,
}
use bellbook.State.Defs.{State}
use bellbook.Verify.Rules.{VerifierRules, PublicKeyBytes}

-- The types at which the program decodes a payload.
pub data PayloadType : Type 0 where
  request action response result capability approval summary refusal usage verdict : PayloadType
  plan retraction candidate evaluation selection requirement evaluation_v2 : PayloadType

abbrev pub PayloadOf : PayloadType → Type 0
PayloadOf PayloadType.request = RequestData
PayloadOf PayloadType.action = ActionData
PayloadOf PayloadType.response = ResponseData
PayloadOf PayloadType.result = ResultData
PayloadOf PayloadType.capability = CapabilityData
PayloadOf PayloadType.approval = ApprovalData
PayloadOf PayloadType.summary = SummaryData
PayloadOf PayloadType.refusal = RefusalData
PayloadOf PayloadType.usage = UsageData
PayloadOf PayloadType.verdict = VerdictData
PayloadOf PayloadType.plan = PlanData
PayloadOf PayloadType.retraction = RetractionData
PayloadOf PayloadType.candidate = CandidateData
PayloadOf PayloadType.evaluation = EvaluationData
PayloadOf PayloadType.selection = SelectionData
PayloadOf PayloadType.requirement = RequirementData
PayloadOf PayloadType.evaluation_v2 = EvaluationDataV2

-- The values that the program serializes canonically.
pub data Form : Type 0 where
  id_form : CanonicalIdForm → Form
  signing : SigningForm → Form
  payload : (t : PayloadType) → PayloadOf t → Form
  action_subject : ActorId → ActionData → Form
  summary_identity : SummaryType → Hash256 → ScopeId → Form
  selection_subject : String → ActorId → Option RecordId → SelectionData → Form
  proposal : Proposal → Form
  rules : VerifierRules → Form
  state : State → Form
  envelope : Record → Form

pub record Platform : Type 0 where
  pub sha256 : Bytes → Hash256
  -- `canonical_json`; `none` is its error.
  pub canonical_json : Form → Option Bytes
  -- `serde_json::from_slice` at the derived shape of a payload, before the `TryFrom` checks.
  pub from_slice : (t : PayloadType) → Bytes → Option (PayloadOf t)
  -- The same for a whole record, as the log's frames hold it.
  pub record_from_slice : Bytes → Option Record
  -- `VerifyingKey::from_bytes` and `verify_strict`.
  pub is_verifying_key : PublicKeyBytes → Bool
  pub verify_strict : PublicKeyBytes → Bytes → Bytes → Bool

-- The `TryFrom` check of each payload type.
unfoldable pub try_from : (t : PayloadType) → PayloadOf t → Bool
unfolding evaluation_valid evaluation_v2_valid selection_valid
try_from PayloadType.evaluation d = evaluation_valid d.outcome d.criterion
try_from PayloadType.evaluation_v2 d = evaluation_v2_valid d.outcome d.criterion
try_from PayloadType.selection d = selection_valid d
try_from _ d = true

abbrev checked {ℓ} : {A : Type ℓ} → (A → Bool) → Option A → Option A
checked valid none = none
checked valid (some a) = if valid a then some a else none

module _ (p : Platform) where
  -- `record::decode`.
  unfoldable pub decode : (t : PayloadType) → Bytes → Option (PayloadOf t)
  unfolding try_from
  decode t bytes = checked (try_from t) (p.from_slice t bytes)

  -- `sha256_canonical`.
  unfoldable pub sha256_canonical : Form → Option Hash256
  sha256_canonical f = elim (p.canonical_json f) [ none ↦ none | some b ↦ some (p.sha256 b) ]

  unfoldable pub compute_id : Record → Option RecordId
  unfolding sha256_canonical canonical_id_form
  compute_id r = sha256_canonical (Form.id_form (canonical_id_form r))

  unfoldable pub selection_approval_subject_hash :
      ActorId → Option RecordId → SelectionData → Option Hash256
  unfolding sha256_canonical
  selection_approval_subject_hash author replace_target d =
      sha256_canonical (Form.selection_subject selection_approval_domain author replace_target d)
