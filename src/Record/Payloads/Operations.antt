-- ===== src/Record/Payloads/Operations.antt =====
-- src/record/payloads.rs: the payloads of requests, work, authority and verdicts.
use bellbook.Prelude.{ℕ, String, Bool, Option, List, string_ord}
use bellbook.Base.Hash.{Hash256, Bytes}
use bellbook.Record.Kind.{
  ExecMode, ResultStatus, CapabilityMode, SummaryType, RefusalTarget, ReasonCode, UsageOutcome,
  VerdictResult,
}
use bellbook.Record.Refs.{RecordId}
use bellbook.Record.Payloads.Artifacts.{ArtifactRef}

abbrev pub Time : Type 0
Time = ℕ

abbrev pub ActorId : Type 0
ActorId = String

abbrev pub ScopeId : Type 0
ScopeId = Hash256

-- `serde_json::Value`: no check looks inside.
mutual
  pub data Value : Type 0 where
    null : Value
    bool : Bool → Value
    number : String → Value
    text : String → Value
    array : Values → Value
    object : Members → Value

  pub data Values : Type 0 where
    nil : Values
    cons : Value → Values → Values

  pub data Members : Type 0 where
    end : Members
    member : String → Value → Members → Members

pub record Attachment : Type 0 where
  pub path : String
  pub content : String

pub record RequestData : Type 0 where
  pub objective : String
  pub scope : Hash256
  pub attachments : List Attachment
  pub parent_request_id : Option RecordId

pub record ActionData : Type 0 where
  pub request_id : RecordId
  pub action_class : String
  pub scope : Hash256
  pub exec_mode : ExecMode
  pub params : Value

pub record ResponseData : Type 0 where
  pub request_id : RecordId
  pub content : String
  pub turn_index : ℕ
  pub closes_request : Bool

pub record ResultData : Type 0 where
  pub action_id : RecordId
  pub status : ResultStatus
  pub output : String
  pub artifacts : Option (List ArtifactRef)

pub data Provenance : Type 0 where
  user_authored derived : Provenance

pub record RequirementData : Type 0 where
  pub key : String
  pub description : String
  pub required : Bool
  pub expected_evidence : Option String
  pub provenance : Provenance

pub record CapabilityData : Type 0 where
  pub actor_id : ActorId
  pub action_class : String
  pub scope : Hash256
  pub mode : CapabilityMode
  pub expiry : Option Time

pub record ApprovalData : Type 0 where
  pub target_action : Option Hash256
  pub action_class : Option String
  pub scope : Hash256
  pub actor_id : Option ActorId
  pub expiry : Option Time

pub record SummaryData : Type 0 where
  pub summary_type : SummaryType
  pub subject : Hash256
  pub scope : Hash256
  pub claim_payload : Bytes

pub record RefusalData : Type 0 where
  pub target_id : RecordId
  pub target_kind : RefusalTarget
  pub reason_code : Option ReasonCode

pub record RetractionData : Type 0 where
  pub target_id : RecordId
  pub reason : String

pub record UsageData : Type 0 where
  pub actor : ActorId
  pub used_record : RecordId
  pub consuming_record : RecordId
  pub role : String
  pub outcome : UsageOutcome

pub record VerdictData : Type 0 where
  pub result : VerdictResult
  pub reason : Option ReasonCode

pub record UsageOutcomeCounts : Type 0 where
  pub done : ℕ
  pub not_done : ℕ
  pub no_change : ℕ
