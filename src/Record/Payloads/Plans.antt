-- ===== src/Record/Payloads/Plans.antt =====
-- src/record/payloads.rs: plans and their tasks.
use bellbook.Prelude.{String, Option, List}
use bellbook.Record.Refs.{RecordId}

pub data PlanStatus : Type 0 where
  running completed abandoned : PlanStatus

pub data TaskStatus : Type 0 where
  pending running done failed skipped : TaskStatus

pub data FailurePolicy : Type 0 where
  continue_ ask_user abort : FailurePolicy

pub data PlanTaskKind : Type 0 where
  generic inspect search_ extract verify write summarize : PlanTaskKind

pub data TaskDoneWhen : Type 0 where
  tool_success non_empty_result content_retrieved final_response : TaskDoneWhen

pub record PlanTask : Type 0 where
  pub id : String
  pub description : String
  pub kind : PlanTaskKind
  pub tool_hint : Option String
  pub inputs_from : List String
  pub produces : Option String
  pub done_when : TaskDoneWhen
  pub status : TaskStatus
  pub result_record_id : Option RecordId
  pub depends_on : List String
  pub on_failure : FailurePolicy

pub record PlanData : Type 0 where
  pub request_id : RecordId
  pub tasks : List PlanTask
  pub status : PlanStatus
