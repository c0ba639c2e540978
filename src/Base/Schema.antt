-- ===== src/Base/Schema.antt =====
-- src/base/schema.rs: the frozen schema names and their ids. The digest is passed as an argument.
use bellbook.Prelude.{
  String, Option, none, some, List, [], ◌∷◌, ◌==◌, nat_ord, string_ord, find, if◌then◌else◌,
}
use bellbook.Base.Hash.{Bytes, Hash256, as_bytes}

unfoldable pub schema_id : (Bytes → Hash256) → String → Hash256
schema_id sha256 name = sha256 (as_bytes name)

abbrev pub schema_request : String
schema_request = "bellbook.request.v1"

abbrev pub schema_action : String
schema_action = "bellbook.action.v1"

abbrev pub schema_response : String
schema_response = "bellbook.response.v1"

abbrev pub schema_result : String
schema_result = "bellbook.result.v1"

abbrev pub schema_result_external : String
schema_result_external = "bellbook.result.external_receipt.v1"

abbrev pub schema_result_effect_confirmation : String
schema_result_effect_confirmation = "bellbook.result.effect_confirmation.v1"

abbrev pub schema_capability : String
schema_capability = "bellbook.capability.v1"

abbrev pub schema_approval : String
schema_approval = "bellbook.approval.v1"

abbrev pub schema_summary : String
schema_summary = "bellbook.summary.v1"

abbrev pub schema_refusal : String
schema_refusal = "bellbook.refusal.v1"

abbrev pub schema_usage : String
schema_usage = "bellbook.usage.v1"

abbrev pub schema_verdict : String
schema_verdict = "bellbook.verdict.v1"

abbrev pub schema_plan : String
schema_plan = "bellbook.plan.v1"

abbrev pub schema_retraction : String
schema_retraction = "bellbook.retraction.v1"

abbrev pub schema_candidate : String
schema_candidate = "bellbook.candidate.v1"

abbrev pub schema_evaluation : String
schema_evaluation = "bellbook.evaluation.v1"

abbrev pub schema_selection : String
schema_selection = "bellbook.selection.v1"

abbrev pub schema_requirement : String
schema_requirement = "bellbook.requirement.v1"

abbrev pub schema_evaluation_v2 : String
schema_evaluation_v2 = "bellbook.evaluation.v2"

abbrev pub schema_evaluation_attested : String
schema_evaluation_attested = "bellbook.evaluation.attested.v1"

-- The set of spec epoch 0.3, and all of the current one.
abbrev pub schemas_v03 : List String
schemas_v03 =
    schema_request ∷ schema_action ∷ schema_response ∷ schema_result ∷ schema_result_external
    ∷ schema_result_effect_confirmation ∷ schema_capability ∷ schema_approval ∷ schema_summary
    ∷ schema_refusal ∷ schema_usage ∷ schema_verdict ∷ schema_plan ∷ schema_retraction
    ∷ schema_candidate ∷ schema_evaluation ∷ schema_selection ∷ []

abbrev pub all_schemas : List String
all_schemas =
    schema_request ∷ schema_action ∷ schema_response ∷ schema_result ∷ schema_result_external
    ∷ schema_result_effect_confirmation ∷ schema_capability ∷ schema_approval ∷ schema_summary
    ∷ schema_refusal ∷ schema_usage ∷ schema_verdict ∷ schema_plan ∷ schema_retraction
    ∷ schema_candidate ∷ schema_evaluation ∷ schema_selection ∷ schema_requirement
    ∷ schema_evaluation_v2 ∷ schema_evaluation_attested ∷ []

unfoldable pub schema_name_for_id : (Bytes → Hash256) → Hash256 → Option String
unfolding schema_id
schema_name_for_id sha256 id = find (λ n. schema_id sha256 n == id) all_schemas

unfoldable pub schemas_for_epoch : String → Option (List String)
schemas_for_epoch spec_version =
    if spec_version == "0.3"
    then some schemas_v03
    else if spec_version == "0.4"
    then some all_schemas
    else none
