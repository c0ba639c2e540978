-- ===== src/Verify/Rules.antt =====
-- src/verify/rules.rs: the rule configuration.
pub mod AuthorKeys
use bellbook.Prelude.{ℕ, String, Bool, true, false, List, [], ◌∷◌, nat_ord, string_ord}
use bellbook.Prelude.Map.{BTreeMap, BTreeSet, put, insert}
use bellbook.Base.Hash.{Bytes, Hash256}
use bellbook.Base.Schema.{
  schema_id, schema_request, schema_action, schema_response, schema_result, schema_result_external,
  schema_result_effect_confirmation, schema_capability, schema_approval, schema_summary,
  schema_refusal, schema_usage, schema_verdict, schema_plan, schema_retraction, schema_candidate,
  schema_evaluation, schema_selection, schema_requirement, schema_evaluation_v2,
  schema_evaluation_attested,
}
use bellbook.Record.Kind.{kind_ord, Kind, AuthorType, SummaryType}
use bellbook.Record.Evidence.{Evidence}
use bellbook.Record.Envelope.{SpaceId}
use bellbook.Record.Payloads.{ActorId, BindingMode}

-- An Ed25519 public key, as the number that its 32 bytes spell.
abbrev pub PublicKeyBytes : Type 0
PublicKeyBytes = Hash256

pub record VerifierRules : Type 0 where
  pub space : SpaceId
  pub kind_schema_map : BTreeMap Hash256 Kind
  pub signature_required_kinds : BTreeSet Kind
  pub author_keys : BTreeMap ActorId (BTreeSet PublicKeyBytes)
  pub author_roles : BTreeMap ActorId AuthorType
  pub admin_retraction_actors : BTreeSet ActorId
  pub allowed_summary_types : BTreeSet SummaryType
  pub evidence_thresholds : BTreeMap Kind Evidence
  pub max_context_records : ℕ
  pub min_binding : BindingMode
  pub selection_requires_evaluation : Bool
  pub reaffirmation_actors : BTreeSet ActorId
  pub max_considered : ℕ
  pub selection_requires_approval : Bool
  pub reject_compromised_continuation : Bool

-- The kind that each frozen schema belongs to, in the order of the insertions.
abbrev frozen_kinds : List (String × Kind)
frozen_kinds =
    (schema_request, Kind.request)
    ∷ (schema_action, Kind.action)
    ∷ (schema_response, Kind.response)
    ∷ (schema_result, Kind.result)
    ∷ (schema_result_external, Kind.result)
    ∷ (schema_result_effect_confirmation, Kind.result)
    ∷ (schema_capability, Kind.capability)
    ∷ (schema_approval, Kind.approval)
    ∷ (schema_summary, Kind.summary)
    ∷ (schema_refusal, Kind.refusal)
    ∷ (schema_usage, Kind.usage)
    ∷ (schema_verdict, Kind.verdict)
    ∷ (schema_plan, Kind.plan)
    ∷ (schema_retraction, Kind.retraction)
    ∷ (schema_candidate, Kind.candidate)
    ∷ (schema_evaluation, Kind.evaluation)
    ∷ (schema_selection, Kind.selection)
    ∷ (schema_requirement, Kind.requirement)
    ∷ (schema_evaluation_v2, Kind.evaluation)
    ∷ (schema_evaluation_attested, Kind.evaluation)
    ∷ []

-- Each name is inserted under its id.
unfoldable pub put_all :
    (Bytes → Hash256) → List (String × Kind) → BTreeMap Hash256 Kind → BTreeMap Hash256 Kind
unfolding schema_id put
put_all sha256 [] m = m
put_all sha256 ((name, kind) ∷ rest) m = put_all sha256 rest (put (schema_id sha256 name) kind m)

unfoldable pub frozen_kind_schema_map : (Bytes → Hash256) → BTreeMap Hash256 Kind
unfolding put_all
frozen_kind_schema_map sha256 = put_all sha256 frozen_kinds []

abbrev pub all_summary_types : BTreeSet SummaryType
all_summary_types =
    SummaryType.procedure ∷ SummaryType.pattern ∷ SummaryType.lesson ∷ SummaryType.state_snapshot
    ∷ []

-- `VerifierRules::new`.
unfoldable pub new_rules : (Bytes → Hash256) → SpaceId → ℕ → VerifierRules
unfolding frozen_kind_schema_map
new_rules sha256 space max_context_records = record {
  space = space;
  kind_schema_map = frozen_kind_schema_map sha256;
  signature_required_kinds = [];
  author_keys = [];
  author_roles = [];
  admin_retraction_actors = [];
  allowed_summary_types = all_summary_types;
  evidence_thresholds = [];
  max_context_records = max_context_records;
  min_binding = BindingMode.reported;
  selection_requires_evaluation = true;
  reaffirmation_actors = [];
  max_considered = 4096;
  selection_requires_approval = false;
  reject_compromised_continuation = false;
}

unfoldable pub with_author_role : VerifierRules → ActorId → AuthorType → VerifierRules
with_author_role rules actor role = record rules {
  author_roles = put actor role rules.author_roles;
}

unfoldable pub with_admin_retraction_actor : VerifierRules → ActorId → VerifierRules
with_admin_retraction_actor rules actor = record rules {
  admin_retraction_actors = insert actor rules.admin_retraction_actors;
}

unfoldable pub with_evidence_threshold : VerifierRules → Kind → Evidence → VerifierRules
unfolding put
with_evidence_threshold rules kind threshold = record rules {
  evidence_thresholds = put kind threshold rules.evidence_thresholds;
}

unfoldable pub with_baseline_thresholds : VerifierRules → VerifierRules
unfolding with_evidence_threshold
with_baseline_thresholds rules =
    let candidate = with_evidence_threshold rules Kind.candidate Evidence.reported in
    let evaluation = with_evidence_threshold candidate Kind.evaluation Evidence.reported in
    with_evidence_threshold evaluation Kind.selection Evidence.inferred

unfoldable pub with_reaffirmation_actor : VerifierRules → ActorId → VerifierRules
unfolding insert
with_reaffirmation_actor rules actor = record rules {
  reaffirmation_actors = insert actor rules.reaffirmation_actors;
}
