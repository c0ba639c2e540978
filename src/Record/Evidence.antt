-- ===== src/Record/Evidence.antt =====
-- src/record/evidence.rs: the evidence lattice and weakest-link derivation.
pub mod Bounds
use bellbook.Prelude.{
  ℕ, String, ◌≤◌, ◌≡◌, Bool, Option, none, some, List, [], ◌∷◌, leb, ◌==◌, string_ord,
  if◌then◌else◌, Ord, ordinal_cmp, ordinal_iff, arith, unwrap_or,
}
use bellbook.Prelude.Map.{BTreeMap, get}
use bellbook.Base.Hash.{Bytes, Hash256}
use bellbook.Base.Schema.{
  schema_name_for_id, schema_request, schema_action, schema_response, schema_result,
  schema_result_external, schema_result_effect_confirmation, schema_capability, schema_approval,
  schema_summary, schema_refusal, schema_usage, schema_verdict, schema_plan, schema_retraction,
  schema_candidate, schema_evaluation, schema_selection, schema_requirement, schema_evaluation_v2,
  schema_evaluation_attested,
}

-- From the strongest to the weakest.
pub data Evidence : Type 0 where
  deterministic verified reported inferred assumed : Evidence

unfoldable pub evidence_ordinal : Evidence → ℕ
evidence_ordinal Evidence.deterministic = 0
evidence_ordinal Evidence.verified = 1
evidence_ordinal Evidence.reported = 2
evidence_ordinal Evidence.inferred = 3
evidence_ordinal Evidence.assumed = 4

pub evidence_ordinal_inj : (a b : Evidence) → evidence_ordinal a ≡ evidence_ordinal b → a ≡ b
unfolding evidence_ordinal
evidence_ordinal_inj a b h = ground arith

instance abbrev pub evidence_ord : Ord Evidence
evidence_ord = record {
  cmp = ordinal_cmp evidence_ordinal;
  cmp_iff = ordinal_iff evidence_ordinal evidence_ordinal_inj;
}

-- The arms of the match in `base_evidence`.
abbrev base_classes : BTreeMap String Evidence
base_classes =
    (schema_request, Evidence.reported)
    ∷ (schema_action, Evidence.reported)
    ∷ (schema_response, Evidence.reported)
    ∷ (schema_result, Evidence.reported)
    ∷ (schema_result_external, Evidence.verified)
    ∷ (schema_result_effect_confirmation, Evidence.reported)
    ∷ (schema_capability, Evidence.reported)
    ∷ (schema_approval, Evidence.reported)
    ∷ (schema_summary, Evidence.inferred)
    ∷ (schema_refusal, Evidence.reported)
    ∷ (schema_usage, Evidence.reported)
    ∷ (schema_verdict, Evidence.deterministic)
    ∷ (schema_plan, Evidence.inferred)
    ∷ (schema_retraction, Evidence.reported)
    ∷ (schema_candidate, Evidence.reported)
    ∷ (schema_evaluation, Evidence.reported)
    ∷ (schema_selection, Evidence.inferred)
    ∷ (schema_requirement, Evidence.reported)
    ∷ (schema_evaluation_v2, Evidence.reported)
    ∷ (schema_evaluation_attested, Evidence.verified)
    ∷ []

unfoldable pub base_evidence : (Bytes → Hash256) → Hash256 → Evidence
unfolding schema_name_for_id get
base_evidence sha256 schema = elim (schema_name_for_id sha256 schema) [
  | none ↦ Evidence.assumed
  | some name ↦ unwrap_or (get base_classes name) Evidence.assumed
]

-- `Ord::max`: of equals the second.
unfoldable pub weaker : Evidence → Evidence → Evidence
unfolding evidence_ordinal
weaker a b = if leb (evidence_ordinal a) (evidence_ordinal b) then b else a

unfoldable pub weakest : List Evidence → Evidence
unfolding weaker
weakest [] = Evidence.deterministic
weakest (e ∷ []) = e
weakest (e ∷ f ∷ es) = weakest (weaker e f ∷ es)

unfoldable pub derive_evidence : (Bytes → Hash256) → Hash256 → List Evidence → Evidence
unfolding base_evidence weakest
derive_evidence sha256 schema [] = base_evidence sha256 schema
derive_evidence sha256 schema (e ∷ es) = weakest (base_evidence sha256 schema ∷ e ∷ es)
