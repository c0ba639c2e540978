-- ===== src/Record/Payloads/Evolution.antt =====
-- src/record/payloads.rs: candidates, evaluations and selections, and the bounds that decoding
-- checks on them (the `TryFrom` impls).
use bellbook.Prelude.{ℕ, ℤ, String, Bool, not, ◌&&◌, Option, List, leb, ltb, ◌==◌, string_ord}
use bellbook.Base.Hash.{Hash256}
use bellbook.Record.Refs.{RecordId}
use bellbook.Record.Payloads.Artifacts.{ArtifactRef}

pub data SourceAlgo : Type 0 where
  sha1 sha256 : SourceAlgo

pub data BindingMode : Type 0 where
  reported manifest : BindingMode

pub record GitSource : Type 0 where
  pub algo : SourceAlgo
  pub tree : String
  pub commit : Option String

pub record SourceBinding : Type 0 where
  pub git : GitSource
  pub manifest_hash : Option Hash256
  pub binding : BindingMode

pub data CandidateBasis : Type 0 where
  root continuation derivation : CandidateBasis

pub record CandidateData : Type 0 where
  pub source : SourceBinding
  pub basis : CandidateBasis
  pub parent : Option RecordId
  pub note : Option String
  pub artifacts : Option (List ArtifactRef)

pub record ScoredValue : Type 0 where
  pub value : ℤ
  pub scale : ℕ

abbrev pub max_safe_integer_i64 : ℕ
max_safe_integer_i64 = 9_007_199_254_740_991

abbrev pub max_score_scale : ℕ
max_score_scale = 12

-- `(-MAX..=MAX).contains(&value)`.
abbrev pub in_safe_range : ℤ → Bool
in_safe_range (ℤ.pos n) = leb n max_safe_integer_i64
in_safe_range (ℤ.negsuc n) = ltb n max_safe_integer_i64

-- The `TryFrom` impls, as the test that a raw value passes.
unfoldable pub scored_value_valid : ScoredValue → Bool
scored_value_valid s = in_safe_range s.value && leb s.scale max_score_scale

pub data EvaluationOutcome : Type 0 where
  passed failed : EvaluationOutcome
  scored : ScoredValue → EvaluationOutcome

pub record EvaluationData : Type 0 where
  pub candidate : RecordId
  pub criterion : String
  pub procedure : Option String
  pub outcome : EvaluationOutcome

unfoldable pub evaluation_valid : EvaluationOutcome → String → Bool
unfolding scored_value_valid
evaluation_valid (EvaluationOutcome.scored s) criterion =
    scored_value_valid s && not (criterion == "")
evaluation_valid _ criterion = not (criterion == "")

pub data Basis : Type 0 where
  recomputed declared : Basis

pub record DeciderBinding : Type 0 where
  pub id : String
  pub version : Option String
  pub procedure_hash : Option Hash256
  pub input_hash : Option Hash256

pub data EvaluationOutcomeV2 : Type 0 where
  passed failed : EvaluationOutcomeV2
  scored : ScoredValue → EvaluationOutcomeV2
  blocked insufficient stale not_run : EvaluationOutcomeV2

pub record EvaluationDataV2 : Type 0 where
  pub candidate : RecordId
  pub criterion : String
  pub procedure : Option String
  pub outcome : EvaluationOutcomeV2
  pub evaluator : DeciderBinding
  pub basis : Basis
  pub evidence : List ArtifactRef
  pub requirements : List RecordId

unfoldable pub evaluation_v2_valid : EvaluationOutcomeV2 → String → Bool
unfolding scored_value_valid
evaluation_v2_valid (EvaluationOutcomeV2.scored s) criterion =
    scored_value_valid s && not (criterion == "")
evaluation_v2_valid _ criterion = not (criterion == "")

pub data SelectionOutcome : Type 0 where
  selected : List RecordId → SelectionOutcome
  none : SelectionOutcome

pub record SelectionData : Type 0 where
  pub objective : String
  pub considered : List RecordId
  pub outcome : SelectionOutcome
  pub rationale : Option String

unfoldable pub selection_valid : SelectionData → Bool
selection_valid d = not (d.objective == "")
