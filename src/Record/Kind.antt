-- ===== src/Record/Kind.antt =====
-- src/record/kind.rs: the enums of the record model and the kind-to-author table.
use bellbook.Prelude.{
  Option, some, get_elem?, ap, ℕ, ◌≡◌, refl, Bool, true, false, List, [], ◌∷◌, Ord, ordinal_cmp,
  ordinal_iff, arith,
}

pub data Kind : Type 0 where
  request action response result summary approval capability usage refusal verdict plan : Kind
  retraction candidate evaluation selection requirement : Kind

pub data RefType : Type 0 where
  cause use_ require replace : RefType

pub data AuthorType : Type 0 where
  user provider system executor verifier : AuthorType

pub data VerdictResult : Type 0 where
  accept reject : VerdictResult

pub data ReasonCode : Type 0 where
  unknown_schema kind_schema_mismatch signature_missing signature_invalid : ReasonCode
  ref_unresolved ref_cross_space request_missing capability_missing capability_denied : ReasonCode
  approval_missing approval_expired action_closed replacement_invalid : ReasonCode
  external_receipt_required evidence_below_threshold refused invalid_payload : ReasonCode
  invalid_checkpoint author_role_invalid authority_ref_missing source_binding_invalid : ReasonCode
  lineage_invalid payload_ref_unresolved evaluation_invalid selection_invalid : ReasonCode
  reaffirmation_invalid artifact_ref_invalid requirement_invalid : ReasonCode

pub data CapabilityMode : Type 0 where
  auto ask deny : CapabilityMode

pub data ExecMode : Type 0 where
  internal external : ExecMode

pub data ResultStatus : Type 0 where
  success failure : ResultStatus

pub data SummaryType : Type 0 where
  procedure pattern lesson state_snapshot : SummaryType

pub data UsageOutcome : Type 0 where
  done not_done no_change : UsageOutcome

pub data RefusalTarget : Type 0 where
  action request verified_effect : RefusalTarget

-- The derived orders: by position in the declaration (`as u8`).
unfoldable pub kind_ordinal : Kind → ℕ
kind_ordinal Kind.request = 0
kind_ordinal Kind.action = 1
kind_ordinal Kind.response = 2
kind_ordinal Kind.result = 3
kind_ordinal Kind.summary = 4
kind_ordinal Kind.approval = 5
kind_ordinal Kind.capability = 6
kind_ordinal Kind.usage = 7
kind_ordinal Kind.refusal = 8
kind_ordinal Kind.verdict = 9
kind_ordinal Kind.plan = 10
kind_ordinal Kind.retraction = 11
kind_ordinal Kind.candidate = 12
kind_ordinal Kind.evaluation = 13
kind_ordinal Kind.selection = 14
kind_ordinal Kind.requirement = 15

pub kind_ordinal_inj : (a b : Kind) → kind_ordinal a ≡ kind_ordinal b → a ≡ b
unfolding kind_ordinal
kind_ordinal_inj a b h = ground arith

instance abbrev pub kind_ord : Ord Kind
kind_ord = record {
  cmp = ordinal_cmp kind_ordinal;
  cmp_iff = ordinal_iff kind_ordinal kind_ordinal_inj;
}

unfoldable pub ref_ordinal : RefType → ℕ
ref_ordinal RefType.cause = 0
ref_ordinal RefType.use_ = 1
ref_ordinal RefType.require = 2
ref_ordinal RefType.replace = 3

pub ref_ordinal_inj : (a b : RefType) → ref_ordinal a ≡ ref_ordinal b → a ≡ b
unfolding ref_ordinal
ref_ordinal_inj a b h = ground arith

instance abbrev pub ref_type_ord : Ord RefType
ref_type_ord = record {
  cmp = ordinal_cmp ref_ordinal;
  cmp_iff = ordinal_iff ref_ordinal ref_ordinal_inj;
}

unfoldable pub author_ordinal : AuthorType → ℕ
author_ordinal AuthorType.user = 0
author_ordinal AuthorType.provider = 1
author_ordinal AuthorType.system = 2
author_ordinal AuthorType.executor = 3
author_ordinal AuthorType.verifier = 4

pub author_ordinal_inj : (a b : AuthorType) → author_ordinal a ≡ author_ordinal b → a ≡ b
unfolding author_ordinal
author_ordinal_inj a b h = ground arith

instance abbrev pub author_type_ord : Ord AuthorType
author_type_ord = record {
  cmp = ordinal_cmp author_ordinal;
  cmp_iff = ordinal_iff author_ordinal author_ordinal_inj;
}

unfoldable pub summary_ordinal : SummaryType → ℕ
summary_ordinal SummaryType.procedure = 0
summary_ordinal SummaryType.pattern = 1
summary_ordinal SummaryType.lesson = 2
summary_ordinal SummaryType.state_snapshot = 3

pub summary_ordinal_inj : (a b : SummaryType) → summary_ordinal a ≡ summary_ordinal b → a ≡ b
unfolding summary_ordinal
summary_ordinal_inj a b h = ground arith

instance abbrev pub summary_type_ord : Ord SummaryType
summary_type_ord = record {
  cmp = ordinal_cmp summary_ordinal;
  cmp_iff = ordinal_iff summary_ordinal summary_ordinal_inj;
}

-- Which author types may produce records of each kind.
unfoldable pub allowed_author_types : Kind → List AuthorType
allowed_author_types Kind.request = AuthorType.user ∷ []
allowed_author_types Kind.action = AuthorType.provider ∷ []
allowed_author_types Kind.response = AuthorType.provider ∷ []
allowed_author_types Kind.result = AuthorType.executor ∷ []
allowed_author_types Kind.summary = AuthorType.provider ∷ []
allowed_author_types Kind.approval = AuthorType.user ∷ []
allowed_author_types Kind.capability = AuthorType.user ∷ AuthorType.system ∷ []
allowed_author_types Kind.usage = AuthorType.provider ∷ AuthorType.system ∷ []
allowed_author_types Kind.refusal = AuthorType.user ∷ AuthorType.system ∷ []
allowed_author_types Kind.verdict = AuthorType.verifier ∷ []
allowed_author_types Kind.plan = AuthorType.provider ∷ []
allowed_author_types Kind.retraction =
    AuthorType.user ∷ AuthorType.provider ∷ AuthorType.system ∷ []
allowed_author_types Kind.candidate =
    AuthorType.user ∷ AuthorType.provider ∷ AuthorType.executor ∷ AuthorType.system ∷ []
allowed_author_types Kind.evaluation =
    AuthorType.user ∷ AuthorType.provider ∷ AuthorType.executor ∷ AuthorType.system ∷ []
allowed_author_types Kind.selection = AuthorType.user ∷ AuthorType.provider ∷ AuthorType.system ∷ []
allowed_author_types Kind.requirement =
    AuthorType.user ∷ AuthorType.provider ∷ AuthorType.system ∷ []

unfoldable pub requires_registered_author : Kind → Bool
requires_registered_author Kind.verdict = false
requires_registered_author _ = true

unfoldable pub reason_ordinal : ReasonCode → ℕ
reason_ordinal ReasonCode.unknown_schema = 0
reason_ordinal ReasonCode.kind_schema_mismatch = 1
reason_ordinal ReasonCode.signature_missing = 2
reason_ordinal ReasonCode.signature_invalid = 3
reason_ordinal ReasonCode.ref_unresolved = 4
reason_ordinal ReasonCode.ref_cross_space = 5
reason_ordinal ReasonCode.request_missing = 6
reason_ordinal ReasonCode.capability_missing = 7
reason_ordinal ReasonCode.capability_denied = 8
reason_ordinal ReasonCode.approval_missing = 9
reason_ordinal ReasonCode.approval_expired = 10
reason_ordinal ReasonCode.action_closed = 11
reason_ordinal ReasonCode.replacement_invalid = 12
reason_ordinal ReasonCode.external_receipt_required = 13
reason_ordinal ReasonCode.evidence_below_threshold = 14
reason_ordinal ReasonCode.refused = 15
reason_ordinal ReasonCode.invalid_payload = 16
reason_ordinal ReasonCode.invalid_checkpoint = 17
reason_ordinal ReasonCode.author_role_invalid = 18
reason_ordinal ReasonCode.authority_ref_missing = 19
reason_ordinal ReasonCode.source_binding_invalid = 20
reason_ordinal ReasonCode.lineage_invalid = 21
reason_ordinal ReasonCode.payload_ref_unresolved = 22
reason_ordinal ReasonCode.evaluation_invalid = 23
reason_ordinal ReasonCode.selection_invalid = 24
reason_ordinal ReasonCode.reaffirmation_invalid = 25
reason_ordinal ReasonCode.artifact_ref_invalid = 26
reason_ordinal ReasonCode.requirement_invalid = 27

-- In the order of the declaration.
abbrev pub reason_codes : List ReasonCode
reason_codes =
    ReasonCode.unknown_schema ∷ ReasonCode.kind_schema_mismatch ∷ ReasonCode.signature_missing
    ∷ ReasonCode.signature_invalid ∷ ReasonCode.ref_unresolved ∷ ReasonCode.ref_cross_space
    ∷ ReasonCode.request_missing ∷ ReasonCode.capability_missing ∷ ReasonCode.capability_denied
    ∷ ReasonCode.approval_missing ∷ ReasonCode.approval_expired ∷ ReasonCode.action_closed
    ∷ ReasonCode.replacement_invalid ∷ ReasonCode.external_receipt_required
    ∷ ReasonCode.evidence_below_threshold ∷ ReasonCode.refused ∷ ReasonCode.invalid_payload
    ∷ ReasonCode.invalid_checkpoint ∷ ReasonCode.author_role_invalid
    ∷ ReasonCode.authority_ref_missing ∷ ReasonCode.source_binding_invalid
    ∷ ReasonCode.lineage_invalid ∷ ReasonCode.payload_ref_unresolved ∷ ReasonCode.evaluation_invalid
    ∷ ReasonCode.selection_invalid ∷ ReasonCode.reaffirmation_invalid
    ∷ ReasonCode.artifact_ref_invalid ∷ ReasonCode.requirement_invalid ∷ []

abbrev reason_of : ℕ → Option ReasonCode
reason_of i = get_elem? reason_codes i

reason_of-reason_ordinal : (a : ReasonCode) → reason_of (reason_ordinal a) ≡ some a
unfolding reason_ordinal
reason_of-reason_ordinal ReasonCode.unknown_schema = refl
reason_of-reason_ordinal ReasonCode.kind_schema_mismatch = refl
reason_of-reason_ordinal ReasonCode.signature_missing = refl
reason_of-reason_ordinal ReasonCode.signature_invalid = refl
reason_of-reason_ordinal ReasonCode.ref_unresolved = refl
reason_of-reason_ordinal ReasonCode.ref_cross_space = refl
reason_of-reason_ordinal ReasonCode.request_missing = refl
reason_of-reason_ordinal ReasonCode.capability_missing = refl
reason_of-reason_ordinal ReasonCode.capability_denied = refl
reason_of-reason_ordinal ReasonCode.approval_missing = refl
reason_of-reason_ordinal ReasonCode.approval_expired = refl
reason_of-reason_ordinal ReasonCode.action_closed = refl
reason_of-reason_ordinal ReasonCode.replacement_invalid = refl
reason_of-reason_ordinal ReasonCode.external_receipt_required = refl
reason_of-reason_ordinal ReasonCode.evidence_below_threshold = refl
reason_of-reason_ordinal ReasonCode.refused = refl
reason_of-reason_ordinal ReasonCode.invalid_payload = refl
reason_of-reason_ordinal ReasonCode.invalid_checkpoint = refl
reason_of-reason_ordinal ReasonCode.author_role_invalid = refl
reason_of-reason_ordinal ReasonCode.authority_ref_missing = refl
reason_of-reason_ordinal ReasonCode.source_binding_invalid = refl
reason_of-reason_ordinal ReasonCode.lineage_invalid = refl
reason_of-reason_ordinal ReasonCode.payload_ref_unresolved = refl
reason_of-reason_ordinal ReasonCode.evaluation_invalid = refl
reason_of-reason_ordinal ReasonCode.selection_invalid = refl
reason_of-reason_ordinal ReasonCode.reaffirmation_invalid = refl
reason_of-reason_ordinal ReasonCode.artifact_ref_invalid = refl
reason_of-reason_ordinal ReasonCode.requirement_invalid = refl

pub reason_ordinal_inj : (a b : ReasonCode) → reason_ordinal a ≡ reason_ordinal b → a ≡ b
reason_ordinal_inj a b h =
    cc (reason_of-reason_ordinal a, reason_of-reason_ordinal b, ap reason_of h)

instance abbrev pub reason_ord : Ord ReasonCode
reason_ord = record {
  cmp = ordinal_cmp reason_ordinal;
  cmp_iff = ordinal_iff reason_ordinal reason_ordinal_inj;
}

unfoldable pub result_ordinal : VerdictResult → ℕ
result_ordinal VerdictResult.accept = 0
result_ordinal VerdictResult.reject = 1

pub result_ordinal_inj : (a b : VerdictResult) → result_ordinal a ≡ result_ordinal b → a ≡ b
unfolding result_ordinal
result_ordinal_inj a b h = ground arith

instance abbrev pub verdict_result_ord : Ord VerdictResult
verdict_result_ord = record {
  cmp = ordinal_cmp result_ordinal;
  cmp_iff = ordinal_iff result_ordinal result_ordinal_inj;
}
