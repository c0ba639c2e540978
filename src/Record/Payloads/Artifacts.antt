-- ===== src/Record/Payloads/Artifacts.antt =====
-- src/record/payloads.rs: artifact identities and their well-formedness.
use bellbook.Prelude.{
  ℕ, ◌/◌, ◌%◌, String, Bool, true, false, ◌&&◌, ◌||◌, Option, none, some, List, [], ◌∷◌, leb, ◌==◌,
  string_ord, nat_ord, option_ord, triple_ord, all, length, Ordering,
}
use bellbook.Prelude.Map.{BTreeMap, get}
use bellbook.Base.Hash.{as_bytes}
use text.Mathlib.Text.{is_lt}

pub record ArtifactRef : Type 0 where
  pub scheme : String
  pub digest : String
  pub name : Option String

-- `ARTIFACT_SCHEMES`, with the digest lengths in bytes.
abbrev pub artifact_schemes : BTreeMap String ℕ
artifact_schemes =
    ("git-tree-sha1", 20)
    ∷ ("git-tree-sha256", 32)
    ∷ ("manifest-v1", 32)
    ∷ ("git-archive-tar-v1", 32)
    ∷ ("oci-image-manifest", 32)
    ∷ ("sha256-bytes", 32)
    ∷ []

abbrev pub artifact_digest_min_bytes : ℕ
artifact_digest_min_bytes = 20

abbrev pub artifact_digest_max_bytes : ℕ
artifact_digest_max_bytes = 64

-- `b'a'..=b'z' | b'0'..=b'9'`.
abbrev pub is_lower_alnum : ℕ → Bool
is_lower_alnum b = leb b'a' b && leb b b'z' || leb b'0' b && leb b b'9'

-- `b'0'..=b'9' | b'a'..=b'f'`.
abbrev pub is_lower_hex_digit : ℕ → Bool
is_lower_hex_digit b = leb b'0' b && leb b b'9' || leb b'a' b && leb b b'f'

unfoldable pub scheme_well_formed : List ℕ → Bool
scheme_well_formed [] = false
scheme_well_formed (b ∷ bytes) =
    is_lower_alnum b && all (λ c. is_lower_alnum c || c == b'.' || c == b'-') bytes

abbrev pub digest_length_fits : String → ℕ → Bool
digest_length_fits scheme digest_bytes = elim (get artifact_schemes scheme) [
  | some n ↦ digest_bytes == n
  | none ↦ leb artifact_digest_min_bytes digest_bytes && leb digest_bytes artifact_digest_max_bytes
]

unfoldable pub artifact_ref_well_formed : ArtifactRef → Bool
unfolding scheme_well_formed
artifact_ref_well_formed a =
    let digest = as_bytes a.digest in
    scheme_well_formed (as_bytes a.scheme)
    && length digest % 2 == 0
    && all is_lower_hex_digit digest
    && digest_length_fits a.scheme (length digest / 2)

-- The derived order of `ArtifactRef`: by scheme, digest, name.
abbrev pub artifact_cmp : ArtifactRef → ArtifactRef → Ordering
artifact_cmp a b =
    (triple_ord {A = String} {B = String} {C = Option String}).cmp (a.scheme, a.digest, a.name)
      (b.scheme, b.digest, b.name)

unfoldable pub artifacts_increase : List ArtifactRef → Bool
artifacts_increase [] = true
artifacts_increase (x ∷ []) = true
artifacts_increase (x ∷ y ∷ l) = is_lt (artifact_cmp x y) && artifacts_increase (y ∷ l)

unfoldable pub artifact_refs_well_formed : List ArtifactRef → Bool
unfolding artifact_ref_well_formed artifacts_increase
artifact_refs_well_formed list = all artifact_ref_well_formed list && artifacts_increase list
