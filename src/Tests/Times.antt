-- ===== src/Tests/Times.antt =====
-- A leap day is a canonical time.
use bellbook.Prelude.{◌≡◌, true, [], ◌∷◌, ◌↔◌}
use bellbook.Base.Hash.{Bytes}
use bellbook.Attestation.{is_canonical_rfc3339_utc}
use bellbook.Attestation.Calendar.{Moment, IsMoment, written}
use bellbook.Attestation.Spelling.{is_canonical_rfc3339_utc-IsMoment}

abbrev leap_day : Bytes
leap_day =
    b'2' ∷ b'0' ∷ b'2' ∷ b'4' ∷ b'-' ∷ b'0' ∷ b'2' ∷ b'-' ∷ b'2' ∷ b'9' ∷ b'T' ∷ b'2' ∷ b'3' ∷ b':'
    ∷ b'5' ∷ b'9' ∷ b':' ∷ b'5' ∷ b'9' ∷ b'Z' ∷ []

is_canonical_rfc3339_utc-IsMoment_example :
    (is_canonical_rfc3339_utc leap_day ≡ true)
    ↔ ((t : Moment) × IsMoment t × (leap_day ≡ written t))
is_canonical_rfc3339_utc-IsMoment_example = is_canonical_rfc3339_utc-IsMoment leap_day
