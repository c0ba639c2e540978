-- ===== src/Attestation.antt =====
-- src/checkpoint.rs: the head attestation, and the one spelling of its time, `YYYY-MM-DDTHH:MM:SSZ`.
pub mod Calendar
pub mod Spelling
use bellbook.Prelude.{
  ℕ, ◌+◌, ◌-◌, ◌*◌, ◌%◌, Bool, true, false, ◌&&◌, ◌||◌, not, List, [], ◌∷◌, ◌==◌, leb, nat_ord,
  Result, ok, err, ◌>>=◌, if◌then◌else◌, String, unwrap_or, get_elem?, length, map, all, take, drop,
}
use bellbook.Base.Hash.{Bytes, Hash256, sha256_concat_ids}
use bellbook.Record.Envelope.{Record}
use bellbook.Platform.{Platform}

-- `b[i]`, which is only read inside the text.
abbrev pub byte : Bytes → ℕ → ℕ
byte b i = unwrap_or (get_elem? b i) 0

abbrev pub digit_at : Bytes → ℕ → Bool
digit_at b i = leb b'0' (byte b i) && leb (byte b i) b'9'

-- `s[from..to].parse()`, of digits.
unfoldable pub parse_digits : ℕ → Bytes → ℕ
parse_digits n [] = n
parse_digits n (b ∷ bs) = parse_digits (10 * n + (b - b'0')) bs

unfoldable pub num : Bytes → ℕ → ℕ → ℕ
unfolding parse_digits
num s from to = parse_digits 0 (take (to - from) (drop from s))

unfoldable pub is_leap : ℕ → Bool
is_leap year = (year % 4 == 0 && not (year % 100 == 0)) || year % 400 == 0

unfoldable pub days_in_month : ℕ → ℕ → ℕ
unfolding is_leap
days_in_month year month =
    if month == 2
    then (if is_leap year then 29 else 28)
    else if month == 4 || month == 6 || month == 9 || month == 11
    then 30
    else if leb 1 month && leb month 12
    then 31
    else 0

abbrev pub separated : Bytes → Bool
separated b =
    length b == 20
    && byte b 4 == b'-'
    && byte b 7 == b'-'
    && byte b 10 == b'T'
    && byte b 13 == b':'
    && byte b 16 == b':'
    && byte b 19 == b'Z'

unfoldable pub is_canonical_rfc3339_utc : Bytes → Bool
unfolding days_in_month num
is_canonical_rfc3339_utc s =
    let year = num s 0 4 in
    let month = num s 5 7 in
    let day = num s 8 10 in
    separated s
    && all (digit_at s) (0 ∷ 1 ∷ 2 ∷ 3 ∷ 5 ∷ 6 ∷ 8 ∷ 9 ∷ 11 ∷ 12 ∷ 14 ∷ 15 ∷ 17 ∷ 18 ∷ [])
    && leb 1 month
    && leb month 12
    && leb (num s 11 13) 23
    && leb (num s 14 16) 59
    && leb (num s 17 19) 59
    && leb 1 day
    && leb day (days_in_month year month)

pub data InvalidTimestamp : Type 0 where
  invalid_timestamp : InvalidTimestamp

pub record HeadAttestation : Type 0 where
  pub head_hash : Hash256
  pub record_count : ℕ
  pub spec_version : String
  pub timestamp : Bytes

-- The time is the text itself, once it has passed.
unfoldable pub canonical_timestamp : Bytes → Result Bytes InvalidTimestamp
unfolding is_canonical_rfc3339_utc
canonical_timestamp value =
    if is_canonical_rfc3339_utc value then ok value else err InvalidTimestamp.invalid_timestamp

unfoldable pub head_attestation :
    Platform → List Record → Bytes → Result HeadAttestation InvalidTimestamp
unfolding canonical_timestamp sha256_concat_ids
head_attestation p records timestamp = do
  canonical ← canonical_timestamp timestamp
  ok record {
    head_hash = sha256_concat_ids p.sha256 (map (λ r. r.id) records);
    record_count = length records;
    spec_version = "0.4";
    timestamp = canonical;
  }
