-- ===== src/Attestation/Calendar.antt =====
-- src/checkpoint.rs: which texts are canonical times.
use bellbook.Prelude.{ℕ, ◌+◌, ◌/◌, ◌%◌, ◌≤◌, ◌≡◌, ◌⊎◌, true, ◌&&◌, [], ◌∷◌, leb, nat_ord, arith}
use bellbook.Base.Hash.{Bytes}
use bellbook.Attestation.{num, parse_digits, days_in_month, is_canonical_rfc3339_utc}

-- A moment of the calendar.
pub record Moment : Type 0 where
  pub year : ℕ
  pub month : ℕ
  pub day : ℕ
  pub hour : ℕ
  pub minute : ℕ
  pub second : ℕ

pub record IsMoment (t : Moment) : Type 0 where
  pub year : t.year ≤ 9999
  pub month : 1 ≤ t.month
  pub month_end : t.month ≤ 12
  pub day : 1 ≤ t.day
  pub day_end : t.day ≤ 31
  pub short_month : (t.month ≡ 4) ⊎ (t.month ≡ 6) ⊎ (t.month ≡ 9) ⊎ (t.month ≡ 11) → t.day ≤ 30
  pub february : t.month ≡ 2 → t.day ≤ 29
  pub leap_year :
      t.month ≡ 2 → t.day ≡ 29 → (t.year % 4 ≡ 0) × (t.year % 100 ≡ 0 → t.year % 400 ≡ 0)
  pub hour : t.hour ≤ 23
  pub minute : t.minute ≤ 59
  pub second : t.second ≤ 59

abbrev pub digit : ℕ → ℕ
digit n = 48 + n % 10

-- Its text.
abbrev pub written : Moment → Bytes
written t =
    digit (t.year / 1000)
    ∷ digit (t.year / 100)
    ∷ digit (t.year / 10)
    ∷ digit t.year
    ∷ b'-'
    ∷ digit (t.month / 10)
    ∷ digit t.month
    ∷ b'-'
    ∷ digit (t.day / 10)
    ∷ digit t.day
    ∷ b'T'
    ∷ digit (t.hour / 10)
    ∷ digit t.hour
    ∷ b':'
    ∷ digit (t.minute / 10)
    ∷ digit t.minute
    ∷ b':'
    ∷ digit (t.second / 10)
    ∷ digit t.second
    ∷ b'Z'
    ∷ []

two_digits : (n : ℕ) → n ≤ 99 → parse_digits 0 (digit (n / 10) ∷ digit n ∷ []) ≡ n
unfolding parse_digits
two_digits n h = omega arith

four_digits :
    (n : ℕ)
    → n ≤ 9999
    → parse_digits 0 (digit (n / 1000) ∷ digit (n / 100) ∷ digit (n / 10) ∷ digit n ∷ []) ≡ n
unfolding parse_digits
four_digits n h = omega arith

-- The calendar's last day of a month, by the code's table.
pub days_in_month-IsMoment : (t : Moment) → IsMoment t → t.day ≤ days_in_month t.year t.month
unfolding days_in_month
days_in_month-IsMoment t m =
    let month = m.month in
    let month_end = m.month_end in
    let day_end = m.day_end in
    let short : (t.month ≡ 4) ⊎ (t.month ≡ 6) ⊎ (t.month ≡ 9) ⊎ (t.month ≡ 11) → t.day ≤ 30 =
      m.short_month in
    let february : t.month ≡ 2 → t.day ≤ 29 = m.february in
    let leap : t.month ≡ 2 → t.day ≡ 29 → (t.year % 4 ≡ 0) × (t.year % 100 ≡ 0 → t.year % 400 ≡ 0) =
      m.leap_year in
    ground (arith, month, month_end, day_end, short, february, leap)

pub IsMoment-days_in_month :
    (t : Moment)
    → 1 ≤ t.month
    → t.month ≤ 12
    → t.day ≤ days_in_month t.year t.month
    → (t.day ≤ 31)
      × ((t.month ≡ 4) ⊎ (t.month ≡ 6) ⊎ (t.month ≡ 9) ⊎ (t.month ≡ 11) → t.day ≤ 30)
      × (t.month ≡ 2 → t.day ≤ 29)
      × (t.month ≡ 2 → t.day ≡ 29 → (t.year % 4 ≡ 0) × (t.year % 100 ≡ 0 → t.year % 400 ≡ 0))
unfolding days_in_month
IsMoment-days_in_month t month month_end h = (
  ground (arith, h),
  λ e. ground (arith, h, e),
  λ e. ground (arith, h, e),
  λ e d. (ground (arith, h, e, d), λ c. ground (arith, h, e, d, c)),
)

-- The moment that a text spells.
unfoldable pub read : Bytes → Moment
unfolding num
read s = record {
  year = num s 0 4;
  month = num s 5 7;
  day = num s 8 10;
  hour = num s 11 13;
  minute = num s 14 16;
  second = num s 17 19;
}

leb-true : {a b : ℕ} → a ≤ b → leb a b ≡ true
leb-true h = ground (arith, h)

digit_fits : (n : ℕ) → (leb b'0' (digit n) && leb (digit n) b'9') ≡ true
digit_fits n = ground arith

-- The text of a moment is canonical.
pub written-canonical : (t : Moment) → IsMoment t → is_canonical_rfc3339_utc (written t) ≡ true
unfolding is_canonical_rfc3339_utc num
written-canonical t m =
    let past = days_in_month-IsMoment t m in
    let year = four_digits t.year m.year in
    let month = two_digits t.month (omega (arith, m.month_end)) in
    let day = two_digits t.day (omega (arith, m.day_end)) in
    let hour = two_digits t.hour (omega (arith, m.hour)) in
    let minute = two_digits t.minute (omega (arith, m.minute)) in
    let second = two_digits t.second (omega (arith, m.second)) in
    rw
      (
        is_canonical_rfc3339_utc,
        year,
        month,
        day,
        hour,
        minute,
        second,
        digit_fits (t.year / 1000),
        digit_fits (t.year / 100),
        digit_fits (t.year / 10),
        digit_fits t.year,
        digit_fits (t.month / 10),
        digit_fits t.month,
        digit_fits (t.day / 10),
        digit_fits t.day,
        digit_fits (t.hour / 10),
        digit_fits t.hour,
        digit_fits (t.minute / 10),
        digit_fits t.minute,
        digit_fits (t.second / 10),
        digit_fits t.second,
        leb-true m.month,
        leb-true m.month_end,
        leb-true m.hour,
        leb-true m.minute,
        leb-true m.second,
        leb-true m.day,
      )
      (ground (arith, past, m.month, m.month_end))
