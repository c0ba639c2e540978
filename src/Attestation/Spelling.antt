-- ===== src/Attestation/Spelling.antt =====
-- src/checkpoint.rs: a canonical time spells a moment of the calendar.
use bellbook.Prelude.{
  ℕ, ◌/◌, ◌≤◌, ◌≡◌, refl, sym, Bool, true, ◌&&◌, List, [], ◌∷◌, ◌==◌, ==_iff, leb, nat_ord, arith,
  all, get_elem?, some, ap, ◌∙◌, ◌↔◌, zero, suc, length,
}
use bellbook.Base.Hash.{Bytes}
use bellbook.State.Equality.{last-eq}
use bellbook.Attestation.{
  byte, num, digit_at, separated, parse_digits, days_in_month, is_canonical_rfc3339_utc,
}
use bellbook.Attestation.Calendar.{
  Moment, IsMoment, digit, written, read, written-canonical, IsMoment-days_in_month,
}

abbrev digit_places : List ℕ
digit_places = 0 ∷ 1 ∷ 2 ∷ 3 ∷ 5 ∷ 6 ∷ 8 ∷ 9 ∷ 11 ∷ 12 ∷ 14 ∷ 15 ∷ 17 ∷ 18 ∷ []

Curried : ℕ → (Bytes → Type 0) → Type 0
Curried zero P = P []
Curried (suc n) P = (b : ℕ) → Curried n λ bs. P (b ∷ bs)

-- What holds of any `n` bytes holds of a text of that length.
of_length : (n : ℕ) (P : Bytes → Type 0) → Curried n P → (bs : Bytes) → length bs ≡ n → P bs
unfolding Curried
of_length zero P f [] e = f
of_length zero P f (b ∷ bs) e = absurd (omega (arith, e))
of_length (suc n) P f [] e = absurd (omega (arith, e))
of_length (suc n) P f (b ∷ bs) e = of_length n (λ l. P (b ∷ l)) (f b) bs (omega (arith, e))

Digit : ℕ → Type 0
Digit b = (leb b'0' b && leb b b'9') ≡ true

Digit-bounds : (b : ℕ) → Digit b → (48 ≤ b) × (b ≤ 57)
unfolding Digit
Digit-bounds b h = ground (arith, h)

two_digits_back :
    (a b : ℕ)
    → Digit a
    → Digit b
    → (n : ℕ) → n ≡ parse_digits 0 (a ∷ b ∷ [])
    → (a ≡ digit (n / 10)) × (b ≡ digit n)
unfolding parse_digits
two_digits_back a b ha hb n e =
    let la = Digit-bounds a ha in
    let lb = Digit-bounds b hb in
    (omega (arith, la.0, la.1, lb.0, lb.1, e), omega (arith, la.0, la.1, lb.0, lb.1, e))

four_digits_back :
    (a b c d : ℕ)
    → Digit a
    → Digit b
    → Digit c
    → Digit d
    → (n : ℕ) → n ≡ parse_digits 0 (a ∷ b ∷ c ∷ d ∷ [])
    → (n ≤ 9999)
      × (a ≡ digit (n / 1000))
      × (b ≡ digit (n / 100))
      × (c ≡ digit (n / 10))
      × (d ≡ digit n)
unfolding parse_digits
four_digits_back a b c d ha hb hc hd n e =
    let la = Digit-bounds a ha in
    let lb = Digit-bounds b hb in
    let lc = Digit-bounds c hc in
    let ld = Digit-bounds d hd in
    (
      omega (arith, la.1, lb.1, lc.1, ld.1, e),
      omega (arith, la.0, la.1, lb.0, lb.1, lc.0, lc.1, ld.0, ld.1, e),
      omega (arith, la.0, la.1, lb.0, lb.1, lc.0, lc.1, ld.0, ld.1, e),
      omega (arith, la.0, la.1, lb.0, lb.1, lc.0, lc.1, ld.0, ld.1, e),
      omega (arith, la.0, la.1, lb.0, lb.1, lc.0, lc.1, ld.0, ld.1, e),
    )

all-pick :
    {A : Type 0} (f : A → Bool) (l : List A) (i : ℕ) (x : A)
    → all f l ≡ true
    → get_elem? l i ≡ some x
    → f x ≡ true
all-pick f [] i x h e = absurd (cc e)
all-pick f (y ∷ l) zero x h e = let same : y ≡ x = cc e in ap f (sym same) ∙ ground (arith, h)
all-pick f (y ∷ l) (suc i) x h e = all-pick f l i x (ground (arith, h)) e

-- A text of canonical form is its moment's text.
IsSpelled : Bytes → Type 0
IsSpelled s =
    separated s ≡ true
    → all (digit_at s) digit_places ≡ true
    → ((read s).year ≤ 9999) × (s ≡ written (read s))

spelled : Curried 20 IsSpelled
unfolding Curried Digit IsSpelled read num
spelled b0 b1 b2 b3 b4 b5 b6 b7 b8 b9 b10 b11 b12 b13 b14 b15 b16 b17 b18 b19 marks digits =
    let s =
      b0 ∷ b1 ∷ b2 ∷ b3 ∷ b4 ∷ b5 ∷ b6 ∷ b7 ∷ b8 ∷ b9 ∷ b10 ∷ b11 ∷ b12 ∷ b13 ∷ b14 ∷ b15 ∷ b16
      ∷ b17 ∷ b18 ∷ b19 ∷ [] in
    let (m5, e19) = last-eq _ b19 b'Z' marks in
    let (m4, e16) = last-eq _ b16 b':' m5 in
    let (m3, e13) = last-eq _ b13 b':' m4 in
    let (m2, e10) = last-eq _ b10 b'T' m3 in
    let (m1, e7) = last-eq _ b7 b'-' m2 in
    let (m0, e4) = last-eq true b4 b'-' m1 in
    let (small, y0, y1, y2, y3) =
      four_digits_back b0 b1 b2 b3 (place s 0 0 digits refl) (place s 1 1 digits refl)
        (place s 2 2 digits refl) (place s 3 3 digits refl) _ refl in
    let (o0, o1) =
      two_digits_back b5 b6 (place s 4 5 digits refl) (place s 5 6 digits refl) _ refl in
    let (d0, d1) =
      two_digits_back b8 b9 (place s 6 8 digits refl) (place s 7 9 digits refl) _ refl in
    let (h0, h1) =
      two_digits_back b11 b12 (place s 8 11 digits refl) (place s 9 12 digits refl) _ refl in
    let (n0, n1) =
      two_digits_back b14 b15 (place s 10 14 digits refl) (place s 11 15 digits refl) _ refl in
    let (s0, s1) =
      two_digits_back b17 b18 (place s 12 17 digits refl) (place s 13 18 digits refl) _ refl in
    (
      small,
      λ i.
          y0 i
          ∷ y1 i
          ∷ y2 i
          ∷ y3 i
          ∷ e4 i
          ∷ o0 i
          ∷ o1 i
          ∷ e7 i
          ∷ d0 i
          ∷ d1 i
          ∷ e10 i
          ∷ h0 i
          ∷ h1 i
          ∷ e13 i
          ∷ n0 i
          ∷ n1 i
          ∷ e16 i
          ∷ s0 i
          ∷ s1 i
          ∷ e19 i
          ∷ [],
    )
  where
    place :
        (s : Bytes) (i x : ℕ)
        → all (digit_at s) digit_places ≡ true
        → get_elem? digit_places i ≡ some x
        → digit_at s x ≡ true
    place s i x = all-pick (digit_at s) digit_places i x

both : (a b : Bool) → (a && b) ≡ true → (a ≡ true) × (b ≡ true)
both a b h = ground (arith, h)

leb-le : {a b : ℕ} → leb a b ≡ true → a ≤ b
leb-le h = ground (arith, h)

canonical-IsMoment :
    (s : Bytes) → is_canonical_rfc3339_utc s ≡ true → IsMoment (read s) × (s ≡ written (read s))
unfolding is_canonical_rfc3339_utc IsSpelled read
canonical-IsMoment s h =
    let (h8, day_end) = both _ (leb (read s).day (days_in_month (read s).year (read s).month)) h in
    let (h7, day) = both _ (leb 1 (read s).day) h8 in
    let (h6, second) = both _ (leb (read s).second 59) h7 in
    let (h5, minute) = both _ (leb (read s).minute 59) h6 in
    let (h4, hour) = both _ (leb (read s).hour 23) h5 in
    let (h3, month_end) = both _ (leb (read s).month 12) h4 in
    let (h2, month) = both _ (leb 1 (read s).month) h3 in
    let (marks, digits) = both (separated s) (all (digit_at s) digit_places) h2 in
    let days = IsMoment-days_in_month (read s) (leb-le month) (leb-le month_end) (leb-le day_end) in
    let long = marked-length s marks in
    let (year, text) = of_length 20 IsSpelled spelled s long marks digits in
    (
      record {
        year = year;
        month = leb-le month;
        month_end = leb-le month_end;
        day = leb-le day;
        day_end = days.0;
        short_month = days.1;
        february = days.2;
        leap_year = days.3;
        hour = leb-le hour;
        minute = leb-le minute;
        second = leb-le second;
      },
      text,
    )
  where
    marked-length : (s : Bytes) → separated s ≡ true → length s ≡ 20
    marked-length s marks =
        let (m5, e19) = both _ (byte s 19 == b'Z') marks in
        let (m4, e16) = both _ (byte s 16 == b':') m5 in
        let (m3, e13) = both _ (byte s 13 == b':') m4 in
        let (m2, e10) = both _ (byte s 10 == b'T') m3 in
        let (m1, e7) = both _ (byte s 7 == b'-') m2 in
        let (m0, e4) = both (length s == 20) (byte s 4 == b'-') m1 in (==_iff (length s) 20).0 m0

-- A text is a canonical time exactly if it is the text of a moment of the calendar, of a year of at
-- most four digits, a day that its month has and no leap second.
pub is_canonical_rfc3339_utc-IsMoment :
    (s : Bytes)
    → (is_canonical_rfc3339_utc s ≡ true) ↔ ((t : Moment) × IsMoment t × (s ≡ written t))
is_canonical_rfc3339_utc-IsMoment s = (
  λ h. (read s, (canonical-IsMoment s h).0, (canonical-IsMoment s h).1),
  λ (t, valid, text). ap is_canonical_rfc3339_utc text ∙ written-canonical t valid,
)
