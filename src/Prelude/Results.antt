-- ===== src/Prelude/Results.antt =====
-- Rust's `Result`, with `?` as bind.
use mathlib.Core.Path.{◌≡◌, refl}
use mathlib.Core.Logic.{◌⊎◌, inl, inr}
use mathlib.Core.Bool.{Bool, true, false}
use native.Mathlib.Omega.{arith}
use mathlib.Core.Option.{Option, none, some}

pub data Result {ℓ} (A : Type ℓ) (E : Type 0) : Type ℓ where
  ok : A → Result A E
  err : E → Result A E

-- `if !test { return Err(e) }` and `option.ok_or(e)?`.
abbrev pub guard : {E : Type 0} → Bool → E → Result (Unit {0}) E
guard false e = err e
guard true e = ok tt

pub guard-eq-ok : {E : Type 0} (test : Bool) (e : E) → guard test e ≡ ok tt → test ≡ true
guard-eq-ok test e passed = ground arith

abbrev pub or_err {ℓ} : {A : Type ℓ} {E : Type 0} → Option A → E → Result A E
or_err (some a) e = ok a
or_err none e = err e

pub or_err-eq-ok {ℓ} :
    {A : Type ℓ} {E : Type 0} (found : Option A) (e : E) {a : A}
    → or_err found e ≡ ok a
    → found ≡ some a
or_err-eq-ok none e passed = cc
or_err-eq-ok (some x) e passed = cc

-- A check, and what is run after it.
module _ {ℓ} {B : Type ℓ} {E : Type 0} where
  infixl 5 ◌>>◌
  abbrev pub ◌>>◌ : Result (Unit {0}) E → Result B E → Result B E
  err e >> next = err e
  ok _ >> next = next

  -- Inversion of a run that succeeds, where its parts stay shut.
  pub >>-eq-ok :
      (check : Result (Unit {0}) E) (next : Result B E) {result : B}
      → (check >> next) ≡ ok result
      → (check ≡ ok tt) × (next ≡ ok result)
  >>-eq-ok (err e) next run = cc
  >>-eq-ok (ok tt) next run = (refl, run)

  module _ {κ} {A : Type κ} where
    infixl 5 ◌>>=◌
    abbrev pub ◌>>=◌ : Result A E → (A → Result B E) → Result B E
    err e >>= next = err e
    ok value >>= next = next value

    pub >>=-eq-ok :
        (first : Result A E) (next : A → Result B E) {result : B}
        → (first >>= next) ≡ ok result
        → (value : A) × (first ≡ ok value) × (next value ≡ ok result)
    >>=-eq-ok (err e) next run = cc
    >>=-eq-ok (ok value) next run = (value, refl, run)

-- `?` on an option.
module _ {ℓ κ} {A : Type ℓ} {B : Type κ} where
  abbrev pub and_then : Option A → (A → Option B) → Option B
  and_then none next = none
  and_then (some a) next = next a

  pub and_then-eq-some :
      (first : Option A) (next : A → Option B) {b : B}
      → and_then first next ≡ some b
      → (a : A) × (first ≡ some a) × (next a ≡ some b)
  and_then-eq-some none next run = cc run
  and_then-eq-some (some a) next run = (a, refl, run)

pub Result-cases {ℓ} :
    {A : Type ℓ} {E : Type 0} (r : Result A E) → ((a : A) × (r ≡ ok a)) ⊎ ((e : E) × (r ≡ err e))
Result-cases (ok a) = inl (a, refl)
Result-cases (err e) = inr (e, refl)
