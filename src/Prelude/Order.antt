-- ===== src/Prelude/Order.antt =====
-- Comparison as an interface (Rust's `Ord`), and the keys of this program that have it.
use Prim.Native.Nat.{ℕ, compare, Ordering}
use Prim.Native.String.{String, compare as compare_string}
use mathlib.Core.Path.{◌≡◌, ap}
use mathlib.Core.Logic.{◌↔◌}
use mathlib.Core.Bool.{Bool, true}
use mathlib.Core.Option.{Option, none, some}
use mathlib.Core.List.{List, [], ◌∷◌}
use native.Mathlib.Omega.{arith}
use text.Mathlib.Text.{is_eq}
use text.Mathlib.TextEquality.{eq_iff}

pub record Ord {ℓ} (A : Type ℓ) : Type ℓ where
  pub cmp : A → A → Ordering
  pub cmp_iff : (a b : A) → (is_eq (cmp a b) ≡ true) ↔ (a ≡ b)

infix 50 ◌==◌
abbrev pub ◌==◌ {ℓ} : {A : Type ℓ} ⦃o : Ord A⦄ → A → A → Bool
◌==◌ ⦃o⦄ a b = is_eq (o.cmp a b)

pub ==_iff {ℓ} : {A : Type ℓ} ⦃o : Ord A⦄ (a b : A) → ((a == b) ≡ true) ↔ (a ≡ b)
==_iff ⦃o⦄ a b = o.cmp_iff a b

pub nat_iff : (a b : ℕ) → (is_eq (compare a b) ≡ true) ↔ (a ≡ b)
nat_iff a b = ground arith

instance abbrev pub nat_ord : Ord ℕ
nat_ord = record { cmp = compare; cmp_iff = nat_iff }

instance abbrev pub string_ord : Ord String
string_ord = record { cmp = compare_string; cmp_iff = eq_iff }

-- The first difference decides.
abbrev pub then_with : Ordering → Ordering → Ordering
then_with Ordering.eq o = o
then_with Ordering.lt o = Ordering.lt
then_with Ordering.gt o = Ordering.gt

then_with_iff :
    (o p : Ordering) → (is_eq (then_with o p) ≡ true) ↔ ((is_eq o ≡ true) × (is_eq p ≡ true))
then_with_iff o p = ground arith

module _ {ℓ κ} {A : Type ℓ} {B : Type κ} ⦃oa : Ord A⦄ ⦃ob : Ord B⦄ where
  abbrev pub pair_cmp : A × B → A × B → Ordering
  pair_cmp p q = then_with (oa.cmp p.0 q.0) (ob.cmp p.1 q.1)

  pub pair_iff : (p q : A × B) → (is_eq (pair_cmp p q) ≡ true) ↔ (p ≡ q)
  pair_iff p q = ground (
    arith,
    then_with_iff (oa.cmp p.0 q.0) (ob.cmp p.1 q.1),
    oa.cmp_iff p.0 q.0,
    ob.cmp_iff p.1 q.1,
  )

  instance abbrev pub pair_ord : Ord (A × B)
  pair_ord = record { cmp = pair_cmp; cmp_iff = pair_iff }

module _ {ℓ κ μ} {A : Type ℓ} {B : Type κ} {C : Type μ} ⦃oa : Ord A⦄ ⦃ob : Ord B⦄ ⦃oc : Ord C⦄ where
  abbrev pub triple_cmp : A × B × C → A × B × C → Ordering
  triple_cmp p q = then_with (oa.cmp p.0 q.0) (then_with (ob.cmp p.1 q.1) (oc.cmp p.2 q.2))

  pub triple_iff : (p q : A × B × C) → (is_eq (triple_cmp p q) ≡ true) ↔ (p ≡ q)
  triple_iff p q = ground (
    arith,
    then_with_iff (oa.cmp p.0 q.0) (then_with (ob.cmp p.1 q.1) (oc.cmp p.2 q.2)),
    then_with_iff (ob.cmp p.1 q.1) (oc.cmp p.2 q.2),
    oa.cmp_iff p.0 q.0,
    ob.cmp_iff p.1 q.1,
    oc.cmp_iff p.2 q.2,
  )

  instance abbrev pub triple_ord : Ord (A × B × C)
  triple_ord = record { cmp = triple_cmp; cmp_iff = triple_iff }

module _ {ℓ} {A : Type ℓ} ⦃oa : Ord A⦄ where
  -- `None` comes before `Some`.
  abbrev pub option_cmp : Option A → Option A → Ordering
  option_cmp none none = Ordering.eq
  option_cmp none (some b) = Ordering.lt
  option_cmp (some a) none = Ordering.gt
  option_cmp (some a) (some b) = oa.cmp a b

  pub option_iff : (p q : Option A) → (is_eq (option_cmp p q) ≡ true) ↔ (p ≡ q)
  option_iff none none = ground arith
  option_iff none (some b) = ground arith
  option_iff (some a) none = ground arith
  option_iff (some a) (some b) = ground (arith, oa.cmp_iff a b)

  instance abbrev pub option_ord : Ord (Option A)
  option_ord = record { cmp = option_cmp; cmp_iff = option_iff }

-- A type whose values are numbered apart is compared by the numbers.
abbrev pub ordinal_cmp {ℓ} : {A : Type ℓ} → (A → ℕ) → A → A → Ordering
ordinal_cmp f a b = compare (f a) (f b)

pub ordinal_iff {ℓ} :
    {A : Type ℓ} (f : A → ℕ)
    → ((a b : A) → f a ≡ f b → a ≡ b)
    → (a b : A) → (is_eq (ordinal_cmp f a b) ≡ true) ↔ (a ≡ b)
ordinal_iff f inj a b =
    (λ h. inj a b ((nat_iff (f a) (f b)).0 h), λ e. (nat_iff (f a) (f b)).1 (ap f e))

-- Slices are compared element by element, and a proper prefix comes first.
module _ {ℓ} {A : Type ℓ} ⦃oa : Ord A⦄ where
  abbrev pub list_cmp : List A → List A → Ordering
  list_cmp [] [] = Ordering.eq
  list_cmp [] (y ∷ ys) = Ordering.lt
  list_cmp (x ∷ xs) [] = Ordering.gt
  list_cmp (x ∷ xs) (y ∷ ys) = then_with (oa.cmp x y) (list_cmp xs ys)

  pub list_iff : (p q : List A) → (is_eq (list_cmp p q) ≡ true) ↔ (p ≡ q)
  list_iff [] [] = ground arith
  list_iff [] (y ∷ ys) = ground arith
  list_iff (x ∷ xs) [] = ground arith
  list_iff (x ∷ xs) (y ∷ ys) =
      ground (arith, then_with_iff (oa.cmp x y) (list_cmp xs ys), oa.cmp_iff x y, list_iff xs ys)

  instance abbrev pub list_ord : Ord (List A)
  list_ord = record { cmp = list_cmp; cmp_iff = list_iff }
