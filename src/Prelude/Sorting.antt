-- ===== src/Prelude/Sorting.antt =====
-- Rust's stable `sort_by` with a comparison, as insertion, and what it gives.
use bellbook.Prelude.Lists.{take, drop, length, filter}
use bellbook.Prelude.Tests.{Bool-cases}
use Prim.Native.Nat.{ℕ, zero, suc, Ordering, ◌≤◌}
use mathlib.Core.Path.{◌≡◌, refl, sym, ap, subst}
use mathlib.Core.Logic.{◌⊎◌, inl, inr}
use mathlib.Core.Bool.{Bool, true, false}
use mathlib.Core.List.{List, [], ◌∷◌, Memᴰ}
use mathlib.Core.List.Memᴰ
use native.Mathlib.Omega.{arith}

-- Each element relates to all that come after it.
pub data Pairwise {A : Type 0} (R : A → A → Type 0) : List A → Type 0 where
  nil : Pairwise R []
  cons : {x : A} {l : List A} → ((y : A) → Memᴰ y l → R x y) → Pairwise R l → Pairwise R (x ∷ l)

module _ {A : Type 0} (cmp : A → A → Ordering) where
  abbrev pub exceeds : A → A → Bool
  exceeds x y = elim (cmp x y) [ Ordering.gt ↦ true | _ ↦ false ]

  unfoldable pub place : A → List A → List A
  place x [] = x ∷ []
  place x (y ∷ l) =
      let rest = place x l in elim (exceeds x y) [ true ↦ y ∷ rest | false ↦ x ∷ y ∷ l ]

  unfoldable pub sort_by : List A → List A
  unfolding place
  sort_by [] = []
  sort_by (x ∷ l) = place x (sort_by l)

  abbrev pub AtMost : A → A → Type 0
  AtMost x y = exceeds x y ≡ false

  pub record IsTotalPreorder : Type 0 where
    pub total : (x y : A) → exceeds x y ≡ true → AtMost y x
    pub trans : (x y z : A) → AtMost x y → AtMost y z → AtMost x z

  place-above : (x y : A) (l : List A) → exceeds x y ≡ true → place x (y ∷ l) ≡ y ∷ place x l
  unfolding place
  place-above x y l e = rw (place, e) refl

  place-below : (x y : A) (l : List A) → exceeds x y ≡ false → place x (y ∷ l) ≡ x ∷ y ∷ l
  unfolding place
  place-below x y l e = rw (place, e) refl

  mem-place : (x : A) (l : List A) {y : A} → Memᴰ y (place x l) → (y ≡ x) ⊎ Memᴰ y l
  unfolding place
  mem-place x [] m = Memᴰ.cases_cons m
  mem-place x (z ∷ l) {y} m = elim (Bool-cases (exceeds x z)) [
    | inl above ↦ elim (Memᴰ.cases_cons (subst (Memᴰ y) (place-above x z l above) m)) [
      | inl e ↦ inr (Memᴰ.head e)
      | inr rest ↦ elim (mem-place x l rest) [ inl e ↦ inl e | inr k ↦ inr (Memᴰ.tail k) ]
    ]
    | inr below ↦ Memᴰ.cases_cons (subst (Memᴰ y) (place-below x z l below) m)
  ]

  place-mem : (x : A) (l : List A) {y : A} → Memᴰ y (x ∷ l) → Memᴰ y (place x l)
  unfolding place
  place-mem x [] m = m
  place-mem x (z ∷ l) {y} m = elim (Bool-cases (exceeds x z)) [
    | inl above ↦ subst (Memᴰ y) (sym (place-above x z l above)) (elim (Memᴰ.cases_cons m) [
      | inl e ↦ Memᴰ.tail (place-mem x l (Memᴰ.head e))
      | inr rest ↦ elim (Memᴰ.cases_cons rest) [
        | inl e ↦ Memᴰ.head e
        | inr k ↦ Memᴰ.tail (place-mem x l (Memᴰ.tail k))
      ]
    ])
    | inr below ↦ subst (Memᴰ y) (sym (place-below x z l below)) m
  ]

  -- Sorting neither adds nor drops an element.
  pub mem-sort_by : (l : List A) {y : A} → Memᴰ y (sort_by l) → Memᴰ y l
  unfolding sort_by
  mem-sort_by [] m = m
  mem-sort_by (x ∷ l) m = elim (mem-place x (sort_by l) m) [
    | inl e ↦ Memᴰ.head e
    | inr k ↦ Memᴰ.tail (mem-sort_by l k)
  ]

  pub sort_by-mem : (l : List A) {y : A} → Memᴰ y l → Memᴰ y (sort_by l)
  unfolding sort_by
  sort_by-mem [] m = m
  sort_by-mem (x ∷ l) m =
      place-mem x (sort_by l)
        (elim (Memᴰ.cases_cons m) [ inl e ↦ Memᴰ.head e | inr k ↦ Memᴰ.tail (sort_by-mem l k) ])

  module _ (order : IsTotalPreorder) where
    place-Pairwise : (x : A) (l : List A) → Pairwise AtMost l → Pairwise AtMost (place x l)
    unfolding place
    place-Pairwise x [] s = Pairwise.cons (λ y m. absurd (Memᴰ.not-nil m)) Pairwise.nil
    place-Pairwise x (y ∷ l) (Pairwise.cons h s) = elim (Bool-cases (exceeds x y)) [
      | inl above ↦ subst (Pairwise AtMost) (sym (place-above x y l above)) (
          Pairwise.cons
            (λ z m. elim (mem-place x l m) [
              | inl e ↦ subst (λ w. AtMost y w) (sym e) (order.total x y above)
              | inr k ↦ h z k
            ])
            (place-Pairwise x l s))
      | inr below ↦ subst (Pairwise AtMost) (sym (place-below x y l below)) (
          Pairwise.cons
            (λ z m. elim (Memᴰ.cases_cons m) [
              | inl e ↦ subst (λ w. AtMost x w) (sym e) below
              | inr k ↦ order.trans x y z below (h z k)
            ])
            (Pairwise.cons h s))
    ]

    pub sort_by-Pairwise : (l : List A) → Pairwise AtMost (sort_by l)
    unfolding sort_by
    sort_by-Pairwise [] = Pairwise.nil
    sort_by-Pairwise (x ∷ l) = place-Pairwise x (sort_by l) (sort_by-Pairwise l)

-- A prefix of a list in order: bounded, in order, and nothing of the rest comes before it.
module _ {A : Type 0} where
  pub length-take_le : (n : ℕ) (l : List A) → length (take n l) ≤ n
  length-take_le zero l = omega arith
  length-take_le (suc n) [] = omega arith
  length-take_le (suc n) (x ∷ l) = omega (arith, length-take_le n l)

  pub mem-take : (n : ℕ) (l : List A) {x : A} → Memᴰ x (take n l) → Memᴰ x l
  mem-take zero l m = absurd (Memᴰ.not-nil m)
  mem-take (suc n) [] m = m
  mem-take (suc n) (y ∷ l) (Memᴰ.head e) = Memᴰ.head e
  mem-take (suc n) (y ∷ l) (Memᴰ.tail m) = Memᴰ.tail (mem-take n l m)

  pub Pairwise-take :
      {R : A → A → Type 0} (n : ℕ) (l : List A) → Pairwise R l → Pairwise R (take n l)
  Pairwise-take zero l s = Pairwise.nil
  Pairwise-take (suc n) [] s = Pairwise.nil
  Pairwise-take (suc n) (x ∷ l) (Pairwise.cons h s) =
      Pairwise.cons (λ y m. h y (mem-take n l m)) (Pairwise-take n l s)

  mem-drop : (n : ℕ) (l : List A) {x : A} → Memᴰ x (drop n l) → Memᴰ x l
  mem-drop zero l m = m
  mem-drop (suc n) [] m = m
  mem-drop (suc n) (y ∷ l) m = Memᴰ.tail (mem-drop n l m)

  pub mem-take_or_drop :
      (n : ℕ) (l : List A) {x : A} → Memᴰ x l → Memᴰ x (take n l) ⊎ Memᴰ x (drop n l)
  mem-take_or_drop zero l m = inr m
  mem-take_or_drop (suc n) [] m = inl m
  mem-take_or_drop (suc n) (y ∷ l) (Memᴰ.head e) = inl (Memᴰ.head e)
  mem-take_or_drop (suc n) (y ∷ l) (Memᴰ.tail m) = elim (mem-take_or_drop n l m) [
    | inl kept ↦ inl (Memᴰ.tail kept)
    | inr left ↦ inr left
  ]

  -- A list that drops something has a full prefix.
  pub length-take_full : (n : ℕ) (l : List A) {x : A} → Memᴰ x (drop n l) → length (take n l) ≡ n
  length-take_full zero l m = refl
  length-take_full (suc n) [] m = absurd (Memᴰ.not-nil m)
  length-take_full (suc n) (y ∷ l) m = ap suc (length-take_full n l m)

  pub take-before_drop :
      {R : A → A → Type 0} (n : ℕ) (l : List A) {x y : A}
      → Pairwise R l
      → Memᴰ x (take n l)
      → Memᴰ y (drop n l)
      → R x y
  take-before_drop zero l s m k = absurd (Memᴰ.not-nil m)
  take-before_drop (suc n) [] s m k = absurd (Memᴰ.not-nil m)
  take-before_drop {R} (suc n) (z ∷ l) {x} {y} (Pairwise.cons h s) (Memᴰ.head e) k =
      subst (λ w. R w y) (sym e) (h _ (mem-drop n l k))
  take-before_drop (suc n) (z ∷ l) (Pairwise.cons h s) (Memᴰ.tail m) k = take-before_drop n l s m k

  filter-keeps :
      (keep : A → Bool) (y : A) (l : List A)
      → keep y ≡ true
      → filter keep (y ∷ l) ≡ y ∷ filter keep l
  filter-keeps keep y l e = rw e refl

  filter-skips :
      (keep : A → Bool) (y : A) (l : List A) → keep y ≡ false → filter keep (y ∷ l) ≡ filter keep l
  filter-skips keep y l e = rw e refl

  pub mem-filter :
      (keep : A → Bool) (l : List A) {x : A} → Memᴰ x (filter keep l) → Memᴰ x l × (keep x ≡ true)
  mem-filter keep [] m = absurd (Memᴰ.not-nil m)
  mem-filter keep (y ∷ l) {x} m = elim (Bool-cases (keep y)) [
    | inl kept ↦ elim (Memᴰ.cases_cons (subst (Memᴰ x) (filter-keeps keep y l kept) m)) [
      | inl e ↦ (Memᴰ.head e, subst (λ w. keep w ≡ true) (sym e) kept)
      | inr k ↦ let (there, e) = mem-filter keep l k in (Memᴰ.tail there, e)
    ]
    | inr gone ↦
        let (there, e) = mem-filter keep l (subst (Memᴰ x) (filter-skips keep y l gone) m) in
        (Memᴰ.tail there, e)
  ]

  pub filter-mem :
      (keep : A → Bool) (l : List A) {x : A} → Memᴰ x l → keep x ≡ true → Memᴰ x (filter keep l)
  filter-mem keep [] m kept = m
  filter-mem keep (y ∷ l) {x} m kept = elim (Bool-cases (keep y)) [
    | inl this ↦ rw this elim (Memᴰ.cases_cons m) [
      | inl e ↦ Memᴰ.head e
      | inr k ↦ Memᴰ.tail (filter-mem keep l k kept)
    ]
    | inr other ↦ rw other elim (Memᴰ.cases_cons m) [
      | inl e ↦ absurd (ground (arith, kept, other, ap keep e))
      | inr k ↦ filter-mem keep l k kept
    ]
  ]

  pub Pairwise-map :
      {R S : A → A → Type 0} {l : List A}
      → ((x y : A) → R x y → S x y)
      → Pairwise R l
      → Pairwise S l
  Pairwise-map f Pairwise.nil = Pairwise.nil
  Pairwise-map f (Pairwise.cons h s) = Pairwise.cons (λ y m. f _ y (h y m)) (Pairwise-map f s)
