-- ===== src/Prelude/Map.antt =====
-- `BTreeMap` and `BTreeSet` as lists in key order, so that equal contents are equal values. Insertion
-- keeps the order; a lookup needs the comparison only to tell keys apart, and so do the laws.
use bellbook.Prelude.Tests.{if◌then◌else◌}
use bellbook.Prelude.Order.{Ord, ◌==◌, ==_iff}
use Prim.Native.Nat.{Ordering}
use mathlib.Core.Path.{◌≡◌, refl}
use mathlib.Core.Bool.{Bool, false, not, ◌&&◌, ◌||◌}
use mathlib.Core.Option.{Option, none, some}
use mathlib.Core.List.{List, [], ◌∷◌}
use native.Mathlib.Omega.{arith}

abbrev pub BTreeMap {ℓ κ} : Type ℓ → Type κ → Type (ℓ ⊔ κ)
BTreeMap K V = List (K × V)

abbrev pub BTreeSet {ℓ} : Type ℓ → Type ℓ
BTreeSet K = List K

module _ {ℓ} {K : Type ℓ} ⦃o : Ord K⦄ where
  unfoldable pub contains : BTreeSet K → K → Bool
  contains [] k = false
  contains (j ∷ s) k = j == k || contains s k

  unfoldable pub insert : K → BTreeSet K → BTreeSet K
  insert k [] = k ∷ []
  insert k (j ∷ s) = elim (o.cmp k j) [
    | Ordering.lt ↦ k ∷ j ∷ s
    | Ordering.eq ↦ j ∷ s
    | Ordering.gt ↦ j ∷ insert k s
  ]

  unfoldable pub remove : K → BTreeSet K → BTreeSet K
  remove k [] = []
  remove k (j ∷ s) = let rest = remove k s in if j == k then rest else j ∷ rest

  pub contains-insert :
      (s : BTreeSet K) (k j : K) → contains (insert k s) j ≡ (k == j || contains s j)
  unfolding contains insert
  contains-insert [] k j = refl
  contains-insert (i ∷ s) k j =
      ground (arith, contains-insert s k j, ==_iff k i, ==_iff k j, ==_iff i j)

  pub contains-remove :
      (s : BTreeSet K) (k j : K) → contains (remove k s) j ≡ (not (k == j) && contains s j)
  unfolding contains remove
  contains-remove [] k j = ground arith
  contains-remove (i ∷ s) k j =
      ground (arith, contains-remove s k j, ==_iff i k, ==_iff k j, ==_iff i j)

module _ {ℓ κ} {K : Type ℓ} {V : Type κ} ⦃o : Ord K⦄ where
  unfoldable pub get : BTreeMap K V → K → Option V
  get [] k = none
  get ((j, v) ∷ m) k = if j == k then some v else get m k

  unfoldable pub put : K → V → BTreeMap K V → BTreeMap K V
  put k v [] = (k, v) ∷ []
  put k v ((j, w) ∷ m) = elim (o.cmp k j) [
    | Ordering.lt ↦ (k, v) ∷ (j, w) ∷ m
    | Ordering.eq ↦ (k, v) ∷ m
    | Ordering.gt ↦ (j, w) ∷ put k v m
  ]

  unfoldable pub delete : K → BTreeMap K V → BTreeMap K V
  delete k [] = []
  delete k ((j, w) ∷ m) = let rest = delete k m in if j == k then rest else (j, w) ∷ rest

  pub get-put :
      (m : BTreeMap K V) (k : K) (v : V) (j : K)
      → get (put k v m) j ≡ (if k == j then some v else get m j)
  unfolding get put
  get-put [] k v j = refl
  get-put ((i, w) ∷ m) k v j = ground (arith, get-put m k v j, ==_iff k i, ==_iff k j, ==_iff i j)

  pub get-delete :
      (m : BTreeMap K V) (k j : K) → get (delete k m) j ≡ (if k == j then none else get m j)
  unfolding get delete
  get-delete [] k j = ground arith
  get-delete ((i, w) ∷ m) k j = ground (arith, get-delete m k j, ==_iff i k, ==_iff k j, ==_iff i j)

pub ruleset map_laws = (contains-insert, contains-remove, get-put, get-delete)
