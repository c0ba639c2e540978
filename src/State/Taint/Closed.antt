-- ===== src/State/Taint/Closed.antt =====
-- What the walk of `mark_tainted` adds: its start, and all that depends on what it adds.
use bellbook.Prelude.{
  ℕ, zero, suc, ◌≡◌, refl, true, ◌||◌, ◌⊎◌, inl, inr, List, [], ◌∷◌, nat_ord, arith, ◌==◌, ==_iff,
  Bool-cases,
}
use bellbook.Prelude.Map.{BTreeSet, contains, insert, contains-insert}
use bellbook.Record.Refs.{RecordId}
use bellbook.State.Taint.{Dependents, dependents, push_all, walk, walk_from, edge_count}
use bellbook.State.Taint.Loop.{walk_from_ends}

pub contains-push_all :
    (ds stack : List RecordId) (x : RecordId)
    → contains (push_all ds stack) x ≡ (contains ds x || contains stack x)
unfolding push_all contains
contains-push_all [] stack x = refl
contains-push_all (d ∷ ds) stack x = ground (arith, contains-push_all ds (d ∷ stack) x)

abbrev pub AllIn : (RecordId → Type 0) → List RecordId → Type 0
AllIn P l = (x : RecordId) → contains l x ≡ true → P x

module _ (index : Dependents) where
  -- `d` depends directly on `a`.
  abbrev pub Edge : RecordId → RecordId → Type 0
  Edge a d = contains (dependents index a) d ≡ true

  -- Every dependent of a tainted node is tainted or waits on the stack.
  abbrev ClosedUpTo : List RecordId → BTreeSet RecordId → Type 0
  ClosedUpTo stack t =
      (a d : RecordId)
      → contains t a ≡ true
      → Edge a d
      → (contains t d ≡ true) ⊎ (contains stack d ≡ true)

  walk_grows :
      (fuel : ℕ) (stack : List RecordId) (t : BTreeSet RecordId) (x : RecordId)
      → contains t x ≡ true
      → contains (walk index fuel stack t).tainted x ≡ true
  unfolding walk
  walk_grows zero stack t x h = h
  walk_grows (suc fuel) [] t x h = h
  walk_grows (suc fuel) (c ∷ rest) t x h = ground (
    arith,
    walk_grows fuel rest t x,
    walk_grows fuel (push_all (dependents index c) rest) (insert c t) x,
    contains-insert t c x,
  )

  skip_closed :
      (c : RecordId) (rest : List RecordId) (t : BTreeSet RecordId)
      → contains t c ≡ true
      → ClosedUpTo (c ∷ rest) t
      → ClosedUpTo rest t
  unfolding contains
  skip_closed c rest t old h a d m e = ground (arith, h a d m e, ==_iff c d)

  visit_closed :
      (c : RecordId) (rest : List RecordId) (t : BTreeSet RecordId)
      → ClosedUpTo (c ∷ rest) t
      → ClosedUpTo (push_all (dependents index c) rest) (insert c t)
  unfolding contains
  visit_closed c rest t h a d m e = ground (
    arith,
    h a d,
    ==_iff c a,
    contains-insert t c a,
    contains-insert t c d,
    contains-push_all (dependents index c) rest d,
  )

  walk_closed :
      (fuel : ℕ) (stack : List RecordId) (t : BTreeSet RecordId)
      → ClosedUpTo stack t
      → ClosedUpTo (walk index fuel stack t).stack (walk index fuel stack t).tainted
  unfolding walk
  walk_closed zero stack t h = h
  walk_closed (suc fuel) [] t h = h
  walk_closed (suc fuel) (c ∷ rest) t h = elim (Bool-cases (contains t c)) [
    | inl old ↦ rw (old, walk) (walk_closed fuel rest t (skip_closed c rest t old h))
    | inr new ↦ rw (new, walk) (walk_closed fuel _ _ (visit_closed c rest t h))
  ]

  -- A start that waits on the stack is tainted when the stack is empty.
  walk_covers :
      (fuel : ℕ) (stack : List RecordId) (t : BTreeSet RecordId) (x : RecordId)
      → contains stack x ≡ true
      → (contains (walk index fuel stack t).tainted x ≡ true)
        ⊎ (contains (walk index fuel stack t).stack x ≡ true)
  unfolding walk contains
  walk_covers zero stack t x h = inr h
  walk_covers (suc fuel) [] t x h = inr h
  walk_covers (suc fuel) (c ∷ rest) t x h = ground (
    arith,
    walk_covers fuel rest t x,
    walk_covers fuel (push_all (dependents index c) rest) (insert c t) x,
    walk_grows fuel rest t x,
    walk_grows fuel (push_all (dependents index c) rest) (insert c t) x,
    contains-push_all (dependents index c) rest x,
    contains-insert t c x,
    ==_iff c x,
  )

  module _ (P : RecordId → Type 0) (pass : (a d : RecordId) → P a → Edge a d → P d) where
    skip_within : (c : RecordId) (rest : List RecordId) → AllIn P (c ∷ rest) → AllIn P rest
    unfolding contains
    skip_within c rest h x m = h x (ground arith)

    push_within :
        (c : RecordId) (rest : List RecordId)
        → AllIn P (c ∷ rest)
        → AllIn P (push_all (dependents index c) rest)
    unfolding contains
    push_within c rest h x m = ground (
      arith,
      contains-push_all (dependents index c) rest x,
      h x,
      pass c x (h c (ground (arith, ==_iff c c))),
    )

    insert_within :
        (c : RecordId) (rest t : List RecordId)
        → AllIn P (c ∷ rest)
        → AllIn P t
        → AllIn P (insert c t)
    unfolding contains
    insert_within c rest t h ht x m = elim (Bool-cases (c == x)) [
      | inl same ↦ h x (ground arith)
      | inr other ↦ ht x (ground (arith, contains-insert t c x))
    ]

    -- What holds of the start and passes along the edges holds of all that is tainted at the end.
    walk_within :
        (fuel : ℕ) (stack : List RecordId) (t : BTreeSet RecordId)
        → AllIn P stack
        → AllIn P t
        → AllIn P (walk index fuel stack t).tainted
    unfolding walk
    walk_within zero stack t hs ht = ht
    walk_within (suc fuel) [] t hs ht = ht
    walk_within (suc fuel) (c ∷ rest) t hs ht = elim (Bool-cases (contains t c)) [
      | inl old ↦ rw (old, walk) (walk_within fuel rest t (skip_within c rest hs) ht)
      | inr new ↦
          rw (new, walk)
            (walk_within fuel _ _ (push_within c rest hs) (insert_within c rest t hs ht))
    ]

  -- The set is closed under the edges.
  abbrev pub IsClosed : BTreeSet RecordId → Type 0
  IsClosed t = (a d : RecordId) → contains t a ≡ true → Edge a d → contains t d ≡ true

  -- The walk also closes edges into its start.
  pub walk_from-IsClosed :
      (t : BTreeSet RecordId) (id : RecordId)
      → ((a d : RecordId) → contains t a ≡ true → Edge a d → (contains t d ≡ true) ⊎ (id ≡ d))
      → IsClosed (walk_from index t id).tainted
  unfolding walk_from contains
  walk_from-IsClosed t id h a d m e = ground (
    arith,
    walk_from_ends index t id,
    walk_closed (suc (edge_count index)) (id ∷ []) t
        (λ b c n f. ground (arith, h b c n f, ==_iff id c)) a d m e,
  )

  pub walk_from_grows :
      (t : BTreeSet RecordId) (id x : RecordId)
      → contains t x ≡ true
      → contains (walk_from index t id).tainted x ≡ true
  unfolding walk_from
  walk_from_grows t id x h = walk_grows (suc (edge_count index)) (id ∷ []) t x h

  pub walk_from_covers :
      (t : BTreeSet RecordId) (id : RecordId) → contains (walk_from index t id).tainted id ≡ true
  unfolding walk_from contains
  walk_from_covers t id = ground (
    arith,
    walk_from_ends index t id,
    walk_covers (suc (edge_count index)) (id ∷ []) t id,
    ==_iff id id,
  )

  pub walk_from_within :
      (P : RecordId → Type 0)
      → ((a d : RecordId) → P a → Edge a d → P d)
      → (t : BTreeSet RecordId) (id : RecordId) → P id
      → AllIn P t
      → AllIn P (walk_from index t id).tainted
  unfolding walk_from contains
  walk_from_within P pass t id hid ht =
      walk_within P pass (suc (edge_count index)) (id ∷ []) t (λ x m. ground (arith, ==_iff id x))
        ht
