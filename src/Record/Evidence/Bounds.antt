-- ===== src/Record/Evidence/Bounds.antt =====
-- src/record/evidence.rs: the weakest link.
use bellbook.Prelude.{◌≡◌, subst, ◌≤◌, ◌⊎◌, inl, inr, List, [], ◌∷◌, arith}
use bellbook.Base.Hash.{Bytes, Hash256}
use bellbook.Record.Evidence.{
  Evidence, evidence_ordinal, base_evidence, weaker, weakest, derive_evidence,
}

-- `e` is one of the list.
pub data IsOneOf (e : Evidence) : List Evidence → Type 0 where
  here : (es : List Evidence) → IsOneOf e (e ∷ es)
  there : (f : Evidence) (es : List Evidence) → IsOneOf e es → IsOneOf e (f ∷ es)

weaker-le :
    (a b : Evidence)
    → (evidence_ordinal a ≤ evidence_ordinal (weaker a b))
      × (evidence_ordinal b ≤ evidence_ordinal (weaker a b))
unfolding weaker
weaker-le a b = ground arith

head_le-weakest :
    (e : Evidence) (es : List Evidence) → evidence_ordinal e ≤ evidence_ordinal (weakest (e ∷ es))
unfolding weakest
head_le-weakest e [] = omega arith
head_le-weakest e (f ∷ es) = omega (arith, weaker-le e f, head_le-weakest (weaker e f) es)

tail_le-weakest :
    (x e : Evidence) (es : List Evidence)
    → IsOneOf x es
    → evidence_ordinal x ≤ evidence_ordinal (weakest (e ∷ es))
unfolding weakest
tail_le-weakest x e _ (IsOneOf.here es) =
    omega (arith, weaker-le e x, head_le-weakest (weaker e x) es)
tail_le-weakest x e _ (IsOneOf.there f es m) = tail_le-weakest x (weaker e f) es m

second-IsOneOf :
    (x e f : Evidence) (es : List Evidence) → IsOneOf x (e ∷ es) → IsOneOf x (e ∷ f ∷ es)
second-IsOneOf x _ f es (IsOneOf.here _) = IsOneOf.here (f ∷ es)
second-IsOneOf x e f _ (IsOneOf.there _ es m) = IsOneOf.there e (f ∷ es) (IsOneOf.there f es m)

weaker-cases : (a b : Evidence) → (weaker a b ≡ a) ⊎ (weaker a b ≡ b)
unfolding weaker
weaker-cases a b = ground arith

weakest-IsOneOf : (e : Evidence) (es : List Evidence) → IsOneOf (weakest (e ∷ es)) (e ∷ es)
unfolding weakest
weakest-IsOneOf e [] = IsOneOf.here []
weakest-IsOneOf e (f ∷ es) =
    let m = weakest-IsOneOf (weaker e f) es in
    elim (weaker-cases e f) [
      | inl same ↦
          second-IsOneOf _ e f es (subst (λ a. IsOneOf (weakest (weaker e f ∷ es)) (a ∷ es)) same m)
      | inr same ↦
          IsOneOf.there e (f ∷ es)
            (subst (λ a. IsOneOf (weakest (weaker e f ∷ es)) (a ∷ es)) same m)
    ]

-- The derived evidence is the weakest link: it is the schema's base class or the evidence of a ref,
-- and none of these is weaker.
pub derive_evidence-IsOneOf :
    (sha256 : Bytes → Hash256) (schema : Hash256) (es : List Evidence)
    → IsOneOf (derive_evidence sha256 schema es) (base_evidence sha256 schema ∷ es)
      × ((x : Evidence)
          → IsOneOf x (base_evidence sha256 schema ∷ es)
          → evidence_ordinal x ≤ evidence_ordinal (derive_evidence sha256 schema es))
unfolding derive_evidence
derive_evidence-IsOneOf sha256 schema [] = (IsOneOf.here [], λ x m. only x m)
  where
    only :
        (x : Evidence)
        → IsOneOf x (base_evidence sha256 schema ∷ [])
        → evidence_ordinal x ≤ evidence_ordinal (base_evidence sha256 schema)
    only x (IsOneOf.here _) = omega arith
    only x (IsOneOf.there _ _ m) = elim m [ ]
derive_evidence-IsOneOf sha256 schema (e ∷ es) =
    (weakest-IsOneOf (base_evidence sha256 schema) (e ∷ es), λ x m. at_most x m)
  where
    at_most :
        (x : Evidence)
        → IsOneOf x (base_evidence sha256 schema ∷ e ∷ es)
        → evidence_ordinal x ≤ evidence_ordinal (weakest (base_evidence sha256 schema ∷ e ∷ es))
    at_most x (IsOneOf.here _) = head_le-weakest x (e ∷ es)
    at_most x (IsOneOf.there b _ m) = tail_le-weakest x b (e ∷ es) m
