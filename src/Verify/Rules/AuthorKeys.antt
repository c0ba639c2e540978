-- ===== src/Verify/Rules/AuthorKeys.antt =====
-- src/verify/rules.rs, strict_author_keys: the actors' keys are read without duplicates.
use bellbook.Prelude.{
  ◌≡◌, sym, ap, ◌∙◌, Bool, false, ◌&&◌, ◌||◌, none, some, List, [], ◌∷◌, ◌==◌, ==_iff, nat_ord,
  string_ord, Result, ok, err, ◌>>=◌, >>=-eq-ok, if◌then◌else◌, Bool-cases, inl, inr, arith,
  is_some, any,
}
use bellbook.Prelude.Map.{BTreeMap, BTreeSet, contains, insert, get, put, contains-insert, get-put}
use bellbook.Record.Payloads.{ActorId}
use bellbook.Verify.Rules.{PublicKeyBytes}

pub data KeysError : Type 0 where
  duplicate_key : KeysError
  duplicate_author : KeysError

-- The inner loop of `visit_map`.
unfoldable pub unique_keys :
    List PublicKeyBytes → BTreeSet PublicKeyBytes → Result (BTreeSet PublicKeyBytes) KeysError
unfolding contains insert
unique_keys [] unique = ok unique
unique_keys (key ∷ keys) unique =
    let rest = unique_keys keys (insert key unique) in
    if contains unique key then err KeysError.duplicate_key else rest

-- `visit_map`, over the entries in the order of the text.
unfoldable pub visit_map :
    List (ActorId × List PublicKeyBytes)
    → BTreeMap ActorId (BTreeSet PublicKeyBytes)
    → Result (BTreeMap ActorId (BTreeSet PublicKeyBytes)) KeysError
unfolding unique_keys get put
visit_map [] m = ok m
visit_map ((actor, keys) ∷ entries) m = unique_keys keys [] >>= λ unique.
    if is_some (get m actor)
    then err KeysError.duplicate_author
    else visit_map entries (put actor unique m)

-- Whether a key is an actor's, in the map and in the text.
pub has_key : BTreeMap ActorId (BTreeSet PublicKeyBytes) → ActorId → PublicKeyBytes → Bool
has_key m actor key = elim (get m actor) [ none ↦ false | some keys ↦ contains keys key ]

pub lists_key : List (ActorId × List PublicKeyBytes) → ActorId → PublicKeyBytes → Bool
lists_key entries actor key = any (λ e. e.0 == actor && any (λ k. k == key) e.1) entries

unique_keys-contains :
    (keys : List PublicKeyBytes) (before unique : BTreeSet PublicKeyBytes) (key : PublicKeyBytes)
    → unique_keys keys before ≡ ok unique
    → contains unique key ≡ (contains before key || any (λ k. k == key) keys)
unfolding unique_keys
unique_keys-contains [] before unique key run =
    let same : before ≡ unique = cc run in rw (← same) (ground arith)
unique_keys-contains (k ∷ keys) before unique key run = elim (Bool-cases (contains before k)) [
  | inl twice ↦ absurd (ground (arith, twice, run))
  | inr new ↦
      let later =
        unique_keys-contains keys (insert k before) unique key (ground (arith, new, run)) in
      ground (arith, later, contains-insert before k key)
]

has_key-put :
    (m : BTreeMap ActorId (BTreeSet PublicKeyBytes)) (actor : ActorId)
    (unique : BTreeSet PublicKeyBytes) (a : ActorId) (key : PublicKeyBytes)
    → is_some (get m actor) ≡ false
    → has_key (put actor unique m) a key ≡ (has_key m a key || actor == a && contains unique key)
unfolding has_key
has_key-put m actor unique a key new = elim (Bool-cases (actor == a)) [
  | inr other ↦ ground (arith, get-put m actor unique a, other)
  | inl same ↦
      let e = (==_iff actor a).0 same in
      let none_before : is_some (get m a) ≡ false = ap (λ x. is_some (get m x)) (sym e) ∙ new in
      ground (arith, get-put m actor unique a, same, none_before)
]

visit_map-grows :
    (entries : List (ActorId × List PublicKeyBytes))
    (m keys : BTreeMap ActorId (BTreeSet PublicKeyBytes)) (a : ActorId) (key : PublicKeyBytes)
    → visit_map entries m ≡ ok keys
    → has_key keys a key ≡ (has_key m a key || lists_key entries a key)
unfolding visit_map lists_key
visit_map-grows [] m keys a key run =
    let same : m ≡ keys = cc run in ap (λ x. has_key x a key) (sym same) ∙ ground arith
visit_map-grows ((actor, listed) ∷ entries) m keys a key run =
    let (unique, e1, run1) = >>=-eq-ok (unique_keys listed []) _ run in
    elim (Bool-cases (is_some (get m actor))) [
      | inl twice ↦ absurd (ground (arith, twice, run1))
      | inr new ↦
          let later =
            visit_map-grows entries (put actor unique m) keys a key (ground (arith, new, run1)) in
          ground (
            arith,
            later,
            has_key-put m actor unique a key new,
            unique_keys-contains listed [] unique key e1,
          )
    ]

-- Actors' keys that are read hold a key for an actor exactly if the text lists it for the actor.
pub visit_map-lists_key :
    (entries : List (ActorId × List PublicKeyBytes))
    (keys : BTreeMap ActorId (BTreeSet PublicKeyBytes))
    → visit_map entries [] ≡ ok keys
    → (a : ActorId) (key : PublicKeyBytes) → has_key keys a key ≡ lists_key entries a key
unfolding has_key get
visit_map-lists_key entries keys run a key = visit_map-grows entries [] keys a key run
