-- ===== src/Tests/Keys.antt =====
-- The keys of two actors.
use bellbook.Prelude.{ℕ, String, ◌≡◌, refl, ok, List, [], ◌∷◌, nat_ord, string_ord}
use bellbook.Prelude.Map.{BTreeMap, BTreeSet, contains, insert, get, put}
use bellbook.Verify.Rules.AuthorKeys.{
  unique_keys, visit_map, has_key, lists_key, visit_map-lists_key,
}

abbrev two_actors : List (String × List ℕ)
two_actors = ("bot", 6 ∷ []) ∷ ("ann", 6 ∷ 5 ∷ []) ∷ []

abbrev read_keys : BTreeMap String (BTreeSet ℕ)
read_keys = ("ann", 5 ∷ 6 ∷ []) ∷ ("bot", 6 ∷ []) ∷ []

keys_read : visit_map two_actors [] ≡ ok read_keys
unfolding visit_map unique_keys get put insert contains
keys_read = refl

visit_map-lists_key_example : has_key read_keys "ann" 5 ≡ lists_key two_actors "ann" 5
visit_map-lists_key_example = visit_map-lists_key two_actors read_keys keys_read "ann" 5
