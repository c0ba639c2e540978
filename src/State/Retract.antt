-- ===== src/State/Retract.antt =====
-- src/state/incremental.rs: the `Retraction` arm of `apply_accepted`.
use bellbook.Prelude.{
  String, Bool, true, false, Option, none, some, List, [], ◌∷◌, ◌==◌, nat_ord, string_ord,
  triple_ord, option_ord, if◌then◌else◌,
}
use bellbook.Prelude.Map.{insert, remove, get, put, delete}
use bellbook.Record.Refs.{RecordId}
use bellbook.State.Defs.{State}
use bellbook.State.Taint.{dependents, mark_tainted}

unfoldable pub mark_all : List RecordId → State → State
unfolding mark_tainted
mark_all [] s = s
mark_all (id ∷ ids) s = mark_all ids (mark_tainted s id)

-- A slot is cleared only while it still points at the target.
unfoldable pub drop_capability : RecordId → State → State
drop_capability target s = elim (get s.capability_index target) [
  | none ↦ s
  | some key ↦
      if get s.active_capabilities key == some target
      then record s { active_capabilities = delete key s.active_capabilities }
      else s
]

unfoldable pub drop_exact_approval : RecordId → State → State
drop_exact_approval target s = elim (get s.exact_approval_index target) [
  | none ↦ s
  | some hash ↦
      if get s.valid_approvals hash == some target
      then record s { valid_approvals = delete hash s.valid_approvals }
      else s
]

unfoldable pub drop_class_approval : RecordId → State → State
drop_class_approval target s = elim (get s.class_approval_index target) [
  | none ↦ s
  | some key ↦
      if get s.class_approvals key == some target
      then record s { class_approvals = delete key s.class_approvals }
      else s
]

abbrev is_empty {ℓ} : {A : Type ℓ} → List A → Bool
is_empty [] = true
is_empty (a ∷ l) = false

-- The entry goes when no key is left in it.
abbrev release_key : RecordId → String → State → Option (List String) → State
release_key request_id key s none = s
release_key request_id key s (some keys) = record s {
  requirement_keys =
      if is_empty (remove key keys)
      then delete request_id s.requirement_keys
      else put request_id (remove key keys) s.requirement_keys;
}

unfoldable pub release_requirement : RecordId → State → State
release_requirement target s = elim (get s.requirement_index target) [
  | none ↦ s
  | some (request_id, key) ↦ release_key request_id key s (get s.requirement_keys request_id)
]

unfoldable pub retract : RecordId → State → State
unfolding mark_all
retract target s =
    mark_all (dependents s.epistemic_dependents target)
      (record s { retracted_records = insert target s.retracted_records })

unfoldable pub apply_retraction : RecordId → State → State
unfolding retract drop_capability drop_exact_approval drop_class_approval release_requirement
apply_retraction target s = release_requirement target (
    drop_class_approval target
      (drop_exact_approval target (drop_capability target (retract target s))))
