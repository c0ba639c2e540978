-- ===== src/State/Build.antt =====
-- src/state/build.rs: the state of a log whose stored verdicts are trusted.
pub mod Taint
use bellbook.Prelude.{
  Bool, true, false, Option, none, some, List, [], ◌∷◌, ◌==◌, nat_ord, if◌then◌else◌, unwrap_or,
  last?,
}
use bellbook.Prelude.Map.{BTreeMap, get, put}
use bellbook.Record.Kind.{Kind, RefType, kind_ord}
use bellbook.Record.Refs.{RecordId, find_ref}
use bellbook.Record.Payloads.{Time, VerdictData}
use bellbook.Record.Envelope.{Record}
use bellbook.State.Defs.{State, default_state}
use bellbook.State.Apply.{Fold, apply_record}
use bellbook.Platform.{Platform, PayloadType, decode}

-- `?` on a fold.
abbrev pub finished : Fold → Option State
finished (s, true) = some s
finished (s, false) = none

abbrev pub last_time : List Record → Time
last_time records = elim (last? records) [ none ↦ 0 | some r ↦ r.time ]

module _ (p : Platform) where
  abbrev add_verdict :
      BTreeMap RecordId VerdictData
      → Option RecordId
      → Record
      → Option (BTreeMap RecordId VerdictData)
  add_verdict m none r = some m
  add_verdict m (some subject) r = elim (decode p PayloadType.verdict r.payload) [
    | none ↦ none
    | some verdict ↦ some (put subject verdict m)
  ]

  -- Step 1: the verdicts by subject; of several the last stays.
  unfoldable pub collect_verdicts :
      List Record → BTreeMap RecordId VerdictData → Option (BTreeMap RecordId VerdictData)
  collect_verdicts [] m = some m
  collect_verdicts (r ∷ rs) m =
      elim (if r.kind == Kind.verdict
        then add_verdict m (find_ref RefType.cause r.refs) r
        else some m) [ none ↦ none | some n ↦ collect_verdicts rs n ]

  abbrev apply_judged : Option VerdictData → Record → State → Option State
  apply_judged none r s = some s
  apply_judged (some verdict) r s = finished (apply_record p s r verdict)

  -- Step 2: the records that are no verdicts, in log order.
  unfoldable pub apply_all : BTreeMap RecordId VerdictData → List Record → State → Option State
  apply_all m [] s = some s
  apply_all m (r ∷ rs) s =
      elim (if r.kind == Kind.verdict then some s else apply_judged (get m r.id) r s) [
        | none ↦ none
        | some t ↦ apply_all m rs t
      ]

  unfoldable pub build_state_unchecked : List Record → Option State
  unfolding collect_verdicts apply_all
  build_state_unchecked [] = some default_state
  build_state_unchecked (r ∷ rs) = elim (collect_verdicts (r ∷ rs) []) [
    | none ↦ none
    | some m ↦ elim (apply_all m (r ∷ rs) default_state) [
      | none ↦ none
      | some s ↦ some (record s { applied_up_to = last_time (r ∷ rs) })
    ]
  ]
