-- ===== src/Verify/Check.antt =====
-- The shape of a check: `ok` passes, `err` carries the reason code (`None` and `Some` in the source).
use bellbook.Prelude.{
  ◌≡◌, arith, Bool, true, false, ◌&&◌, List, [], ◌∷◌, ◌==◌, nat_ord, Result, ok, err, or_err,
}
use bellbook.Base.Hash.{Bytes}
use bellbook.Record.Kind.{ReasonCode, RefType}
use bellbook.Record.Refs.{RecordId, targets_of}
use bellbook.Record.Envelope.{Record}
use bellbook.Platform.{Platform, PayloadType, PayloadOf, decode}

abbrev pub Checked : Type 0 → Type 0
Checked A = Result A ReasonCode

abbrev pub Check : Type 0
Check = Checked (Unit {0})

-- `if bad { return Some(reason) }`.
abbrev pub reject_if : Bool → ReasonCode → Check
reject_if true reason = err reason
reject_if false reason = ok tt

pub reject_if-eq-ok : (b : Bool) (e : ReasonCode) → reject_if b e ≡ ok tt → b ≡ false
reject_if-eq-ok b e h = ground arith

-- The macro `dec!`.
abbrev pub dec : (p : Platform) (t : PayloadType) → Bytes → Checked (PayloadOf t)
dec p t bytes = or_err (decode p t bytes) ReasonCode.invalid_payload

-- Same thread and same space.
abbrev pub same_place : Record → Record → Bool
same_place a b = a.thread == b.thread && a.space == b.space

-- The `Cause` refs are exactly one, and it names the target.
abbrev is_only : List RecordId → RecordId → Bool
is_only (x ∷ []) target = x == target
is_only _ target = false

unfoldable pub only_target : RefType → Record → RecordId → Bool
unfolding targets_of
only_target t r target = is_only (targets_of t r.refs) target
