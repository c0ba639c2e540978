-- ===== src/Verify/Work/Revoked.antt =====
-- src/verify/verifier/activity.rs and src/state/incremental.rs: a retraction takes authority away.
use bellbook.Prelude.{
  ◌≡◌, ◌≢◌, ap, true, false, some, ==_iff, nat_ord, string_ord, triple_ord, ok, arith,
}
use bellbook.Prelude.Map.{get, contains-insert}
use bellbook.Record.Refs.{RecordId}
use bellbook.Record.Payloads.{ActionData}
use bellbook.Record.Envelope.{Record}
use bellbook.State.Defs.{State, is_discredited}
use bellbook.State.Retract.{apply_retraction}
use bellbook.State.Apply.Frame.{retracted-apply_retraction}
use bellbook.Platform.{Platform, PayloadType, decode}
use bellbook.Verify.Prior.{Prior}
use bellbook.Verify.Work.{capability_key, check_action}
use bellbook.Verify.Work.Authority.{check_action-IsAuthorized}

retracted_discredited :
    (target : RecordId) (s : State) → is_discredited (apply_retraction target s) target ≡ true
retracted_discredited target s = ground (
  arith,
  retracted-apply_retraction target s,
  contains-insert s.retracted_records target target,
  ==_iff target target,
)

module _ (p : Platform) (r : Record) (prior : Prior) (s : State) (target : RecordId)
    (d : ActionData) where
  -- After a capability's retraction no action is accepted on it: an action that passes its check in the
  -- state that the retraction leaves finds another capability under its key.
  pub check_action-revoked :
      decode p PayloadType.action r.payload ≡ some d
      → check_action p r prior (apply_retraction target s) ≡ ok tt
      → get (apply_retraction target s).active_capabilities (capability_key p r d) ≢ some target
  check_action-revoked decoded run held =
      let a = check_action-IsAuthorized p r prior (apply_retraction target s) run in
      let same : a.d ≡ d = cc (a.decoded, decoded) in
      let named : some a.authority.cap_id ≡ some target = cc (
        a.authority.held,
        held,
        ap (λ e. get (apply_retraction target s).active_capabilities (capability_key p r e)) same,
      ) in
      let same_id : a.authority.cap_id ≡ target = cc named in
      let gone : is_discredited (apply_retraction target s) target ≡ false =
        cc (a.authority.stands, ap (is_discredited (apply_retraction target s)) same_id) in
      absurd (cc (gone, retracted_discredited target s))
