-- ===== src/Verify/Work/Spent.antt =====
-- src/verify/verifier/activity.rs and src/state/incremental.rs: an exact approval serves one action.
use bellbook.Prelude.{
  ◌≡◌, ◌≢◌, ap, subst, ◌∙◌, none, some, ok, inl, inr, true, nat_ord, string_ord, option_ord,
  triple_ord,
}
use bellbook.Prelude.Map.{get}
use bellbook.Base.Hash.{Hash256}
use bellbook.Record.Kind.{Kind, RefType, CapabilityMode}
use bellbook.Record.Refs.{RecordId, has_ref}
use bellbook.Record.Payloads.{ActionData, ApprovalData, CapabilityData}
use bellbook.Record.Envelope.{Record}
use bellbook.State.Defs.{State}
use bellbook.State.Apply.{apply_record}
use bellbook.State.Apply.Approvals.{accepted_verdict, apply_record-IsSpent}
use bellbook.Platform.{Platform, PayloadType, Form, decode, sha256_canonical}
use bellbook.Verify.Prior.{Prior, find_record}
use bellbook.Verify.Work.{capability_key, class_key, wildcard_key, has_require_ref, check_action}
use bellbook.Verify.Work.Authority.{HasAuthority, Covers, check_action-IsAuthorized}

module _ (p : Platform) (r : Record) (d : ActionData) (prior : Prior) (s : State) where
  -- The author's capability asks for an approval, and no class approval is there to give it.
  pub record IsAsked : Type 0 where
    pub cap_id : RecordId
    pub cap : Record
    pub grant : CapabilityData
    pub held : get s.active_capabilities (capability_key p r d) ≡ some cap_id
    pub found : find_record prior cap_id ≡ some cap
    pub decoded : decode p PayloadType.capability cap.payload ≡ some grant
    pub asks : grant.mode ≡ CapabilityMode.ask
    pub no_class : get s.class_approvals (class_key p r d) ≡ none
    pub no_wildcard : get s.class_approvals (wildcard_key p d) ≡ none

  -- The exact approval that the action then rests on, which it requires by a ref.
  record RestsOn : Type 0 where
    pub h : Hash256
    pub id : RecordId
    pub hashed : sha256_canonical p (Form.action_subject r.author.id d) ≡ some h
    pub valid : get s.valid_approvals h ≡ some id
    pub cited : has_ref RefType.require id r.refs ≡ true

  Covers-RestsOn :
      IsAsked
      → (id : RecordId) (a : ApprovalData) → has_require_ref r id ≡ true
      → Covers p r d prior s id a
      → RestsOn
  unfolding has_require_ref
  Covers-RestsOn asked id a cited (Covers.exact h hashed valid actor scope) = record {
    h = h;
    id = id;
    hashed = hashed;
    valid = valid;
    cited = cited;
  }
  Covers-RestsOn asked id a cited (Covers.by_class e) = absurd (cc (e, asked.no_class))
  Covers-RestsOn asked id a cited (Covers.by_wildcard e) = absurd (cc (e, asked.no_wildcard))

  HasAuthority-RestsOn : IsAsked → HasAuthority p r d prior s → RestsOn
  HasAuthority-RestsOn asked authority =
      let same_id : authority.cap_id ≡ asked.cap_id = cc (authority.held, asked.held) in
      let same_cap : authority.cap ≡ asked.cap =
        cc (authority.found, asked.found, ap (find_record prior) same_id) in
      let same_grant : authority.grant ≡ asked.grant = cc (
        authority.decoded,
        asked.decoded,
        ap (λ (c : Record). decode p PayloadType.capability c.payload) same_cap,
      ) in
      let mode : authority.grant.mode ≡ CapabilityMode.ask =
        ap (λ (g : CapabilityData). g.mode) same_grant ∙ asked.asks in
      elim authority.mode [
        | inl auto ↦ absurd (cc (auto, mode))
        | inr (ask, (id, approved, cited)) ↦
            Covers-RestsOn asked id approved.a cited approved.covers
      ]

  check_action-RestsOn :
      IsAsked
      → decode p PayloadType.action r.payload ≡ some d
      → check_action p r prior s ≡ ok tt
      → RestsOn
  check_action-RestsOn asked decoded run =
      let a = check_action-IsAuthorized p r prior s run in
      let same : a.d ≡ d = cc (a.decoded, decoded) in
      HasAuthority-RestsOn asked (subst (λ e. HasAuthority p r e prior s) same a.authority)

module _ (p : Platform) (r again : Record) (d : ActionData) (prior later : Prior) (s : State) where
  -- An action passes its check in a state where its author's capability asks for an approval and there
  -- is no class approval for it. Once the accepted action is folded, no action of the same author with
  -- the same payload passes, if the capability is found in the records before it: the approval was spent.
  pub check_action-spent :
      (asked : IsAsked p r d prior s)
      → r.kind ≡ Kind.action
      → decode p PayloadType.action r.payload ≡ some d
      → check_action p r prior s ≡ ok tt
      → again.author.id ≡ r.author.id
      → decode p PayloadType.action again.payload ≡ some d
      → find_record later asked.cap_id ≡ some asked.cap
      → check_action p again later (apply_record p s r accepted_verdict).0 ≢ ok tt
  check_action-spent asked kind decoded run author same found run2 =
      let t = (apply_record p s r accepted_verdict).0 in
      let first = check_action-RestsOn p r d prior s asked decoded run in
      let spent = apply_record-IsSpent p s r d first.h kind decoded first.hashed in
      let gone = spent.spent first.id first.valid first.cited in
      let asked_again : IsAsked p again d later t = record {
        cap_id = asked.cap_id;
        cap = asked.cap;
        grant = asked.grant;
        held =
            ap (λ m. get m (capability_key p again d)) spent.capabilities_kept
            ∙ ap (λ a. get s.active_capabilities (a, d.action_class, d.scope)) author
            ∙ asked.held;
        found = found;
        decoded = asked.decoded;
        asks = asked.asks;
        no_class =
            ap (λ m. get m (class_key p again d)) spent.class_kept
            ∙ ap (λ a. get s.class_approvals (d.action_class, d.scope, some a)) author
            ∙ asked.no_class;
        no_wildcard = ap (λ m. get m (wildcard_key p d)) spent.class_kept ∙ asked.no_wildcard;
      } in
      let second = check_action-RestsOn p again d later t asked_again same run2 in
      let one_hash : second.h ≡ first.h = cc (
        second.hashed,
        first.hashed,
        ap (λ a. sha256_canonical p (Form.action_subject a d)) author,
      ) in
      absurd (cc (second.valid, gone, ap (get t.valid_approvals) one_hash))
