-- ===== src/Verify/Work/Authority.antt =====
-- src/verify/verifier/activity.rs: what an action that passes its check has behind it.
use bellbook.Prelude.{
  ◌≡◌, refl, subst, ◌⊎◌, inl, inr, true, false, Option, none, some, ◌==◌, nat_ord, string_ord,
  option_ord, triple_ord, ==_iff, Option-cases, ok, err, or_err, guard, >>=-eq-ok, >>-eq-ok,
  guard-eq-ok, or_err-eq-ok, arith,
}
use bellbook.Prelude.Map.{contains, get}
use bellbook.Base.Hash.{Hash256}
use bellbook.Record.Kind.{ReasonCode, CapabilityMode}
use bellbook.Record.Refs.{RecordId}
use bellbook.Record.Payloads.{ActionData, ApprovalData, CapabilityData, RequestData}
use bellbook.Record.Envelope.{Record}
use bellbook.State.Defs.{State, ClassKey, is_discredited, stands}
use bellbook.Platform.{Platform, PayloadType, Form, decode, sha256_canonical}
use bellbook.Verify.Prior.{Prior, find_record}
use bellbook.Verify.Check.{Checked, reject_if, reject_if-eq-ok, dec, same_place}
use bellbook.Verify.Work.{
  is_expired, active_request, has_require_ref, exact_approval, class_approval, class_key,
  wildcard_key, try_slot, or_else, check_approval_for_action, approval_for_mode, capability_key,
  requires_approval, check_capability, check_action,
}

-- A search that ends with an answer had it in its first part, or went on to the next.
or_else-eq-ok :
    (m : Checked (Option RecordId)) (next : Checked RecordId) {id : RecordId}
    → or_else m next ≡ ok id
    → (m ≡ ok (some id)) ⊎ ((m ≡ ok none) × (next ≡ ok id))
or_else-eq-ok (err e) next h = cc
or_else-eq-ok (ok none) next h = inr (refl, h)
or_else-eq-ok (ok (some a)) next h = inl (cc)

try_slot-eq-ok :
    (o : Option RecordId) (f : RecordId → Checked (Option RecordId)) {id : RecordId}
    → try_slot o f ≡ ok (some id)
    → (slot : RecordId) × (o ≡ some slot) × (f slot ≡ ok (some id))
try_slot-eq-ok none f h = cc
try_slot-eq-ok (some a) f h = (a, refl, h)

module _ (p : Platform) (r : Record) (d : ActionData) (prior : Prior) (s : State) where
  -- A standing approval that has not expired at the action's time.
  pub record IsUsable (id : RecordId) (a : ApprovalData) : Type 0 where
    pub approval : Record
    pub found : find_record prior id ≡ some approval
    pub stands : stands s id ≡ true
    pub decoded : decode p PayloadType.approval approval.payload ≡ some a
    pub unexpired : is_expired a.expiry r.time ≡ false

  -- How an approval comes to cover the action: by the hash of the author with the payload, or by class.
  pub data Covers (id : RecordId) (a : ApprovalData) : Type 0 where
    exact :
        (h : Hash256)
        → sha256_canonical p (Form.action_subject r.author.id d) ≡ some h
        → get s.valid_approvals h ≡ some id
        → a.actor_id ≡ some r.author.id
        → a.scope ≡ d.scope
        → Covers id a
    by_class : get s.class_approvals (class_key p r d) ≡ some id → Covers id a
    by_wildcard : get s.class_approvals (wildcard_key p d) ≡ some id → Covers id a

  pub record IsApproved (id : RecordId) : Type 0 where
    pub a : ApprovalData
    pub usable : IsUsable id a
    pub covers : Covers id a

  exact_approval-IsApproved :
      (h : Hash256)
      → sha256_canonical p (Form.action_subject r.author.id d) ≡ some h
      → (slot id : RecordId) → get s.valid_approvals h ≡ some slot
      → exact_approval p r d prior s slot ≡ ok (some id)
      → (slot ≡ id) × IsApproved slot
  unfolding exact_approval
  exact_approval-IsApproved h eh slot id es run = elim (Option-cases (find_record prior slot)) [
    | inl none_found ↦ absurd (ground arith)
    | inr (approval, found) ↦ elim (Option-cases (decode p PayloadType.approval approval.payload)) [
      | inl bad ↦ absurd (ground arith)
      | inr (a, decoded) ↦ (
        ground arith,
        record {
          a = a;
          usable = record {
            approval = approval;
            found = found;
            stands = ground arith;
            decoded = decoded;
            unexpired = ground arith;
          };
          covers =
              exact h eh es (ground (arith, ==_iff a.actor_id (some r.author.id)))
                (ground (arith, ==_iff a.scope d.scope));
        },
      )
    ]
  ]

  class_approval-IsUsable :
      (slot id : RecordId)
      → class_approval p r prior s slot ≡ ok (some id)
      → (slot ≡ id) × ((a : ApprovalData) × IsUsable slot a)
  unfolding class_approval
  class_approval-IsUsable slot id run = elim (Option-cases (find_record prior slot)) [
    | inl none_found ↦ absurd (ground arith)
    | inr (approval, found) ↦ elim (Option-cases (decode p PayloadType.approval approval.payload)) [
      | inl bad ↦ absurd (ground arith)
      | inr (a, decoded) ↦ (
        ground arith,
        (
          a,
          record {
            approval = approval;
            found = found;
            stands = ground arith;
            decoded = decoded;
            unexpired = ground arith;
          },
        ),
      )
    ]
  ]

  by_slot :
      (key : ClassKey)
      → ((slot : RecordId) (a : ApprovalData)
          → get s.class_approvals key ≡ some slot
          → Covers slot a)
      → (id : RecordId)
      → try_slot (get s.class_approvals key) (class_approval p r prior s) ≡ ok (some id)
      → IsApproved id
  by_slot key covers id run =
      let (slot, e, found) = try_slot-eq-ok (get s.class_approvals key) _ run in
      let (same, (a, usable)) = class_approval-IsUsable slot id found in
      subst IsApproved same (record { a = a; usable = usable; covers = covers slot a e })

  check_approval_for_action-IsApproved :
      (id : RecordId) → check_approval_for_action p r d prior s ≡ ok id → IsApproved id
  unfolding check_approval_for_action
  check_approval_for_action-IsApproved id run =
      let (h, eh, run1) =
        >>=-eq-ok
          (or_err (sha256_canonical p (Form.action_subject r.author.id d))
            ReasonCode.invalid_payload)
          _ run in
      elim (or_else-eq-ok (try_slot (get s.valid_approvals h) (exact_approval p r d prior s)) _
        run1) [
          | inl found ↦
              let (slot, e, at_slot) = try_slot-eq-ok (get s.valid_approvals h) _ found in
              let (same, approved) =
                exact_approval-IsApproved h (or_err-eq-ok _ _ eh) slot id e at_slot in
              subst IsApproved same approved
          | inr (_, run2) ↦
              elim (or_else-eq-ok
                (try_slot (get s.class_approvals (class_key p r d)) (class_approval p r prior s)) _
                run2) [
                  | inl found ↦ by_slot (class_key p r d) (λ slot a e. by_class e) id found
                  | inr (_, run3) ↦
                      elim (or_else-eq-ok
                        (try_slot (get s.class_approvals (wildcard_key p d))
                          (class_approval p r prior s))
                        _ run3) [
                          | inl found ↦
                              by_slot (wildcard_key p d) (λ slot a e. by_wildcard e) id found
                          | inr (_, missing) ↦ absurd (cc missing)
                        ]
                ]
        ]

  -- What `check_capability` finds: a capability for the author's class and scope that stands, has
  -- not expired and does not deny, named by a `Require` ref; and under `Ask` an approval as well.
  pub record HasAuthority : Type 0 where
    pub cap_id : RecordId
    pub cap : Record
    pub grant : CapabilityData
    pub held : get s.active_capabilities (capability_key p r d) ≡ some cap_id
    pub found : find_record prior cap_id ≡ some cap
    pub stands : is_discredited s cap_id ≡ false
    pub decoded : decode p PayloadType.capability cap.payload ≡ some grant
    pub unexpired : is_expired grant.expiry r.time ≡ false
    pub cited : has_require_ref r cap_id ≡ true
    pub mode :
        (grant.mode ≡ CapabilityMode.auto)
        ⊎ ((grant.mode ≡ CapabilityMode.ask)
            × ((id : RecordId) × IsApproved id × (has_require_ref r id ≡ true)))

  approval_for_mode-IsApproved :
      (m : CapabilityMode) (o : Option RecordId)
      → approval_for_mode p m r d prior s ≡ ok o
      → requires_approval p r o ≡ true
      → (m ≡ CapabilityMode.auto)
        ⊎ ((m ≡ CapabilityMode.ask)
            × ((id : RecordId) × IsApproved id × (has_require_ref r id ≡ true)))
  unfolding approval_for_mode
  approval_for_mode-IsApproved CapabilityMode.auto o run cited = inl refl
  approval_for_mode-IsApproved CapabilityMode.deny o run cited = absurd (cc run)
  approval_for_mode-IsApproved CapabilityMode.ask none run cited =
      let (id, e, run1) = >>=-eq-ok (check_approval_for_action p r d prior s) _ run in
      absurd (cc run1)
  approval_for_mode-IsApproved CapabilityMode.ask (some id) run cited =
      let (found, e, run1) = >>=-eq-ok (check_approval_for_action p r d prior s) _ run in
      let same : found ≡ id = cc run1 in
      inr (refl, (id, check_approval_for_action-IsApproved id (cc (e, same)), cited))

  check_capability-HasAuthority : check_capability p r d prior s ≡ ok tt → HasAuthority
  unfolding check_capability
  check_capability-HasAuthority run =
      let (cap_id, e1, run1) =
        >>=-eq-ok
          (or_err (get s.active_capabilities (capability_key p r d)) ReasonCode.capability_missing)
          _ run in
      let (cap, e2, run2) =
        >>=-eq-ok (or_err (find_record prior cap_id) ReasonCode.capability_missing) _ run1 in
      let (e3, run3) =
        >>-eq-ok (reject_if (is_discredited s cap_id) ReasonCode.capability_missing) _ run2 in
      let (grant, e4, run4) = >>=-eq-ok (dec p PayloadType.capability cap.payload) _ run3 in
      let (e5, run5) =
        >>-eq-ok (reject_if (is_expired grant.expiry r.time) ReasonCode.capability_missing) _
          run4 in
      let (approval, e6, run6) = >>=-eq-ok (approval_for_mode p grant.mode r d prior s) _ run5 in
      let (e7, run7) =
        >>-eq-ok (guard (has_require_ref r cap_id) ReasonCode.authority_ref_missing) _ run6 in
      record {
        cap_id = cap_id;
        cap = cap;
        grant = grant;
        held = or_err-eq-ok _ _ e1;
        found = or_err-eq-ok _ _ e2;
        stands = reject_if-eq-ok _ _ e3;
        decoded = or_err-eq-ok _ _ e4;
        unexpired = reject_if-eq-ok _ _ e5;
        cited = guard-eq-ok _ _ e7;
        mode = approval_for_mode-IsApproved grant.mode approval e6 (guard-eq-ok _ _ run7);
      }

module _ (p : Platform) (r : Record) (prior : Prior) (s : State) where
  -- An active request in the action's thread and space, and of its scope.
  pub record HasRequest (d : ActionData) : Type 0 where
    pub request : Record
    pub q : RequestData
    pub active : contains s.active_requests d.request_id ≡ true
    pub found : find_record prior d.request_id ≡ some request
    pub placed : same_place request r ≡ true
    pub decoded : decode p PayloadType.request request.payload ≡ some q
    pub scoped : d.scope ≡ q.scope

  pub record IsAuthorized : Type 0 where
    pub d : ActionData
    pub decoded : decode p PayloadType.action r.payload ≡ some d
    pub request : HasRequest d
    pub authority : HasAuthority p r d prior s

  -- An action that passes its check decodes; it names an active request of the same thread, space and
  -- scope; and its author holds a capability for its class and scope that the action requires by a
  -- ref, that stands and has not expired, and whose mode is `Auto`, or `Ask` with a standing,
  -- unexpired approval that covers the action and that it requires by a ref as well.
  pub check_action-IsAuthorized : check_action p r prior s ≡ ok tt → IsAuthorized
  unfolding check_action active_request
  check_action-IsAuthorized run =
      let (d, e1, run1) = >>=-eq-ok (dec p PayloadType.action r.payload) _ run in
      let (request, e2, run2) = >>=-eq-ok (active_request r d.request_id prior s) _ run1 in
      let (q, e3, run3) = >>=-eq-ok (dec p PayloadType.request request.payload) _ run2 in
      let (e4, run4) = >>-eq-ok (guard (d.scope == q.scope) ReasonCode.invalid_payload) _ run3 in
      let (f1, more1) =
        >>-eq-ok (guard (contains s.active_requests d.request_id) ReasonCode.request_missing) _
          e2 in
      let (found, f2, more2) =
        >>=-eq-ok (or_err (find_record prior d.request_id) ReasonCode.request_missing) _ more1 in
      let (f3, more3) = >>-eq-ok (guard (same_place found r) ReasonCode.request_missing) _ more2 in
      let same : found ≡ request = cc more3 in
      record {
        d = d;
        decoded = or_err-eq-ok _ _ e1;
        request = record {
          request = request;
          q = q;
          active = guard-eq-ok _ _ f1;
          found = cc (or_err-eq-ok _ _ f2, same);
          placed = cc (guard-eq-ok _ _ f3, same);
          decoded = or_err-eq-ok _ _ e3;
          scoped = (==_iff d.scope q.scope).0 (guard-eq-ok _ _ e4);
        };
        authority = check_capability-HasAuthority p r d prior s run4;
      }
