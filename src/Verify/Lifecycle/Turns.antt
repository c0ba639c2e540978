-- ===== src/Verify/Lifecycle/Turns.antt =====
-- src/verify/verifier/lifecycle.rs and src/state/incremental.rs: the turns of a conversation.
use bellbook.Prelude.{
  ◌+◌, ◌≤◌, ◌≡◌, sym, subst, true, not, ◌&&◌, none, some, ◌==◌, ==_iff, nat_ord, if◌then◌else◌, ok,
  guard, >>=-eq-ok, >>-eq-ok, guard-eq-ok, or_err-eq-ok, unwrap_or, arith,
}
use bellbook.Prelude.Map.{contains, get, get-put, contains-remove}
use bellbook.Record.Kind.{ReasonCode}
use bellbook.Record.Payloads.{ResponseData}
use bellbook.Record.Envelope.{Record}
use bellbook.State.Defs.{State}
use bellbook.State.Apply.{turn_max, apply_response}
use bellbook.Platform.{Platform, PayloadType, decode}
use bellbook.Verify.Prior.{Prior}
use bellbook.Verify.Check.{dec}
use bellbook.Verify.Work.{active_request}
use bellbook.Verify.Lifecycle.{check_closing, check_response}

-- A response is the next turn of its request, and after it the count is one more; if it closes the
-- request, no action of the request is open, no plan of it is active, and it is active no more.
pub record IsNextTurn (d : ResponseData) (s : State) : Type 0 where
  pub turn : d.turn_index ≡ unwrap_or (get s.response_turns d.request_id) 0
  pub counted : get (apply_response d s).response_turns d.request_id ≡ some (d.turn_index + 1)
  pub nothing_open :
      d.closes_request ≡ true
      → (unwrap_or (get s.request_open_action_count d.request_id) 0 ≡ 0)
        × (get s.active_plans d.request_id ≡ none)
  pub activity : contains (apply_response d s).active_requests d.request_id ≡ not d.closes_request

module _ (p : Platform) (r : Record) (prior : Prior) (s : State) where
  nothing_open-check_closing :
      (d : ResponseData)
      → (if d.closes_request then check_closing p d.request_id s else ok tt) ≡ ok tt
      → d.closes_request ≡ true
      → (unwrap_or (get s.request_open_action_count d.request_id) 0 ≡ 0)
        × (get s.active_plans d.request_id ≡ none)
  unfolding check_closing
  nothing_open-check_closing d run closes = ground arith

  response-IsNextTurn :
      (d : ResponseData)
      → (not (unwrap_or (get s.response_turns d.request_id) 0 == turn_max)
          && d.turn_index == unwrap_or (get s.response_turns d.request_id) 0)
        ≡ true
      → contains s.active_requests d.request_id ≡ true
      → (if d.closes_request then check_closing p d.request_id s else ok tt) ≡ ok tt
      → unwrap_or (get s.response_turns d.request_id) 0 ≤ turn_max
      → IsNextTurn d s
  unfolding apply_response
  response-IsNextTurn d fits active run bound =
      let turn : d.turn_index ≡ unwrap_or (get s.response_turns d.request_id) 0 = ground arith in
      record {
        turn = turn;
        counted = ground (
          arith,
          get-put s.response_turns d.request_id (d.turn_index + 1) d.request_id,
          ==_iff d.request_id d.request_id,
        );
        nothing_open = nothing_open-check_closing d run;
        activity = ground (
          arith,
          contains-remove s.active_requests d.request_id d.request_id,
          ==_iff d.request_id d.request_id,
        );
      }

  -- Where the count of turns fits in u32, a response that passes its check is the next turn of its
  -- request without a gap, and folding it
  -- counts exactly that turn; a closing one leaves no open action and no active plan behind and closes
  -- the request, any other leaves it active.
  pub check_response-IsNextTurn :
      (d : ResponseData)
      → decode p PayloadType.response r.payload ≡ some d
      → unwrap_or (get s.response_turns d.request_id) 0 ≤ turn_max
      → check_response p r prior s ≡ ok tt
      → IsNextTurn d s
  unfolding check_response active_request apply_response
  check_response-IsNextTurn d decoded bound run =
      let (d1, e1, run1) = >>=-eq-ok (dec p PayloadType.response r.payload) _ run in
      let (request, e2, run2) = >>=-eq-ok (active_request r d1.request_id prior s) _ run1 in
      let (e3, run3) =
        >>-eq-ok
          (guard
            (not (unwrap_or (get s.response_turns d1.request_id) 0 == turn_max)
              && d1.turn_index == unwrap_or (get s.response_turns d1.request_id) 0)
            ReasonCode.invalid_payload)
          _ run2 in
      let (f1, more1) =
        >>-eq-ok (guard (contains s.active_requests d1.request_id) ReasonCode.request_missing) _
          e2 in
      let fits = guard-eq-ok _ _ e3 in
      let active = guard-eq-ok _ _ f1 in
      let same : d1 ≡ d =
        cc (or_err-eq-ok (decode p PayloadType.response r.payload) _ e1, decoded) in
      subst (λ (e : ResponseData). IsNextTurn e s) same
        (response-IsNextTurn d1 fits active run3 (
          subst (λ (e : ResponseData). unwrap_or (get s.response_turns e.request_id) 0 ≤ turn_max)
            (sym same) bound))
