-- ===== src/Verify/Replay/Steps.antt =====
-- src/verify/verifier/replay.rs: a replay that succeeds, as a relation with a case for each step.
use bellbook.Prelude.{
  ℕ, ◌+◌, ◌≡◌, subst, true, false, Option, some, List, [], ◌∷◌, ◌==◌, ==_iff, nat_ord, option_ord,
  inl, inr, Bool-cases, ok, err, or_err, guard, ◌>>=◌, >>=-eq-ok, >>-eq-ok, guard-eq-ok,
  or_err-eq-ok, unwrap_or, arith,
}
use bellbook.Record.Kind.{Kind, RefType, ReasonCode, kind_ord, reason_ord, verdict_result_ord}
use bellbook.Record.Refs.{find_ref}
use bellbook.Record.Payloads.{VerdictData}
use bellbook.Record.Envelope.{Record}
use bellbook.State.Defs.{State}
use bellbook.State.Apply.{apply_record}
use bellbook.State.Build.{finished}
use bellbook.Platform.{Platform, PayloadType, decode}
use bellbook.Verify.Rules.{VerifierRules}
use bellbook.Verify.Prior.{insert_record, view_prior, find_record}
use bellbook.Verify.Check.{Checked, dec}
use bellbook.Verify.RecordChecks.{check_verdict_record, check_record, verdict_of}
use bellbook.Verify.Replay.{
  Progress, at, first_target, same_verdict, fold_subject, replay_verdict, replay_pair, replay,
}

pub at-eq-ok : {A : Type 0} (n : ℕ) (m : Checked A) {a : A} → at n m ≡ ok a → m ≡ ok a
unfolding at
at-eq-ok n (ok a) h = cc
at-eq-ok n (err e) h = cc

same_verdict-eq : (a b : VerdictData) → same_verdict a b ≡ true → a ≡ b
same_verdict-eq a b h = ground (arith, ==_iff a.result b.result, ==_iff a.reason b.reason)

module _ (p : Platform) (records : List Record) (rules : VerifierRules) where
  -- What a pair has to be: the verdict's envelope passes, it names the subject, it is the verdict that
  -- the checks give again, and the fold of both succeeds.
  pub record IsPair (pos : ℕ) (r next : Record) (pr q : Progress) : Type 0 where
    pub stored : VerdictData
    pub folded : State
    pub is_verdict : next.kind ≡ Kind.verdict
    pub checked :
        check_verdict_record p next (view_prior records (insert_record pos r pr.index)) rules
        ≡ ok tt
    pub names : first_target next.refs r.id ≡ true
    pub decoded : decode p PayloadType.verdict next.payload ≡ some stored
    pub rederived :
        verdict_of
          (check_record p r (view_prior records (insert_record pos r pr.index)) rules pr.state)
        ≡ stored
    pub folds : finished (apply_record p pr.state r stored) ≡ some folded
    pub state : q.state ≡ record folded { applied_up_to = next.time }
    pub index : q.index ≡ insert_record (pos + 1) next (insert_record pos r pr.index)
    pub count : q.checked ≡ pr.checked + 2

  -- A verdict away from its subject.
  pub record IsLone (pos : ℕ) (r : Record) (pr q : Progress) : Type 0 where
    pub stored : VerdictData
    pub folded : State
    pub subject : Option Record
    pub checked : check_verdict_record p r (view_prior records pr.index) rules ≡ ok tt
    pub folds : fold_subject p subject stored pr.state ≡ some folded
    pub state : q.state ≡ record folded { applied_up_to = r.time }

  pub data Replays : ℕ → List Record → Progress → Progress → Type 0 where
    end : (pos : ℕ) (pr : Progress) → Replays pos [] pr pr
    pair :
        (pos : ℕ) (r next : Record) (rs : List Record) (pr q z : Progress)
        → (r.kind == Kind.verdict) ≡ false
        → IsPair pos r next pr q
        → Replays (pos + 2) rs q z
        → Replays pos (r ∷ next ∷ rs) pr z
    lone :
        (pos : ℕ) (r : Record) (rs : List Record) (pr q z : Progress)
        → IsLone pos r pr q
        → Replays (pos + 1) rs q z
        → Replays pos (r ∷ rs) pr z

  replay_pair-IsPair :
      (pos : ℕ) (r next : Record) (pr q : Progress)
      → replay_pair p records rules pos r next pr ≡ ok q
      → IsPair pos r next pr q
  unfolding replay_pair
  replay_pair-IsPair pos r next pr q run =
      let prior = view_prior records (insert_record pos r pr.index) in
      let recomputed = verdict_of (check_record p r prior rules pr.state) in
      let (e1, run1) =
        >>-eq-ok (guard (next.kind == Kind.verdict) ReasonCode.invalid_payload) _ run in
      let (e2, run2) = >>-eq-ok (check_verdict_record p next prior rules) _ run1 in
      let (e3, run3) =
        >>-eq-ok (guard (first_target next.refs r.id) ReasonCode.invalid_payload) _ run2 in
      let (stored, e4, run4) = >>=-eq-ok (dec p PayloadType.verdict next.payload) _ run3 in
      let (e5, run5) =
        >>-eq-ok
          (guard (same_verdict recomputed stored)
            (unwrap_or recomputed.reason ReasonCode.invalid_payload))
          _ run4 in
      let (s, e6, run6) =
        >>=-eq-ok (or_err (finished (apply_record p pr.state r stored)) ReasonCode.invalid_payload)
          _ run5 in
      record {
        stored = stored;
        folded = s;
        is_verdict = (==_iff next.kind Kind.verdict).0 (guard-eq-ok _ _ e1);
        checked = e2;
        names = guard-eq-ok _ _ e3;
        decoded = or_err-eq-ok _ _ e4;
        rederived = same_verdict-eq recomputed stored (guard-eq-ok _ _ e5);
        folds = or_err-eq-ok _ _ e6;
        state = cc run6;
        index = cc run6;
        count = cc run6;
      }

  replay_verdict-IsLone :
      (pos : ℕ) (r : Record) (pr q : Progress)
      → replay_verdict p records rules pos r pr ≡ ok q
      → IsLone pos r pr q
  unfolding replay_verdict
  replay_verdict-IsLone pos r pr q run =
      let prior = view_prior records pr.index in
      let (e1, run1) = >>-eq-ok (check_verdict_record p r prior rules) _ run in
      let (stored, e2, run2) = >>=-eq-ok (dec p PayloadType.verdict r.payload) _ run1 in
      let (id, e3, run3) =
        >>=-eq-ok (or_err (find_ref RefType.cause r.refs) ReasonCode.invalid_payload) _ run2 in
      let (s, e4, run4) =
        >>=-eq-ok
          (or_err (fold_subject p (find_record prior id) stored pr.state)
            ReasonCode.invalid_payload)
          _ run3 in
      record {
        stored = stored;
        folded = s;
        subject = find_record prior id;
        checked = e1;
        folds = or_err-eq-ok _ _ e4;
        state = cc run4;
      }

  -- The loop returns `ok` only through these steps.
  pub replay-Replays :
      (pos : ℕ) (rs : List Record) (pr z : Progress)
      → replay p records rules pos rs pr ≡ ok z
      → Replays pos rs pr z
  unfolding replay
  replay-Replays pos [] pr z run = subst (Replays pos [] pr) (cc run) (end pos pr)
  replay-Replays pos (r ∷ []) pr z run = elim (Bool-cases (r.kind == Kind.verdict)) [
    | inl is ↦
        lone pos r [] pr z z
          (replay_verdict-IsLone pos r pr z (at-eq-ok pr.checked _ (ground (arith, run, is))))
          (end (pos + 1) z)
    | inr other ↦ absurd (ground (arith, run, other))
  ]
  replay-Replays pos (r ∷ next ∷ rs) pr z run = elim (Bool-cases (r.kind == Kind.verdict)) [
    | inl is ↦
        let run1 : (at pr.checked (replay_verdict p records rules pos r pr)
              >>= (λ q. replay p records rules (pos + 1) (next ∷ rs) q))
            ≡ ok z =
          ground (arith, run, is) in
        let (q, e, run2) =
          >>=-eq-ok (at pr.checked (replay_verdict p records rules pos r pr)) _ run1 in
        lone pos r (next ∷ rs) pr q z (replay_verdict-IsLone pos r pr q (at-eq-ok pr.checked _ e))
          (replay-Replays (pos + 1) (next ∷ rs) q z run2)
    | inr other ↦
        let run1 : (at pr.checked (replay_pair p records rules pos r next pr)
              >>= (λ q. replay p records rules (pos + 2) rs q))
            ≡ ok z =
          ground (arith, run, other) in
        let (q, e, run2) =
          >>=-eq-ok (at pr.checked (replay_pair p records rules pos r next pr)) _ run1 in
        pair pos r next rs pr q z other
          (replay_pair-IsPair pos r next pr q (at-eq-ok pr.checked _ e))
          (replay-Replays (pos + 2) rs q z run2)
  ]
