-- ===== src/Verify/Replay/Taint.antt =====
-- src/verify/verifier/replay.rs: the taint that a replay ends with.
use bellbook.Prelude.{
  ◌↔◌, ℕ, ◌+◌, ◌≡◌, refl, sym, subst, true, Option, none, some, List, ok, err, or_err, guard,
  >>=-eq-ok, >>-eq-ok, or_err-eq-ok, drop, ◌==◌, nat_ord, all, length, leb, map, take, option_ord,
  ◌&&◌,
}
use bellbook.Prelude.Map.{contains}
use bellbook.Base.Hash.{sha256_concat_ids}
use bellbook.Record.Kind.{ReasonCode, VerdictResult}
use bellbook.Record.Refs.{RecordId}
use bellbook.Record.Payloads.{VerdictData}
use bellbook.Record.Envelope.{Record}
use bellbook.State.Defs.{State, default_state}
use bellbook.State.Apply.Exact.{Rests, IsTaintExact, IsTaintExact-iff}
use bellbook.State.Build.Taint.{
  IsTaintExact-of_some, default_state-IsTaintExact, finished-IsTaintExact,
  build_state_unchecked-IsTaintExact,
}
use bellbook.State.Build.{last_time, build_state_unchecked}
use bellbook.Platform.{Platform, Form, sha256_canonical}
use bellbook.Verify.Rules.{VerifierRules}
use bellbook.Verify.Check.{reject_if}
use bellbook.Verify.Replay.{
  Progress, TrustedCheckpoint, at, seed, times_fit, starts_at_one, starts_with_verdict, last_id,
  id_fits, fold_subject, replay_from, verify_log, conclude, Replay,
}
use bellbook.Verify.Replay.Steps.{Replays, replay-Replays, at-eq-ok}

IsTaintExact-dated :
    (s t : State) (time : ℕ)
    → IsTaintExact s
    → t ≡ record s { applied_up_to = time }
    → IsTaintExact t
IsTaintExact-dated s t time v e =
    subst IsTaintExact (sym e) (record { sound = v.sound; covers = v.covers; closed = v.closed })

module _ (p : Platform) where
  fold_subject-IsTaintExact :
      (o : Option Record) (verdict : VerdictData) (s t : State)
      → IsTaintExact s
      → fold_subject p o verdict s ≡ some t
      → IsTaintExact t
  fold_subject-IsTaintExact none verdict s t v h = IsTaintExact-of_some h v
  fold_subject-IsTaintExact (some r) verdict s t v h = finished-IsTaintExact p s t r verdict v h

  Replays-IsTaintExact :
      (records : List Record) (rules : VerifierRules) (pos : ℕ) (rs : List Record) (pr z : Progress)
      → Replays p records rules pos rs pr z
      → IsTaintExact pr.state
      → IsTaintExact z.state
  Replays-IsTaintExact records rules _ _ pr _ (Replays.end _ _) v = v
  Replays-IsTaintExact records rules _ _ pr z (Replays.pair pos r next rs _ q _ other step more) v =
      Replays-IsTaintExact records rules (pos + 2) rs q z more (
        IsTaintExact-dated step.folded q.state next.time
          (finished-IsTaintExact p pr.state step.folded r step.stored v step.folds) step.state)
  Replays-IsTaintExact records rules _ _ pr z (Replays.lone pos r rs _ q _ step more) v =
      Replays-IsTaintExact records rules (pos + 1) rs q z more (
        IsTaintExact-dated step.folded q.state r.time
          (fold_subject-IsTaintExact step.subject step.stored pr.state step.folded v step.folds)
          step.state)

  seed-IsTaintExact :
      (checkpoint : Option TrustedCheckpoint) (records : List Record) (rules : VerifierRules)
      (from : ℕ × Progress)
      → seed p checkpoint records rules ≡ ok from
      → IsTaintExact from.1.state
  unfolding seed
  seed-IsTaintExact none records rules from run =
      subst IsTaintExact {x = default_state} {y = from.1.state} (cc run) default_state-IsTaintExact
  seed-IsTaintExact (some trusted) records rules from run =
      let cp = trusted.checkpoint in
      let prefix = take cp.log_length records in
      let (h, e1, run1) =
        >>=-eq-ok (or_err (sha256_canonical p (Form.rules rules)) ReasonCode.invalid_checkpoint) _
          run in
      let (e2, run2) =
        >>-eq-ok (guard (h == trusted.rules_hash) ReasonCode.invalid_checkpoint) _ run1 in
      let (e3, run3) =
        >>-eq-ok (guard (leb cp.log_length (length records)) ReasonCode.invalid_checkpoint) _
          run2 in
      let (e4, run4) =
        >>-eq-ok
          (guard (sha256_concat_ids p.sha256 (map (λ r. r.id) prefix) == cp.log_hash)
            ReasonCode.invalid_checkpoint)
          _ run3 in
      let (e5, run5) =
        >>-eq-ok
          (reject_if (starts_with_verdict (drop cp.log_length records))
            ReasonCode.invalid_checkpoint)
          _ run4 in
      let (s, e6, run6) =
        >>=-eq-ok (or_err (build_state_unchecked p prefix) ReasonCode.invalid_payload) _ run5 in
      let (state_hash, e7, run7) =
        >>=-eq-ok (or_err (sha256_canonical p (Form.state s)) ReasonCode.invalid_payload) _ run6 in
      let (e8, run8) =
        >>-eq-ok
          (guard
            (cp.last_time == last_time prefix
              && cp.last_record_id == last_id prefix
              && cp.state_hash == state_hash)
            ReasonCode.invalid_checkpoint)
          _ run7 in
      subst IsTaintExact {x = s} {y = from.1.state} (cc run8)
        (build_state_unchecked-IsTaintExact p prefix s (or_err-eq-ok _ _ e6))

  replay_from-IsTaintExact :
      (records : List Record) (rules : VerifierRules) (checkpoint : Option TrustedCheckpoint)
      (z : Progress)
      → replay_from p records rules checkpoint ≡ ok z
      → IsTaintExact z.state
  unfolding replay_from
  replay_from-IsTaintExact records rules checkpoint z run =
      let (from, e1, run1) = >>=-eq-ok (at 0 (seed p checkpoint records rules)) _ run in
      let (e2, run2) =
        >>-eq-ok (at 0 (guard (times_fit records) ReasonCode.invalid_payload)) _ run1 in
      let (e3, run3) =
        >>-eq-ok (at 0 (guard (starts_at_one records) ReasonCode.invalid_payload)) _ run2 in
      let (e4, run4) =
        >>-eq-ok (at 0 (guard (all (id_fits p) records) ReasonCode.invalid_payload)) _ run3 in
      Replays-IsTaintExact records rules from.0 (drop from.0 records) from.1 z
        (replay-Replays p records rules from.0 (drop from.0 records) from.1 z run4)
        (seed-IsTaintExact checkpoint records rules from (at-eq-ok 0 _ e1))

  -- The reported taint is what rests on the reported retractions, along the edges that the replay has
  -- recorded.
  pub record HasExactTaint (records : List Record) (rules : VerifierRules)
      (checkpoint : Option TrustedCheckpoint) : Type 0 where
    pub progress : Progress
    pub replayed : replay_from p records rules checkpoint ≡ ok progress
    pub exact :
        (d : RecordId)
        → (contains (verify_log p records rules checkpoint).tainted_records d ≡ true)
          ↔ Rests
              (verify_log p records rules checkpoint).retracted_records
              progress.state.epistemic_dependents
              d

  -- An accepted log has replayed, and it reports as tainted exactly the records that rest on a record
  -- that it reports as retracted, along the epistemic edges that the replay has recorded, with or
  -- without a checkpoint.
  pub verify_log-HasExactTaint :
      (records : List Record) (rules : VerifierRules) (checkpoint : Option TrustedCheckpoint)
      → (verify_log p records rules checkpoint).result ≡ VerdictResult.accept
      → HasExactTaint records rules checkpoint
  unfolding verify_log conclude
  verify_log-HasExactTaint records rules checkpoint h =
      by_outcome (replay_from p records rules checkpoint) refl
    where
      by_outcome :
          (o : Replay Progress)
          → replay_from p records rules checkpoint ≡ o
          → HasExactTaint records rules checkpoint
      by_outcome (ok z) e = record {
        progress = z;
        replayed = e;
        exact = λ d.
            rw (e)
              (IsTaintExact-iff z.state (replay_from-IsTaintExact records rules checkpoint z e) d);
      }
      by_outcome (err e) failed = absurd (cc (h, failed))
