-- ===== src/Verify/Replay/Checkpoints.antt =====
-- src/checkpoint.rs: how checkpoints are made, and what verify_log makes of them.
use bellbook.Prelude.{
  ◌<◌, ◌≡◌, refl, sym, ap, ◌∙◌, true, false, Option, none, some, List, [], ◌∷◌, ◌==◌, ==_iff,
  nat_ord, leb, ok, err, if◌then◌else◌, take, drop, map, length, Bool-cases, inl, inr, arith,
  and_then, and_then-eq-some,
}
use bellbook.Base.Hash.{sha256_concat_ids}
use bellbook.Record.Kind.{ReasonCode, VerdictResult, verdict_result_ord}
use bellbook.Record.Envelope.{Record}
use bellbook.State.Defs.{State}
use bellbook.State.Build.{last_time, build_state_unchecked}
use bellbook.Platform.{Platform, Form, sha256_canonical}
use bellbook.Verify.Rules.{VerifierRules}
use bellbook.Verify.Prior.{index_of}
use bellbook.Verify.Replay.{
  LogVerdict, Checkpoint, TrustedCheckpoint, Progress, Replay, at, last_id, seed, replay,
  replay_from, conclude, verify_log,
}
use bellbook.Verify.Replay.Pairs.{replay_from-IsAudited}

take-length : {A : Type 0} (xs : List A) → take (length xs) xs ≡ xs
take-length [] = refl
take-length (x ∷ xs) = ap (λ l. x ∷ l) (take-length xs)

drop-length : {A : Type 0} (xs : List A) → drop (length xs) xs ≡ []
drop-length [] = refl
drop-length (x ∷ xs) = drop-length xs

module _ (p : Platform) where
  unfoldable pub create_checkpoint : List Record → State → Option Checkpoint
  unfolding sha256_canonical sha256_concat_ids
  create_checkpoint records s = and_then (sha256_canonical p (Form.state s)) λ state_hash.
      some record {
        log_length = length records;
        last_time = last_time records;
        last_record_id = last_id records;
        state_hash = state_hash;
        log_hash = sha256_concat_ids p.sha256 (map (λ r. r.id) records);
      }

  unfoldable pub assume_verified : Checkpoint → VerifierRules → Option TrustedCheckpoint
  unfolding sha256_canonical
  assume_verified checkpoint rules =
      and_then (sha256_canonical p (Form.rules rules))
        λ rules_hash. some record { checkpoint = checkpoint; rules_hash = rules_hash }

  unfoldable pub from_verified_log : List Record → VerifierRules → Option TrustedCheckpoint
  unfolding verify_log build_state_unchecked create_checkpoint assume_verified
  from_verified_log records rules =
      if (verify_log p records rules none).result == VerdictResult.accept
      then and_then (build_state_unchecked p records) (λ s.
        and_then (create_checkpoint records s) (λ checkpoint. assume_verified checkpoint rules))
      else none

  -- What a checkpoint that was made from a verified log says.
  record IsMadeFrom (records : List Record) (rules : VerifierRules) (trusted : TrustedCheckpoint)
      : Type 0 where
    pub accepted : (verify_log p records rules none).result ≡ VerdictResult.accept
    pub state : State
    pub built : build_state_unchecked p records ≡ some state
    pub state_hash : sha256_canonical p (Form.state state) ≡ some trusted.checkpoint.state_hash
    pub rules_hash : sha256_canonical p (Form.rules rules) ≡ some trusted.rules_hash
    pub log_length : trusted.checkpoint.log_length ≡ length records
    pub last : trusted.checkpoint.last_time ≡ last_time records
    pub last_record_id : trusted.checkpoint.last_record_id ≡ last_id records
    pub log_hash :
        trusted.checkpoint.log_hash ≡ sha256_concat_ids p.sha256 (map (λ r. r.id) records)

  from_verified_log-IsMadeFrom :
      (records : List Record) (rules : VerifierRules) (trusted : TrustedCheckpoint)
      → from_verified_log records rules ≡ some trusted
      → IsMadeFrom records rules trusted
  unfolding from_verified_log create_checkpoint assume_verified
  from_verified_log-IsMadeFrom records rules trusted run =
      elim (Bool-cases ((verify_log p records rules none).result == VerdictResult.accept)) [
        | inr other ↦ absurd (ground (arith, other, run))
        | inl accepted ↦
            let run1 : and_then (build_state_unchecked p records) (λ s.
              and_then (create_checkpoint records s)
                (λ checkpoint. assume_verified checkpoint rules))
                ≡ some trusted =
              ground (arith, accepted, run) in
            let (s, e1, run2) = and_then-eq-some (build_state_unchecked p records) _ run1 in
            let (checkpoint, e2, run3) = and_then-eq-some (create_checkpoint records s) _ run2 in
            let (h, e3, run4) = and_then-eq-some (sha256_canonical p (Form.rules rules)) _ run3 in
            let (k, e4, run5) = and_then-eq-some (sha256_canonical p (Form.state s)) _ e2 in
            record {
              accepted =
                  (==_iff (verify_log p records rules none).result VerdictResult.accept).0 accepted;
              state = s;
              built = e1;
              state_hash = cc (e4, run4, run5);
              rules_hash = cc (e3, run4);
              log_length = cc (run4, run5);
              last = cc (run4, run5);
              last_record_id = cc (run4, run5);
              log_hash = cc (run4, run5);
            }
      ]

  seed-whole :
      (records : List Record) (rules : VerifierRules) (trusted : TrustedCheckpoint)
      (made : IsMadeFrom records rules trusted)
      → seed p (some trusted) records rules
        ≡ ok (
          trusted.checkpoint.log_length,
          record { state = made.state; index = index_of records; checked = 0 },
        )
  unfolding seed
  seed-whole records rules trusted made =
      let cp = trusted.checkpoint in
      let all_of : take cp.log_length records ≡ records =
        ap (λ n. take n records) made.log_length ∙ take-length records in
      let rest : drop cp.log_length records ≡ [] =
        ap (λ n. drop n records) made.log_length ∙ drop-length records in
      let fits : leb cp.log_length (length records) ≡ true = ground (arith, made.log_length) in
      let same_rules : (trusted.rules_hash == trusted.rules_hash) ≡ true =
        (==_iff trusted.rules_hash trusted.rules_hash).1 refl in
      let same_log =
        (==_iff (sha256_concat_ids p.sha256 (map (λ r. r.id) records)) cp.log_hash).1
          (sym made.log_hash) in
      let same_time = (==_iff cp.last_time (last_time records)).1 made.last in
      let same_id = (==_iff cp.last_record_id (last_id records)).1 made.last_record_id in
      let same_state = (==_iff cp.state_hash cp.state_hash).1 refl in
      rw
        (
          seed, made.rules_hash, same_rules, fits, all_of, same_log, rest, made.built,
          made.state_hash, same_time, same_id, same_state,
        )
        refl

  replay_from-whole :
      (records : List Record) (rules : VerifierRules) (trusted : TrustedCheckpoint)
      (made : IsMadeFrom records rules trusted) (z : Progress)
      → replay_from p records rules none ≡ ok z
      → replay_from p records rules (some trusted)
        ≡ ok record { state = made.state; index = index_of records; checked = 0 }
  unfolding replay_from at replay
  replay_from-whole records rules trusted made z run =
      let audited = replay_from-IsAudited p records rules z run in
      let rest : drop trusted.checkpoint.log_length records ≡ [] =
        ap (λ n. drop n records) made.log_length ∙ drop-length records in
      rw
        (
          replay_from,
          seed-whole records rules trusted made,
          audited.timed,
          audited.genesis,
          audited.identified,
          rest,
        )
        refl

  seed-fewer :
      (records : List Record) (rules : VerifierRules) (trusted : TrustedCheckpoint)
      (made : IsMadeFrom records rules trusted) (fewer : List Record)
      → length fewer < length records
      → seed p (some trusted) fewer rules ≡ err ReasonCode.invalid_checkpoint
  unfolding seed
  seed-fewer records rules trusted made fewer short =
      let same_rules = (==_iff trusted.rules_hash trusted.rules_hash).1 refl in
      let cut : leb trusted.checkpoint.log_length (length fewer) ≡ false =
        ground (arith, made.log_length, short) in
      rw (seed, made.rules_hash, same_rules, cut) refl

  -- What a checkpoint promises of the log that it was made from.
  pub record IsHeld (records : List Record) (rules : VerifierRules) (trusted : TrustedCheckpoint)
      : Type 0 where
    pub accepts : (verify_log p records rules (some trusted)).result ≡ VerdictResult.accept
    pub skips : (verify_log p records rules (some trusted)).checked_records ≡ 0
    pub refuses_less :
        (fewer : List Record)
        → length fewer < length records
        → (verify_log p fewer rules (some trusted)).reason ≡ some ReasonCode.invalid_checkpoint

  -- The checkpoint that is made from a verified log is accepted with that log, and the replay then has
  -- nothing left to check; with a log of fewer records it is refused as an invalid checkpoint.
  pub from_verified_log-IsHeld :
      (records : List Record) (rules : VerifierRules) (trusted : TrustedCheckpoint)
      → from_verified_log records rules ≡ some trusted
      → IsHeld records rules trusted
  unfolding verify_log conclude replay_from at
  from_verified_log-IsHeld records rules trusted run =
      by_outcome (replay_from p records rules none) refl
    where
      made : IsMadeFrom records rules trusted
      made = from_verified_log-IsMadeFrom records rules trusted run

      by_outcome :
          (o : Replay Progress)
          → replay_from p records rules none ≡ o
          → IsHeld records rules trusted
      by_outcome (err e) failed = absurd (cc (made.accepted, ap (conclude records) failed))
      by_outcome (ok z) replayed =
          let again =
            ap (conclude records) (replay_from-whole records rules trusted made z replayed) in
          record {
            accepts = ap (λ (v : LogVerdict). v.result) again;
            skips = ap (λ (v : LogVerdict). v.checked_records) again;
            refuses_less = λ fewer short.
                rw (verify_log, replay_from, seed-fewer records rules trusted made fewer short)
                  refl;
          }
