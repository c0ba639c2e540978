-- ===== src/Log/Writer/Space.antt =====
-- src/log/writer/core.rs, src/verify/verifier/verdict.rs: proposals of another space.
use bellbook.Prelude.{
  ◌≡◌, refl, ap, ◌∙◌, subst, Bool, true, false, Option, none, List, [], ◌∷◌, ◌++◌, ◌==◌, ==_iff,
  nat_ord, ok, all, arith,
}
use bellbook.Record.Kind.{Kind, kind_ord, VerdictResult}
use bellbook.Record.Refs.{RecordId}
use bellbook.Record.Payloads.{VerdictData}
use bellbook.Record.Envelope.{Record, Proposal}
use bellbook.State.Defs.{State}
use bellbook.Platform.{Platform}
use bellbook.Verify.Rules.{VerifierRules}
use bellbook.Verify.Replay.{verify_log}
use bellbook.Verify.Replay.Verdicts.{in_space, verify_log-Judged}
use bellbook.Log.Storage.{Fault, FileLog}
use bellbook.Log.Writer.{LogWriter, Ed25519Signer, Outcome, commit_inner}
use bellbook.Log.Writer.Steps.{materialize_verdict-place}
use bellbook.Log.Writer.Outcomes.{Ends, IsCommitted, commit_inner-Ends}

all-last :
    (keep : Record → Bool) (l : List Record) (r : Record)
    → all keep (l ++ r ∷ []) ≡ true
    → keep r ≡ true
all-last keep [] r h = ground (arith, h)
all-last keep (x ∷ l) r h = all-last keep l r (ground (arith, h))

result-cases :
    (r : VerdictResult)
    → (r ≡ VerdictResult.accept → r ≡ VerdictResult.reject)
    → r ≡ VerdictResult.reject
result-cases VerdictResult.accept h = h refl
result-cases VerdictResult.reject h = refl

module _ (p : Platform) where
  module _ (w : LogWriter) (proposal : Proposal) (rules : VerifierRules) (s : State)
      (signer : Option Ed25519Signer) where
    -- A commit that returns `Ok` is a committed one.
    pub Ends-IsCommitted :
        (out : Outcome (RecordId × VerdictData)) (given : RecordId × VerdictData)
        → out.result ≡ ok given
        → Ends p w proposal rules s signer out
        → IsCommitted p w proposal rules s signer out
    Ends-IsCommitted out given ran (Ends.untouched e) = absurd (cc (ran, e.failed))
    Ends-IsCommitted out given ran (Ends.interrupted e) = absurd (cc (ran, e.failed))
    Ends-IsCommitted out given ran (Ends.committed e) = e

    -- A commit of a proposal of a space that is not the verifier's, where it returns `Ok`, leaves a log
    -- that replay rejects under these rules: the verdict record is put into the proposal's space, and
    -- replay wants every verdict in the verifier's.
    pub commit_inner-foreign_space :
        (io : Fault) (given : RecordId × VerdictData)
        → (proposal.space == rules.space) ≡ false
        → (commit_inner p io w proposal rules s signer).result ≡ ok given
        → (verify_log p
            (commit_inner p io w proposal rules s signer).writer.log.records
            rules
            none).result
          ≡ VerdictResult.reject
    commit_inner-foreign_space io given foreign ran =
        let out = commit_inner p io w proposal rules s signer in
        let done =
          Ends-IsCommitted out given ran (commit_inner-Ends p w proposal rules s signer io) in
        let (is_verdict, placed) =
          materialize_verdict-place p done.pair.subject done.pair.verdict_time
            done.pair.verdict_data done.pair.verdict_record done.facts.verdict_made in
        let records = ap (λ (l : FileLog). l.records) done.log in
        let body = ap (λ (r : Record). r.space) done.facts.body in
        result-cases (verify_log p out.writer.log.records rules none).result λ accepted.
          let spaced =
            all-last (in_space rules) (w.log.records ++ done.pair.subject ∷ [])
              done.pair.verdict_record
              (subst (λ l. all (in_space rules) l ≡ true) records
                (verify_log-Judged p out.writer.log.records rules accepted).0) in
          absurd (
            ground (
              arith,
              spaced,
              foreign,
              (==_iff done.pair.verdict_record.kind Kind.verdict).1 is_verdict,
              placed ∙ body,
              ==_iff done.pair.verdict_record.space rules.space,
              ==_iff proposal.space rules.space,
            ))
