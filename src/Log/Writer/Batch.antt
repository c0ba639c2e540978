-- ===== src/Log/Writer/Batch.antt =====
-- src/log/writer/core.rs, helpers.rs: batches of proposals, and the append against an expected head.
pub mod Landing
pub mod Retry
use bellbook.Prelude.{
  ℕ, ◌+◌, ◌-◌, ◌^◌, compare, true, false, Option, none, some, List, [], ◌∷◌, ◌++◌, ◌==◌, nat_ord,
  if◌then◌else◌, ok, err, ◌>>=◌, ◌>>◌, unwrap_or, length, last?, get_elem?,
}
use bellbook.Prelude.Sorting.{sort_by}
use bellbook.Base.Hash.{Hash256}
use bellbook.Record.Refs.{RecordId}
use bellbook.Record.Payloads.{VerdictData}
use bellbook.Record.Envelope.{Record, Proposal}
use bellbook.State.Defs.{State}
use bellbook.Platform.{Platform, PayloadType, Form, sha256_canonical, decode}
use bellbook.Verify.Rules.{VerifierRules}
use bellbook.Log.Errors.{LogError, Logged}
use bellbook.Log.Storage.{Fault}
use bellbook.Log.Writer.{
  LogWriter, Outcome, proposal_matches_record, ensure_writable, ensure_rules_match,
  ensure_state_matches, commit,
}

abbrev pub empty_head : RecordId
empty_head = 0

pub record BatchAppend : Type 0 where
  pub head : RecordId
  pub results : List (RecordId × VerdictData)
  pub replayed : ℕ

-- The landed part of a batch: where it ends, what it gave, and the proposals after it.
pub record Landed : Type 0 where
  pub pos : ℕ
  pub results : List (RecordId × VerdictData)
  pub rest : List Proposal

unfoldable pub head : LogWriter → RecordId
head w = elim (last? w.log.records) [ none ↦ empty_head | some r ↦ r.id ]

-- `records.iter().position(…)`.
unfoldable pub position : RecordId → List Record → Option ℕ
position id [] = none
position id (r ∷ rs) =
    let rest = position id rs in
    if r.id == id then some 0 else elim rest [ none ↦ none | some n ↦ some (n + 1) ]

-- The position right after the expected head.
unfoldable pub start_after : LogWriter → RecordId → Logged ℕ
unfolding position head
start_after w expected =
    if expected == empty_head then ok 0 else elim (position expected w.log.records) [
      | none ↦ err (LogError.head_conflict expected (head w))
      | some pos ↦ ok (pos + 1)
    ]

-- `records[pos - 1].id` behind a landed batch.
abbrev pub head_before : ℕ → List Record → RecordId
head_before pos records = elim (get_elem? records (pos - 1)) [ none ↦ empty_head | some r ↦ r.id ]

module _ (p : Platform) where
  -- `[0xff; 32]` where the proposal cannot be serialized.
  abbrev pub batch_key : Proposal → Hash256
  batch_key proposal = unwrap_or (sha256_canonical p (Form.proposal proposal)) (2 ^ 256 - 1)

  -- The sort is unstable in the source, where proposals of one hash are equal.
  unfoldable pub sort_batch : List Proposal → List Proposal
  unfolding sort_by sha256_canonical
  sort_batch proposals = sort_by (λ a b. compare (batch_key a) (batch_key b)) proposals

  -- The loop of `batch_commit`; commit number `n` meets the failures `faults n`.
  unfoldable pub commit_all :
      (ℕ → Fault)
      → ℕ
      → List Proposal
      → VerifierRules
      → LogWriter
      → State
      → List (RecordId × VerdictData)
      → Outcome (List (RecordId × VerdictData))
  unfolding commit
  commit_all faults n [] rules w s results = record { result = ok results; writer = w; state = s }
  commit_all faults n (proposal ∷ proposals) rules w s results =
      let out = commit p (faults n) w proposal rules s in
      elim out.result [
        | err e ↦ record { result = err e; writer = out.writer; state = out.state }
        | ok result ↦
            commit_all faults (n + 1) proposals rules out.writer out.state (results ++ result ∷ [])
      ]

  unfoldable pub batch_commit :
      (ℕ → Fault)
      → LogWriter
      → List Proposal
      → VerifierRules
      → State
      → Outcome (List (RecordId × VerdictData))
  unfolding sort_batch commit_all
  batch_commit faults w proposals rules s = commit_all faults 0 (sort_batch proposals) rules w s []

  -- The longest prefix of the batch that stands in the log from `pos` on.
  unfoldable pub match_landed :
      List Record → ℕ → List Proposal → List (RecordId × VerdictData) → Logged Landed
  unfolding proposal_matches_record decode
  match_landed records pos [] results = ok record { pos = pos; results = results; rest = [] }
  match_landed records pos (proposal ∷ proposals) results =
      let stop : Landed = record { pos = pos; results = results; rest = proposal ∷ proposals } in
      elim (get_elem? records pos) [
        | none ↦ ok stop
        | some subject ↦ elim (proposal_matches_record proposal subject) [
          | false ↦ ok stop
          | true ↦ elim (get_elem? records (pos + 1)) [
            | none ↦ err LogError.corrupted_recovery
            | some verdict ↦ elim (decode p PayloadType.verdict verdict.payload) [
              | none ↦ err LogError.serde_json
              | some d ↦ match_landed records (pos + 2) proposals (results ++ (subject.id, d) ∷ [])
            ]
          ]
        ]
      ]

  -- The rest of the batch is committed at the end of the log only.
  abbrev pub append_rest : ℕ → Outcome (List (RecordId × VerdictData)) → Outcome BatchAppend
  append_rest replayed out = record {
    result = out.result >>= (λ results.
        ok record { head = head out.writer; results = results; replayed = replayed });
    writer = out.writer;
    state = out.state;
  }

  abbrev pub continue_batch :
      (ℕ → Fault)
      → LogWriter
      → RecordId
      → ℕ
      → VerifierRules
      → State
      → Logged Landed
      → Outcome BatchAppend
  continue_batch faults w expected total rules s (err e) = record {
    result = err e;
    writer = w;
    state = s;
  }
  continue_batch faults w expected total rules s (ok landed) =
      let replayed = total - length landed.rest in
      elim landed.rest [
        | [] ↦ record {
          result = ok record {
            head = if landed.pos == 0 then empty_head else head_before landed.pos w.log.records;
            results = landed.results;
            replayed = replayed;
          };
          writer = w;
          state = s;
        }
        | x ∷ rest ↦
            if landed.pos == length w.log.records
            then append_rest replayed (commit_all faults 0 landed.rest rules w s landed.results)
            else record {
              result = err (LogError.head_conflict expected (head w));
              writer = w;
              state = s;
            }
      ]

  -- The checks, and the landed part of the sorted batch.
  unfoldable pub find_landed :
      LogWriter → RecordId → List Proposal → VerifierRules → State → Logged Landed
  unfolding ensure_writable ensure_rules_match ensure_state_matches start_after match_landed
  find_landed w expected sorted rules s = do
    ensure_writable p w
    ensure_rules_match p w rules
    ensure_state_matches p w s
    start ← start_after w expected
    match_landed w.log.records start sorted []

  unfoldable pub checked_batch_commit :
      (ℕ → Fault)
      → LogWriter
      → RecordId
      → List Proposal
      → VerifierRules
      → State
      → Outcome BatchAppend
  unfolding sort_batch find_landed commit_all head
  checked_batch_commit faults w expected proposals rules s =
      let sorted = sort_batch proposals in
      continue_batch faults w expected (length sorted) rules s
        (find_landed w expected sorted rules s)
