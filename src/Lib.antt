-- ===== src/Lib.antt =====
-- Bellbook: an append-only log of typed records, each judged by a deterministic verifier, and the
-- state that is derived from the accepted ones.
--
-- The program's parts, and the files that model them:
--   - Base/Hash, Base/Time, Base/Schema (src/base): digests and their hex text, the u64 clock of the
--     commit protocol, and the frozen schema names. A digest is the number that its 32 bytes spell.
--   - Record (src/record): Kind has the enums and the kind-to-author table, Refs the typed edges with
--     their sorting, Payloads the payload types with the checks of their conversions, Evidence the
--     evidence lattice, Envelope the record with the two forms that are hashed and signed. A record's
--     field `data` is `payload` here, and `Kind::Use` is `use_`.
--   - State (src/state): Defs is `State`, whose maps and sets are key-ordered lists (Prelude/Map);
--     Taint is `mark_tainted`; Operations, Retract and Apply are `apply_record` by its cases; Build is
--     `build_state_unchecked`. A fold returns the state and whether it succeeded, since a fold that
--     fails to decode keeps what it wrote before.
--   - Verify (src/verify): Rules is `VerifierRules` with the reading of its keys; Prior the id
--     index over the records before the one that is checked; Check the shape of a check, where `ok`
--     is the source's `None` and `err` its `Some(reason)`; Envelope the rules for every kind
--     (verifier/record_checks.rs), Work those of requests and actions (activity.rs), Lifecycle and
--     Plans those of results, refusals, usages, summaries, responses, retractions, approvals and
--     plans (lifecycle.rs, plans.rs), Evolution and Selection those of candidates, evaluations,
--     requirements and selections (evolution.rs); RecordChecks is `check_record` and
--     `verify_record`; Replay is `verify_log`.
--     Verify/Replay/Checkpoints is src/checkpoint.rs, less its attestations.
--   - Attestation (src/checkpoint.rs): head attestations and the check of their time's text, which is
--     bytes here.
--   - Context (src/context): the choice of the records that a proposer is shown, with its labels.
--   - Log (src/log): Errors is `LogError` (src/lib.rs); Storage the file as bytes in frames of a u32
--     length, its appends and its reading; Writer the single writer with its commit, Writer/Open the
--     opening with its recovery, Writer/Batch the batches. The file system is a `Fault`: which calls
--     fail, and how many bytes a failed write leaves. What a failed call leaves stays, so that opening
--     again meets it. The unstable sort of a batch is modelled as a stable one.
--   - Tests: a small platform, one that reads its records back, and runs of the theorems.
--   - Platform: what the program takes from libraries, as a record of functions: SHA-256, canonical
--     JSON, serde's parsing at the derived types and of records, and strict Ed25519. `decode`,
--     `compute_id` and `sha256_canonical` are the program's own over them.
-- The verifier reads the state and the index; the replay feeds each judged pair to both. The writer
-- verifies a proposal against the records on file and the caller's state, appends the pair, and folds
-- the state; what it opens it replays first.
--
-- Fuel: the taint walk has one step more than the index has edges, and the sweep of a plan's
-- dependency graph as many steps as the graph has nodes, since each is queued at most once. The
-- reading of the frames has as many steps as the file has bytes, since each frame takes four at least.
-- All other loops follow their lists.
-- Machine integers: times saturate or are checked at 2 ^ 64 - 1, response turns at 2 ^ 32 - 1, a
-- frame's length at 2 ^ 32 - 1 and a file's at 2 ^ 64 - 1; counters that the source adds to without a
-- check (usage counts, checked records) are not bounded.
--
-- Not modelled: the standing section of a log's verdict, queries, receipts, manifests,
-- profiles, the command line and the language bindings; canonical JSON itself, file locks beyond
-- whether the directory is locked, and flushing.
mod Prelude
pub mod Base
pub mod Record
pub mod State
pub mod Verify
pub mod Platform
pub mod Tests
pub mod Context
pub mod Log
pub mod Attestation
