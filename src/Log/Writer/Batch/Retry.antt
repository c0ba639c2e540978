-- ===== src/Log/Writer/Batch/Retry.antt =====
-- src/log/writer/core.rs: a checked batch that is sent again.
use bellbook.Prelude.{
  ℕ, zero, suc, ◌+◌, ◌-◌, ◌≡◌, refl, sym, ap, subst, ◌∙◌, false, Option, none, some, List, [], ◌∷◌,
  ◌++◌, ◌==◌, ==_iff, nat_ord, ok, err, >>=-eq-ok, >>-eq-ok, length, get_elem?, last?, Option-cases,
  Result-cases, Bool-cases, inl, inr, arith, if◌then◌else◌,
}
use bellbook.Record.Refs.{RecordId}
use bellbook.Record.Payloads.{VerdictData}
use bellbook.Record.Envelope.{Record, Proposal}
use bellbook.State.Defs.{State}
use bellbook.Platform.{Platform, PayloadType, decode}
use bellbook.Verify.Rules.{VerifierRules}
use bellbook.Log.Storage.{Fault}
use bellbook.Log.Writer.{
  LogWriter, Outcome, proposal_matches_record, ensure_writable, ensure_rules_match,
  ensure_state_matches,
}
use bellbook.Log.Writer.Batch.{
  BatchAppend, Landed, empty_head, head, head_before, position, start_after, sort_batch, commit_all,
  match_landed, append_rest, continue_batch, find_landed, checked_batch_commit,
}
use bellbook.Log.Writer.Batch.Landing.{ReadsVerdicts, IsLanded, commit_all-IsLanded}

get_elem?-prefix :
    {A : Type 0} (xs ys : List A) (i : ℕ) (a : A)
    → get_elem? xs i ≡ some a
    → get_elem? (xs ++ ys) i ≡ some a
get_elem?-prefix [] ys i a e = absurd (cc e)
get_elem?-prefix (x ∷ xs) ys zero a e = e
get_elem?-prefix (x ∷ xs) ys (suc i) a e = get_elem?-prefix xs ys i a e

position-prefix :
    (id : RecordId) (xs ys : List Record) (n : ℕ)
    → position id xs ≡ some n
    → position id (xs ++ ys) ≡ some n
unfolding position
position-prefix id [] ys n e = absurd (cc e)
position-prefix id (x ∷ xs) ys n e = elim (Bool-cases (x.id == id)) [
  | inl here ↦ rw (position, here) (ground (arith, here, e))
  | inr other ↦ elim (Option-cases (position id xs)) [
    | inl missing ↦ absurd (ground (arith, other, missing, e))
    | inr found ↦
        rw (position, other, position-prefix id xs ys found.0 found.1)
          (ground (arith, other, found.1, e))
  ]
]

last?-get_elem? : (x : Record) (xs : List Record) → get_elem? (x ∷ xs) (length xs) ≡ last? (x ∷ xs)
last?-get_elem? x [] = refl
last?-get_elem? x (y ∷ xs) = last?-get_elem? y xs

-- The head of a log is what stands before its end.
head_before-head :
    (w : LogWriter)
    → (if length w.log.records == 0
        then empty_head
        else head_before (length w.log.records) w.log.records)
      ≡ head w
unfolding head
head_before-head w = by_records w.log.records
  where
    by_records :
        (l : List Record)
        → (if length l == 0 then empty_head else head_before (length l) l)
          ≡ elim (last? l) [ none ↦ empty_head | some r ↦ r.id ]
    by_records [] = refl
    by_records (x ∷ xs) =
        let place : length (x ∷ xs) - 1 ≡ length xs = omega arith in
        let end = ap (get_elem? (x ∷ xs)) place ∙ last?-get_elem? x xs in
        let apart : (length (x ∷ xs) == 0) ≡ false = ground (arith, ==_iff (length (x ∷ xs)) 0) in
        rw (apart) (ap (λ (o : Option Record). elim o [ none ↦ empty_head | some r ↦ r.id ]) end)

start_after-prefix :
    (w v : LogWriter) (more : List Record) (expected : RecordId) (start : ℕ)
    → v.log.records ≡ w.log.records ++ more
    → start_after w expected ≡ ok start
    → start_after v expected ≡ ok start
unfolding start_after
start_after-prefix w v more expected start grown run = elim (Bool-cases (expected == empty_head)) [
  | inl genesis ↦ rw (start_after, genesis) (ground (arith, genesis, run))
  | inr later ↦ elim (Option-cases (position expected w.log.records)) [
    | inl missing ↦ absurd (ground (arith, later, missing, run))
    | inr found ↦
        rw (start_after, later, grown, position-prefix expected w.log.records more found.0 found.1)
          (ground (arith, later, found.1, run))
  ]
]

module _ (p : Platform) where
  -- What landed in a log is matched again when the log has grown.
  match_landed-prefix :
      (records more : List Record) (pos : ℕ) (proposals : List Proposal)
      (results : List (RecordId × VerdictData)) (landed : Landed)
      → match_landed p records pos proposals results ≡ ok landed
      → match_landed p (records ++ more) pos proposals results
        ≡ match_landed p (records ++ more) landed.pos landed.rest landed.results
  unfolding match_landed
  match_landed-prefix records more pos [] results landed run =
      let all : Landed = record { pos = pos; results = results; rest = [] } in
      let same : all ≡ landed = cc run in
      ap (λ (l : Landed). match_landed p (records ++ more) l.pos l.rest l.results) same
  match_landed-prefix records more pos (x ∷ xs) results landed run =
      let stop : Landed = record { pos = pos; results = results; rest = x ∷ xs } in
      let stopped : stop ≡ landed
          → match_landed p (records ++ more) pos (x ∷ xs) results
            ≡ match_landed p (records ++ more) landed.pos landed.rest landed.results =
        λ same. ap (λ (l : Landed). match_landed p (records ++ more) l.pos l.rest l.results) same in
      elim (Option-cases (get_elem? records pos)) [
        | inl past ↦ stopped (ground (arith, past, run))
        | inr at ↦ elim (Bool-cases (proposal_matches_record x at.0)) [
          | inr other ↦ stopped (ground (arith, at.1, other, run))
          | inl matches ↦ elim (Option-cases (get_elem? records (pos + 1))) [
            | inl missing ↦ absurd (ground (arith, at.1, matches, missing, run))
            | inr next ↦ elim (Option-cases (decode p PayloadType.verdict next.0.payload)) [
              | inl unread ↦ absurd (ground (arith, at.1, matches, next.1, unread, run))
              | inr read ↦
                  rw
                    (
                      match_landed,
                      get_elem?-prefix records more pos at.0 at.1,
                      matches,
                      get_elem?-prefix records more (pos + 1) next.0 next.1,
                      read.1,
                    )
                    (match_landed-prefix records more (pos + 2) xs
                      (results ++ (at.0.id, read.0) ∷ []) landed
                      (ground (arith, at.1, matches, next.1, read.1, run)))
            ]
          ]
        ]
      ]

  -- What the search for a landed part found, and where it started.
  record IsFound (w : LogWriter) (expected : RecordId) (sorted : List Proposal)
      (rules : VerifierRules) (landed : Landed) : Type 0 where
    pub writable : w.recovery_required ≡ false
    pub rules_match : ensure_rules_match p w rules ≡ ok tt
    pub start : ℕ
    pub started : start_after w expected ≡ ok start
    pub matched : match_landed p w.log.records start sorted [] ≡ ok landed

  find_landed-IsFound :
      (w : LogWriter) (expected : RecordId) (sorted : List Proposal) (rules : VerifierRules)
      (s : State) (landed : Landed)
      → find_landed p w expected sorted rules s ≡ ok landed
      → IsFound w expected sorted rules landed
  unfolding find_landed ensure_writable
  find_landed-IsFound w expected sorted rules s landed run =
      let (e1, run1) = >>-eq-ok (ensure_writable p w) _ run in
      let (e2, run2) = >>-eq-ok (ensure_rules_match p w rules) _ run1 in
      let (e3, run3) = >>-eq-ok (ensure_state_matches p w s) _ run2 in
      let (start, e4, run4) = >>=-eq-ok (start_after w expected) _ run3 in
      record {
        writable = elim (Bool-cases w.recovery_required) [
          | inr usable ↦ usable
          | inl broken ↦ absurd (ground (arith, broken, e1))
        ];
        rules_match = e2;
        start = start;
        started = e4;
        matched = run4;
      }

  IsFound-find_landed :
      (w : LogWriter) (expected : RecordId) (sorted : List Proposal) (rules : VerifierRules)
      (s : State) (landed : Landed)
      → IsFound w expected sorted rules landed
      → ensure_state_matches p w s ≡ ok tt
      → find_landed p w expected sorted rules s ≡ ok landed
  unfolding find_landed ensure_writable
  IsFound-find_landed w expected sorted rules s landed found current =
      rw (find_landed, ensure_writable, found.writable, found.rules_match, current, found.started)
        found.matched

  -- The rest of a batch that has been committed is found behind the part that had landed before.
  IsLanded-IsFound :
      (w v : LogWriter) (expected : RecordId) (sorted : List Proposal) (rules : VerifierRules)
      (landed : Landed) (final : List (RecordId × VerdictData))
      → landed.pos ≡ length w.log.records
      → IsFound w expected sorted rules landed
      → IsLanded p w landed.rest landed.results final v
      → IsFound v expected sorted rules
          record { pos = length v.log.records; results = final; rest = [] }
  unfolding ensure_rules_match
  IsLanded-IsFound w v expected sorted rules landed final ended found later = record {
    writable = later.usable;
    rules_match = rw (ensure_rules_match, later.hash) found.rules_match;
    start = found.start;
    started = start_after-prefix w v later.more expected found.start later.grown found.started;
    matched =
        ap (λ l. match_landed p l found.start sorted []) later.grown
        ∙ match_landed-prefix w.log.records later.more found.start sorted [] landed found.matched
        ∙ ap (λ l. match_landed p l landed.pos landed.rest landed.results) (sym later.grown)
        ∙ ap (λ n. match_landed p v.log.records n landed.rest landed.results) ended
        ∙ later.found;
  }

  -- What a batch that is sent again to the writer `v` gives, if nothing is left of it.
  abbrev repeated : LogWriter → State → ℕ → BatchAppend → Outcome BatchAppend
  repeated v s total batch = record {
    result = ok record { head = batch.head; results = batch.results; replayed = total };
    writer = v;
    state = s;
  }

  abbrev IsRepeated :
      (ℕ → Fault)
      → LogWriter
      → RecordId
      → List Proposal
      → VerifierRules
      → State
      → BatchAppend
      → Type 0
  IsRepeated again v expected sorted rules s batch =
      continue_batch p again v expected (length sorted) rules s
        (find_landed p v expected sorted rules s)
      ≡ repeated v s (length sorted) batch

  -- A batch that is found whole is given as it is found.
  find_landed-IsRepeated :
      (again : ℕ → Fault) (v : LogWriter) (expected : RecordId) (sorted : List Proposal)
      (rules : VerifierRules) (s : State) (pos : ℕ) (results : List (RecordId × VerdictData))
      (batch : BatchAppend)
      → IsFound v expected sorted rules record { pos = pos; results = results; rest = [] }
      → ensure_state_matches p v s ≡ ok tt
      → batch.head ≡ (if pos == 0 then empty_head else head_before pos v.log.records)
      → batch.results ≡ results
      → IsRepeated again v expected sorted rules s batch
  find_landed-IsRepeated again v expected sorted rules s pos results batch found current ends
        gives =
      let all = IsFound-find_landed v expected sorted rules s _ found current in
      let none_left : length sorted - 0 ≡ length sorted = omega arith in
      ap (continue_batch p again v expected (length sorted) rules s) all ∙ (λ i. record {
        result = ok record { head = sym ends i; results = sym gives i; replayed = none_left i };
        writer = v;
        state = s;
      })

  -- A batch whose rest was committed is found whole.
  append_rest-IsRepeated :
      ReadsVerdicts p
      → (faults again : ℕ → Fault) (w : LogWriter) (expected : RecordId) (sorted : List Proposal)
        (rules : VerifierRules) (s s2 : State) (landed : Landed) (replayed : ℕ)
        (batch : BatchAppend)
      → landed.pos ≡ length w.log.records
      → (append_rest p replayed (commit_all p faults 0 landed.rest rules w s landed.results)).result
        ≡ ok batch
      → IsFound w expected sorted rules landed
      → ensure_state_matches p
          (commit_all p faults 0 landed.rest rules w s landed.results).writer
          s2
        ≡ ok tt
      → IsRepeated again
          (commit_all p faults 0 landed.rest rules w s landed.results).writer
          expected
          sorted
          rules
          s2
          batch
  append_rest-IsRepeated codec faults again w expected sorted rules s s2 landed replayed batch ended
        run found current =
      let out = commit_all p faults 0 landed.rest rules w s landed.results in
      let (final, ran, made) = >>=-eq-ok out.result _ run in
      let later =
        commit_all-IsLanded p codec faults landed.rest 0 rules w s landed.results final
          found.writable ran in
      let at_end : batch.head ≡ head out.writer = cc made in
      find_landed-IsRepeated again out.writer expected sorted rules s2
        (length out.writer.log.records) final batch
        (IsLanded-IsFound w out.writer expected sorted rules landed final ended found later) current
        (at_end ∙ sym (head_before-head out.writer)) (cc made)

  -- A run from a landed part of a batch, and what is found of the batch after it.
  continue_batch-IsRepeated :
      ReadsVerdicts p
      → (faults again : ℕ → Fault) (w : LogWriter) (expected : RecordId) (sorted : List Proposal)
        (rules : VerifierRules) (s s2 : State) (pos : ℕ) (results : List (RecordId × VerdictData))
        (rest : List Proposal) (batch : BatchAppend) (out : Outcome BatchAppend)
      → out
        ≡ continue_batch p faults w expected
            (length sorted)
            rules
            s
            (ok record { pos = pos; results = results; rest = rest })
      → out.result ≡ ok batch
      → IsFound w expected sorted rules record { pos = pos; results = results; rest = rest }
      → ensure_state_matches p out.writer s2 ≡ ok tt
      → IsRepeated again out.writer expected sorted rules s2 batch
  continue_batch-IsRepeated codec faults again w expected sorted rules s s2 pos results [] batch out
        same run found current =
      let unchanged : out.writer ≡ w = ap (λ (o : Outcome BatchAppend). o.writer) same in
      let given = ap (λ (o : Outcome BatchAppend). o.result) (sym same) ∙ run in
      subst (λ v. IsRepeated again v expected sorted rules s2 batch) (sym unchanged)
        (find_landed-IsRepeated again w expected sorted rules s2 pos results batch found
          (subst (λ v. ensure_state_matches p v s2 ≡ ok tt) unchanged current) (cc given)
          (cc given))
  continue_batch-IsRepeated codec faults again w expected sorted rules s s2 pos results (x ∷ rest)
        batch out same run found current =
      let replayed = length sorted - length (x ∷ rest) in
      let later = commit_all p faults 0 (x ∷ rest) rules w s results in
      elim (Bool-cases (pos == length w.log.records)) [
        | inr behind ↦ absurd (ground (arith, same, behind, run))
        | inl ended ↦
            let joined : out ≡ append_rest p replayed later = same ∙ rw (ended) refl in
            let writer : out.writer ≡ later.writer =
              ap (λ (o : Outcome BatchAppend). o.writer) joined in
            subst (λ v. IsRepeated again v expected sorted rules s2 batch) (sym writer)
              (append_rest-IsRepeated codec faults again w expected sorted rules s s2
                record { pos = pos; results = results; rest = x ∷ rest } replayed batch
                ((==_iff pos (length w.log.records)).0 ended)
                (ap (λ (o : Outcome BatchAppend). o.result) (sym joined) ∙ run) found
                (subst (λ v. ensure_state_matches p v s2 ≡ ok tt) writer current))
      ]

  -- A checked batch that returned `Ok` and is sent again, to the writer that it left and with a state
  -- that is the log's, gives the same head and results, counts every proposal as landed before and
  -- changes neither the log nor the state, whatever calls of the file system would fail; serde has to
  -- read verdicts back.
  pub checked_batch_commit-resent :
      ReadsVerdicts p
      → (faults again : ℕ → Fault) (w : LogWriter) (expected : RecordId) (proposals : List Proposal)
        (rules : VerifierRules) (s s2 : State) (batch : BatchAppend)
      → (checked_batch_commit p faults w expected proposals rules s).result ≡ ok batch
      → ensure_state_matches p
          (checked_batch_commit p faults w expected proposals rules s).writer
          s2
        ≡ ok tt
      → checked_batch_commit p again
          (checked_batch_commit p faults w expected proposals rules s).writer
          expected
          proposals
          rules
          s2
        ≡ record {
          result = ok record {
            head = batch.head;
            results = batch.results;
            replayed = length (sort_batch p proposals);
          };
          writer = (checked_batch_commit p faults w expected proposals rules s).writer;
          state = s2;
        }
  unfolding checked_batch_commit
  checked_batch_commit-resent codec faults again w expected proposals rules s s2 batch run current =
      let sorted = sort_batch p proposals in
      let first = checked_batch_commit p faults w expected proposals rules s in
      elim (Result-cases (find_landed p w expected sorted rules s)) [
        | inr failed ↦
            let stopped : first.result ≡ err failed.0 =
              ap (λ l. (continue_batch p faults w expected (length sorted) rules s l).result)
                failed.1 in
            absurd (cc (stopped, run))
        | inl landed ↦
            continue_batch-IsRepeated codec faults again w expected sorted rules s s2 landed.0.pos
              landed.0.results landed.0.rest batch first
              (ap (continue_batch p faults w expected (length sorted) rules s) landed.1) run
              (find_landed-IsFound w expected sorted rules s landed.0 landed.1) current
      ]
