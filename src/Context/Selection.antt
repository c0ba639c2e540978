-- ===== src/Context/Selection.antt =====
-- src/context/context.rs: what the selection keeps, leaves out and labels.
use bellbook.Prelude.{
  String, ◌∙◌, none, some, if◌then◌else◌, string_ord, pair_ord, ◌≤◌, ◌<◌, ◌≡◌, refl, ap, sym,
  Bool-cases, Bool, true, false, List, [], ◌∷◌, ◌==◌, ==_iff, nat_ord, inl, inr, ◌⊎◌, length,
  filter, take, arith,
}
use bellbook.Prelude.Map.{BTreeMap, get, contains, contains-insert}
use bellbook.Prelude.Sorting.{
  Pairwise, AtMost, IsTotalPreorder, sort_by, mem-sort_by, sort_by-mem, sort_by-Pairwise,
  length-take_le, mem-take, Pairwise-take, mem-take_or_drop, length-take_full, take-before_drop,
  mem-filter, filter-mem, Pairwise-map,
}
use mathlib.Core.List.{Memᴰ}
use mathlib.Core.List.Memᴰ
use bellbook.Record.Kind.{Kind, kind_ord}
use bellbook.Record.Refs.{RecordId}
use bellbook.Record.Payloads.{UsageOutcomeCounts}
use bellbook.Record.Envelope.{Record, ThreadId}
use bellbook.State.Defs.{State, stands}
use bellbook.Verify.Rules.{VerifierRules}
use bellbook.Context.{Context, ContextPolicy, newest_first, is_selected, id_set, build_context_with}

-- `a` is shown before `b`: later, or at one time with an id that is not greater.
pub record ComesBefore (a b : Record) : Type 0 where
  pub order : (b.time < a.time) ⊎ ((a.time ≡ b.time) × (a.id ≤ b.id))

newest_first-IsTotalPreorder : IsTotalPreorder newest_first
newest_first-IsTotalPreorder = record { total = λ x y. ground arith; trans = λ x y z. ground arith }

-- What a record has to be to be shown: of the thread, no verdict, accepted, not replaced and not
-- retracted, and not tainted unless the policy asks for that.
pub record IsEligible (s : State) (thread : ThreadId) (policy : ContextPolicy) (r : Record)
    : Type 0 where
  pub in_thread : r.thread ≡ thread
  pub no_verdict : (r.kind == Kind.verdict) ≡ false
  pub accepted : contains s.accepted_records r.id ≡ true
  pub not_replaced : contains s.replaced_records r.id ≡ false
  pub not_retracted : contains s.retracted_records r.id ≡ false
  pub not_tainted :
      (policy ≡ ContextPolicy.include_tainted) ⊎ (contains s.tainted_records r.id ≡ false)

is_selected-IsEligible :
    (s : State) (thread : ThreadId) (policy : ContextPolicy) (r : Record)
    → is_selected s thread policy r ≡ true
    → IsEligible s thread policy r
unfolding is_selected
is_selected-IsEligible s thread ContextPolicy.exclude_tainted r h = record {
  in_thread = (==_iff r.thread thread).0 (ground (arith, h));
  no_verdict = ground (arith, h);
  accepted = ground (arith, h);
  not_replaced = ground (arith, h);
  not_retracted = ground (arith, h);
  not_tainted = inr (ground (arith, h));
}
is_selected-IsEligible s thread ContextPolicy.include_tainted r h = record {
  in_thread = (==_iff r.thread thread).0 (ground (arith, h));
  no_verdict = ground (arith, h);
  accepted = ground (arith, h);
  not_replaced = ground (arith, h);
  not_retracted = ground (arith, h);
  not_tainted = inl refl;
}

IsEligible-is_selected :
    (s : State) (thread : ThreadId) (policy : ContextPolicy) (r : Record)
    → IsEligible s thread policy r
    → is_selected s thread policy r ≡ true
unfolding is_selected
IsEligible-is_selected s thread ContextPolicy.exclude_tainted r e = elim e.not_tainted [
  | inl other ↦ absurd (cc other)
  | inr clean ↦ ground (
    arith,
    (==_iff r.thread thread).1 e.in_thread,
    e.no_verdict,
    e.accepted,
    e.not_replaced,
    e.not_retracted,
    clean,
  )
]
IsEligible-is_selected s thread ContextPolicy.include_tainted r e = ground (
  arith,
  (==_iff r.thread thread).1 e.in_thread,
  e.no_verdict,
  e.accepted,
  e.not_replaced,
  e.not_retracted,
)

AtMost-ComesBefore : (a b : Record) → AtMost newest_first a b → ComesBefore a b
AtMost-ComesBefore a b h = record { order = ground (arith, h) }

-- The records shown are eligible records of the log, in order and no more than the cap; an eligible
-- record that is not shown stands behind all of those, and these then fill the cap.
pub record IsSelection (records : List Record) (s : State) (rules : VerifierRules)
    (thread : ThreadId) (policy : ContextPolicy) (shown : List Record) : Type 0 where
  pub from_log : (r : Record) → Memᴰ r shown → Memᴰ r records
  pub eligible : (r : Record) → Memᴰ r shown → IsEligible s thread policy r
  pub in_order : Pairwise ComesBefore shown
  pub capped : length shown ≤ rules.max_context_records
  pub complete :
      (r : Record)
      → Memᴰ r records
      → IsEligible s thread policy r
      → Memᴰ r shown
        ⊎ ((length shown ≡ rules.max_context_records)
            × ((x : Record) → Memᴰ x shown → ComesBefore x r))

-- The context of a thread is such a selection of the log's records, under either policy.
pub build_context_with-IsSelection :
    (records : List Record) (s : State) (rules : VerifierRules) (thread : ThreadId)
    (policy : ContextPolicy)
    → IsSelection records s rules thread policy
        (build_context_with records s rules thread policy).records
unfolding build_context_with
build_context_with-IsSelection records s rules thread policy =
    let n = rules.max_context_records in
    let chosen = filter (is_selected s thread policy) records in
    let sorted = sort_by newest_first chosen in
    let in_order = sort_by-Pairwise newest_first newest_first-IsTotalPreorder chosen in
    let back : (r : Record)
        → Memᴰ r (take n sorted)
        → Memᴰ r records × (is_selected s thread policy r ≡ true) =
      λ r m. mem-filter _ records (mem-sort_by newest_first chosen (mem-take n sorted m)) in
    record {
      from_log = λ r m. (back r m).0;
      eligible = λ r m. is_selected-IsEligible s thread policy r (back r m).1;
      in_order = Pairwise-map AtMost-ComesBefore (Pairwise-take n sorted in_order);
      capped = length-take_le n sorted;
      complete = λ r m e.
          let there =
            sort_by-mem newest_first chosen
              (filter-mem _ records m (IsEligible-is_selected s thread policy r e)) in
          elim (mem-take_or_drop n sorted there) [
            | inl kept ↦ inl kept
            | inr left ↦ inr (
              length-take_full n sorted left,
              λ x k. AtMost-ComesBefore x r (take-before_drop n sorted in_order k left),
            )
          ];
    }

contains-id_set : (l : List Record) (r : Record) → Memᴰ r l → contains (id_set l) r.id ≡ true
unfolding id_set
contains-id_set [] r m = absurd (Memᴰ.not-nil m)
contains-id_set (x ∷ l) r (Memᴰ.head e) =
    ground
      (arith, contains-insert (id_set l) x.id r.id, (==_iff x.id r.id).1 (ap (λ z. z.id) (sym e)))
contains-id_set (x ∷ l) r (Memᴰ.tail m) =
    ground (arith, contains-insert (id_set l) x.id r.id, contains-id_set l r m)

-- Conversely an id of the set is that of a record.
id_set-mem :
    (l : List Record) (id : RecordId)
    → contains (id_set l) id ≡ true
    → (r : Record) × Memᴰ r l × (r.id ≡ id)
unfolding id_set contains
id_set-mem [] id h = absurd (ground (arith, h))
id_set-mem (x ∷ l) id h = elim (Bool-cases (x.id == id)) [
  | inl this ↦ (x, Memᴰ.head refl, (==_iff x.id id).0 this)
  | inr other ↦
      let (r, m, e) =
        id_set-mem l id (ground (arith, h, other, contains-insert (id_set l) x.id id)) in
      (r, Memᴰ.tail m, e)
]

-- By default every record shown stands, that is, it is accepted and neither retracted nor tainted,
-- and no label is needed.
pub record IsClean (s : State) (c : Context) : Type 0 where
  pub sound : (r : Record) → Memᴰ r c.records → stands s r.id ≡ true
  pub unlabeled : c.tainted_records ≡ []

get-filter :
    (keep : RecordId → Bool) (m : BTreeMap (RecordId × String) UsageOutcomeCounts) (id : RecordId)
    (role : String)
    → get (filter (λ e. keep e.0.0) m) (id, role) ≡ (if keep id then get m (id, role) else none)
unfolding get
get-filter keep [] id role = ground arith
get-filter keep (((j, other), c) ∷ m) id role =
    let rest = get-filter keep m id role in
    let here : RecordId × String = (j, other) in
    let sought : RecordId × String = (id, role) in
    elim (Bool-cases (here == sought)) [
      | inl same ↦
          let e : keep j ≡ keep id =
            ap (λ (k : RecordId × String). keep k.0) ((==_iff here sought).0 same) in
          elim (Bool-cases (keep j)) [
            | inl kept ↦ rw (kept, sym e ∙ kept, same) refl
            | inr gone ↦ rw (gone, sym e ∙ gone) (rest ∙ rw (sym e ∙ gone) refl)
          ]
      | inr apart ↦ elim (Bool-cases (keep j)) [
        | inl kept ↦ rw (kept, get, apart) rest
        | inr gone ↦ rw (gone, get, apart) rest
      ]
    ]

-- Labels and feedback are about the records shown: one of these is labeled if and only if it is
-- tainted, no other id is labeled, and the counts handed out are the state's counts of these.
pub record IsLabeled (s : State) (c : Context) : Type 0 where
  pub labels :
      (r : Record)
      → Memᴰ r c.records
      → contains c.tainted_records r.id ≡ contains s.tainted_records r.id
  pub shown_only :
      (id : RecordId)
      → contains c.tainted_records id ≡ true
      → (r : Record) × Memᴰ r c.records × (r.id ≡ id)
  pub feedback :
      (r : Record) (role : String)
      → Memᴰ r c.records
      → get c.usage_feedback (r.id, role) ≡ get s.usage_counts (r.id, role)
  pub feedback_only :
      (id : RecordId) (role : String) (counts : UsageOutcomeCounts)
      → get c.usage_feedback (id, role) ≡ some counts
      → (r : Record) × Memᴰ r c.records × (r.id ≡ id)

-- The context of a thread is labeled so, under either policy.
pub build_context_with-IsLabeled :
    (records : List Record) (s : State) (rules : VerifierRules) (thread : ThreadId)
    (policy : ContextPolicy)
    → IsLabeled s (build_context_with records s rules thread policy)
unfolding build_context_with
build_context_with-IsLabeled records s rules thread policy =
    let shown = (build_context_with records s rules thread policy).records in
    let tainted : Record → Bool = λ r. contains s.tainted_records r.id in
    record {
      labels = λ r m. elim (Bool-cases (tainted r)) [
        | inl is ↦
            sym
              (is ∙ sym (contains-id_set (filter tainted shown) r (filter-mem tainted shown m is)))
        | inr free ↦ elim (Bool-cases (contains (id_set (filter tainted shown)) r.id)) [
          | inl labeled ↦
              let (x, k, e) = id_set-mem (filter tainted shown) r.id labeled in
              absurd (
                ground
                  (arith, free, (mem-filter tainted shown k).1, ap (contains s.tainted_records) e))
          | inr clear ↦ clear ∙ sym free
        ]
      ];
      shown_only = λ id h.
          let (x, k, e) = id_set-mem (filter tainted shown) id h in
          (x, (mem-filter tainted shown k).0, e);
      feedback = λ r role m.
          let e = contains-id_set shown r m in
          get-filter (contains (id_set shown)) s.usage_counts r.id role ∙ rw e refl;
      feedback_only = λ id role counts h. elim (Bool-cases (contains (id_set shown) id)) [
        | inl is ↦ id_set-mem shown id is
        | inr other ↦
            absurd (
              ground (arith, h, other, get-filter (contains (id_set shown)) s.usage_counts id role))
      ];
    }
