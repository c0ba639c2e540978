-- ===== src/State/Apply/Exact.antt =====
-- Taint is exact: after every fold the tainted records are those that rest on a retracted one.
use bellbook.Prelude.{
  ◌≡◌, refl, ◌↔◌, ◌⊎◌, inl, inr, true, false, List, [], ◌∷◌, ◌==◌, ==_iff, nat_ord, arith,
  Bool-cases,
}
use bellbook.Prelude.Map.{BTreeSet, contains, insert, contains-insert}
use bellbook.Record.Refs.{RecordId, Ref}
use bellbook.Record.Envelope.{Record}
use bellbook.State.Defs.{State, is_discredited}
use bellbook.State.Taint.{Dependents, dependents, walk_from, mark_tainted}
use bellbook.State.Taint.Closed.{
  Edge, AllIn, IsClosed, walk_from-IsClosed, walk_from_grows, walk_from_covers, walk_from_within,
}
use bellbook.State.Operations.{index_refs, inherits_taint, depend, enter}
use bellbook.State.Retract.{mark_all, retract}
use bellbook.State.Apply.Index.{
  depends_on, contains-index_refs, tainted-index_refs, inherits_taint-false, inherits_taint-true,
}

-- `d` depends, through one edge or more, on a retracted record.
pub data Rests (retracted : BTreeSet RecordId) (index : Dependents) : RecordId → Type 0 where
  directly :
      (a d : RecordId) → contains retracted a ≡ true → Edge index a d → Rests retracted index d
  onward : (a d : RecordId) → Rests retracted index a → Edge index a d → Rests retracted index d

pub record IsExact (retracted tainted : BTreeSet RecordId) (index : Dependents) : Type 0 where
  pub sound : (d : RecordId) → contains tainted d ≡ true → Rests retracted index d
  pub covers :
      (a d : RecordId) → contains retracted a ≡ true → Edge index a d → contains tainted d ≡ true
  pub closed : IsClosed index tainted

abbrev pub IsTaintExact : State → Type 0
IsTaintExact s = IsExact s.retracted_records s.tainted_records s.epistemic_dependents

-- More retracted records and more edges leave what rests on a retracted record.
Rests-mono :
    (r r' : BTreeSet RecordId) (index index' : Dependents)
    → ((a : RecordId) → contains r a ≡ true → contains r' a ≡ true)
    → ((a d : RecordId) → Edge index a d → Edge index' a d)
    → (d : RecordId) → Rests r index d
    → Rests r' index' d
Rests-mono r r' index index' hr hi _ (directly a d h e) = directly a d (hr a h) (hi a d e)
Rests-mono r r' index index' hr hi _ (onward a d h e) =
    onward a d (Rests-mono r r' index index' hr hi a h) (hi a d e)

Rests-of_discredited :
    (s : State)
    → IsTaintExact s
    → (index : Dependents) → ((a d : RecordId) → Edge s.epistemic_dependents a d → Edge index a d)
    → (a d : RecordId) → is_discredited s a ≡ true
    → Edge index a d
    → Rests s.retracted_records index d
Rests-of_discredited s v index grow a d h e = elim (Bool-cases (contains s.retracted_records a)) [
  | inl gone ↦ directly a d gone e
  | inr kept ↦
      onward a d
        (Rests-mono s.retracted_records s.retracted_records s.epistemic_dependents index (λ _ m. m)
          grow a (v.sound a (ground arith)))
        e
]

module _ (s : State) (id : RecordId) (refs : List Ref) (v : IsTaintExact s) where
  abbrev indexed : Dependents
  indexed = (index_refs id refs s).epistemic_dependents

  old-Edge : (a d : RecordId) → Edge s.epistemic_dependents a d → Edge indexed a d
  old-Edge a d e = ground (arith, contains-index_refs id refs s a d)

  -- Every edge is old, or leads from a dependence of the new record to it.
  Edge-cases :
      (a d : RecordId)
      → Edge indexed a d
      → Edge s.epistemic_dependents a d ⊎ ((depends_on refs a ≡ true) × (id ≡ d))
  Edge-cases a d e = ground (arith, contains-index_refs id refs s a d, ==_iff id d)

  quiet-IsExact :
      inherits_taint refs s ≡ false → IsExact s.retracted_records s.tainted_records indexed
  quiet-IsExact h = record {
    sound = λ d m.
        Rests-mono s.retracted_records s.retracted_records s.epistemic_dependents indexed (λ _ n. n)
          old-Edge d (v.sound d m);
    covers = λ a d g e.
        ground (arith, Edge-cases a d e, v.covers a d g, inherits_taint-false refs s a h);
    closed = λ a d m e.
        ground (arith, Edge-cases a d e, v.closed a d m, inherits_taint-false refs s a h);
  }

  tainting-IsExact :
      inherits_taint refs s ≡ true
      → IsExact s.retracted_records (walk_from indexed s.tainted_records id).tainted indexed
  tainting-IsExact h = record {
    sound =
        walk_from_within indexed (Rests s.retracted_records indexed) (λ a d p e. onward a d p e)
          s.tainted_records id origin
          (λ d m.
            Rests-mono s.retracted_records s.retracted_records s.epistemic_dependents indexed
              (λ _ n. n) old-Edge d (v.sound d m));
    covers = λ a d g e. ground (
      arith,
      Edge-cases a d e,
      v.covers a d g,
      walk_from_covers indexed s.tainted_records id,
      walk_from_grows indexed s.tainted_records id d,
    );
    closed =
        walk_from-IsClosed indexed s.tainted_records id
          (λ a d m e. ground (arith, Edge-cases a d e, v.closed a d m));
  }
    where
      origin : Rests s.retracted_records indexed id
      origin =
          let (a, e, g) = inherits_taint-true refs s h in
          Rests-of_discredited s v indexed old-Edge a id g
            (ground (arith, contains-index_refs id refs s a id, ==_iff id id))

depend-IsTaintExact :
    (id : RecordId) (refs : List Ref) (s : State) → IsTaintExact s → IsTaintExact (depend id refs s)
unfolding depend mark_tainted
depend-IsTaintExact id refs s v = elim (Bool-cases (inherits_taint refs s)) [
  | inl taints ↦
      rw (taints, (tainted-index_refs id refs s).0, (tainted-index_refs id refs s).1)
        (tainting-IsExact s id refs v taints)
  | inr quiet ↦
      rw (quiet, (tainted-index_refs id refs s).0, (tainted-index_refs id refs s).1)
        (quiet-IsExact s id refs v quiet)
]

pub enter-IsTaintExact : (r : Record) (s : State) → IsTaintExact s → IsTaintExact (enter r s)
unfolding enter
enter-IsTaintExact r s v =
    depend-IsTaintExact r.id r.refs (record s { accepted_records = insert r.id s.accepted_records })
      v

-- `mark_all` changes the tainted set alone.
pub mark_all_frame :
    (ids : List RecordId) (s : State)
    → ((mark_all ids s).retracted_records ≡ s.retracted_records)
      × ((mark_all ids s).epistemic_dependents ≡ s.epistemic_dependents)
unfolding mark_all mark_tainted
mark_all_frame [] s = (refl, refl)
mark_all_frame (id ∷ ids) s = mark_all_frame ids (mark_tainted s id)

mark_all-IsClosed :
    (ids : List RecordId) (s : State)
    → IsClosed s.epistemic_dependents s.tainted_records
    → IsClosed s.epistemic_dependents (mark_all ids s).tainted_records
unfolding mark_all mark_tainted
mark_all-IsClosed [] s h = h
mark_all-IsClosed (id ∷ ids) s h =
    mark_all-IsClosed ids (mark_tainted s id)
      (walk_from-IsClosed s.epistemic_dependents s.tainted_records id (λ a d m e. inl (h a d m e)))

mark_all_grows :
    (ids : List RecordId) (s : State) (x : RecordId)
    → contains s.tainted_records x ≡ true
    → contains (mark_all ids s).tainted_records x ≡ true
unfolding mark_all mark_tainted
mark_all_grows [] s x h = h
mark_all_grows (id ∷ ids) s x h =
    mark_all_grows ids (mark_tainted s id) x
      (walk_from_grows s.epistemic_dependents s.tainted_records id x h)

mark_all_covers :
    (ids : List RecordId) (s : State) (x : RecordId)
    → contains ids x ≡ true
    → contains (mark_all ids s).tainted_records x ≡ true
unfolding mark_all mark_tainted contains
mark_all_covers [] s x h = cc
mark_all_covers (id ∷ ids) s x h = ground (
  arith,
  ==_iff id x,
  mark_all_grows ids (mark_tainted s id) x,
  walk_from_covers s.epistemic_dependents s.tainted_records id,
  mark_all_covers ids (mark_tainted s id) x,
)

mark_all_within :
    (ids : List RecordId) (s : State) (P : RecordId → Type 0)
    → ((a d : RecordId) → P a → Edge s.epistemic_dependents a d → P d)
    → AllIn P ids
    → AllIn P s.tainted_records
    → AllIn P (mark_all ids s).tainted_records
unfolding mark_all mark_tainted contains
mark_all_within [] s P pass hi ht = ht
mark_all_within (id ∷ ids) s P pass hi ht =
    mark_all_within ids (mark_tainted s id) P pass (λ x m. hi x (ground arith))
      (walk_from_within s.epistemic_dependents P pass s.tainted_records id
        (hi id (ground (arith, ==_iff id id))) ht)

-- Retracting a record taints all that depends on it, and nothing else.
pub retract-IsTaintExact :
    (target : RecordId) (s : State) → IsTaintExact s → IsTaintExact (retract target s)
unfolding retract
retract-IsTaintExact target s v =
    rw (frame.0, frame.1)
      (record {
        sound =
            mark_all_within ids gone P (λ a d h e. onward a d h e)
              (λ x m.
                directly target x
                  (ground (
                    arith,
                    contains-insert s.retracted_records target target,
                    ==_iff target target,
                  ))
                  m)
              (λ x m.
                Rests-mono s.retracted_records gone.retracted_records s.epistemic_dependents
                  s.epistemic_dependents
                  (λ a h. ground (arith, contains-insert s.retracted_records target a)) (λ a d e. e)
                  x (v.sound x m));
        covers = λ a d h e. elim (Bool-cases (target == a)) [
          | inl same ↦ mark_all_covers ids gone d (ground (arith, ==_iff target a))
          | inr other ↦
              mark_all_grows ids gone d
                (v.covers a d (ground (arith, contains-insert s.retracted_records target a)) e)
        ];
        closed = mark_all-IsClosed ids gone v.closed;
      })
  where
    ids : List RecordId
    ids = dependents s.epistemic_dependents target

    gone : State
    gone = record s { retracted_records = insert target s.retracted_records }

    frame :
        ((mark_all ids gone).retracted_records ≡ gone.retracted_records)
        × ((mark_all ids gone).epistemic_dependents ≡ gone.epistemic_dependents)
    frame = mark_all_frame ids gone

    P : RecordId → Type 0
    P = Rests gone.retracted_records gone.epistemic_dependents

-- Exact taint is the predicate: a record is tainted if and only if it rests on a retracted one.
pub IsTaintExact-iff :
    (s : State)
    → IsTaintExact s
    → (d : RecordId)
    → (contains s.tainted_records d ≡ true) ↔ Rests s.retracted_records s.epistemic_dependents d
IsTaintExact-iff s v d = (v.sound d, complete d)
  where
    complete :
        (d : RecordId)
        → Rests s.retracted_records s.epistemic_dependents d
        → contains s.tainted_records d ≡ true
    complete _ (directly a d h e) = v.covers a d h e
    complete _ (onward a d h e) = v.closed a d (complete a h) e
