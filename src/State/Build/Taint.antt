-- ===== src/State/Build/Taint.antt =====
-- src/state/build.rs: the taint of a state that is built from a log.
use bellbook.Prelude.{
  ◌≡◌, subst, Bool, true, false, Option, none, some, List, [], ◌∷◌, ◌==◌, nat_ord, inl, inr,
  Option-cases, if◌then◌else◌, arith,
}
use bellbook.Prelude.Map.{BTreeMap, contains, get}
use bellbook.Record.Kind.{Kind, kind_ord}
use bellbook.Record.Refs.{RecordId}
use bellbook.Record.Payloads.{VerdictData}
use bellbook.Record.Envelope.{Record}
use bellbook.State.Defs.{State, default_state}
use bellbook.State.Apply.{Fold, apply_record}
use bellbook.State.Apply.Exact.{IsTaintExact}
use bellbook.State.Apply.Taint.{apply_record-IsTaintExact}
use bellbook.State.Build.{
  finished, last_time, apply_judged, apply_all, collect_verdicts, build_state_unchecked,
}
use bellbook.Platform.{Platform}

-- At first nothing is tainted and nothing is retracted.
pub default_state-IsTaintExact : IsTaintExact default_state
unfolding contains
default_state-IsTaintExact = record {
  sound = λ d h. absurd (cc h);
  covers = λ a d h e. absurd (cc h);
  closed = λ a d h e. absurd (cc h);
}

some_inj : {s t : State} → some s ≡ some t → s ≡ t
some_inj h = cc

pub IsTaintExact-of_some : {s t : State} → some s ≡ some t → IsTaintExact s → IsTaintExact t
IsTaintExact-of_some h v = subst IsTaintExact (some_inj h) v

pub finished-eq-some : (f : Fold) {t : State} → finished f ≡ some t → f.0 ≡ t
finished-eq-some (s, true) h = cc
finished-eq-some (s, false) h = cc

module _ (p : Platform) where
  pub finished-IsTaintExact :
      (s t : State) (r : Record) (verdict : VerdictData)
      → IsTaintExact s
      → finished (apply_record p s r verdict) ≡ some t
      → IsTaintExact t
  finished-IsTaintExact s t r verdict v h =
      subst IsTaintExact (finished-eq-some (apply_record p s r verdict) h)
        (apply_record-IsTaintExact p s r verdict v)

  apply_judged-IsTaintExact :
      (o : Option VerdictData) (r : Record) (s t : State)
      → IsTaintExact s
      → apply_judged p o r s ≡ some t
      → IsTaintExact t
  apply_judged-IsTaintExact none r s t v h = IsTaintExact-of_some h v
  apply_judged-IsTaintExact (some verdict) r s t v h = finished-IsTaintExact s t r verdict v h

  step_IsTaintExact :
      (b : Bool) (o : Option VerdictData) (r : Record) (s t : State)
      → IsTaintExact s
      → (if b then some s else apply_judged p o r s) ≡ some t
      → IsTaintExact t
  step_IsTaintExact true o r s t v h = IsTaintExact-of_some h v
  step_IsTaintExact false o r s t v h = apply_judged-IsTaintExact o r s t v h

  apply_all-IsTaintExact :
      (m : BTreeMap RecordId VerdictData) (rs : List Record) (s t : State)
      → IsTaintExact s
      → apply_all p m rs s ≡ some t
      → IsTaintExact t
  unfolding apply_all
  apply_all-IsTaintExact m [] s t v h = IsTaintExact-of_some h v
  apply_all-IsTaintExact m (r ∷ rs) s t v h =
      elim (Option-cases
        (if r.kind == Kind.verdict then some s else apply_judged p (get m r.id) r s)) [
          | inl e ↦ absurd (ground (arith, e, h))
          | inr (u, e) ↦
              apply_all-IsTaintExact m rs u t
                (step_IsTaintExact (r.kind == Kind.verdict) (get m r.id) r s u v e)
                (ground (arith, e, h))
        ]

  -- A state that is built from a log, whatever its verdicts say, has exact taint.
  pub build_state_unchecked-IsTaintExact :
      (records : List Record) (t : State)
      → build_state_unchecked p records ≡ some t
      → IsTaintExact t
  unfolding build_state_unchecked
  build_state_unchecked-IsTaintExact [] t h = IsTaintExact-of_some h default_state-IsTaintExact
  build_state_unchecked-IsTaintExact (r ∷ rs) t h =
      elim (Option-cases (collect_verdicts p (r ∷ rs) [])) [
        | inl e ↦ absurd (ground (arith, e, h))
        | inr (m, e) ↦ elim (Option-cases (apply_all p m (r ∷ rs) default_state)) [
          | inl f ↦ absurd (ground (arith, e, f, h))
          | inr (s, f) ↦
              let v =
                apply_all-IsTaintExact m (r ∷ rs) default_state s default_state-IsTaintExact f in
              let w : IsTaintExact (record s { applied_up_to = last_time (r ∷ rs) }) = record {
                sound = v.sound;
                covers = v.covers;
                closed = v.closed;
              } in
              IsTaintExact-of_some {s = record s { applied_up_to = last_time (r ∷ rs) }} {t = t}
                (ground (arith, e, f, h)) w
        ]
      ]
