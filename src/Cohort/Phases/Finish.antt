-- ===== src/Cohort/Phases/Finish.antt =====
-- The ways in which reconcileEntity can end.
use queuezero.Prelude.{
  String, ◌≡◌, refl, Bool, true, false, ◌||◌, List, [], ◌∷◌, Option, none, some, arith, ◌⊎◌, subst,
  ◌∙◌, Result, if◌then◌else◌,
}
use queuezero.Cohort.State.{Fault, LifecycleState, Phase}
use queuezero.Cohort.Entity.{Readiness, Observation}
use queuezero.Cohort.Tracker.{Tracker, is_terminal, set_phase, set_enrolled}
use queuezero.Cohort.Frame.{Keeps, Keeps-trans, saw_cancel, Phased}
use queuezero.Cohort.Launch.{Tick, Launching, canceled, do_launch}
use queuezero.Cohort.Launch.Frame.{do_launch-Phased}
use queuezero.Cohort.Phases.{
  Waiting, Script, wait_running, wait_enrolled, mark_enrolled, after_running, after_launch,
  reconcile_entity, on_enrolled_tick,
}
use queuezero.Cohort.Phases.Shown.{Observed, wait_running-Observed}
use queuezero.Cohort.Phases.Probed.{Probed, has_ready, wait_enrolled-Probed}

-- Some phase found its context cancelled.
abbrev pub cancel_seen : {E : Type 0} → Script E → Bool
cancel_seen s = saw_cancel s.launches || (saw_cancel s.observations || saw_cancel s.probes)

-- A fault is stored and the entity is not enrolled; or it is enrolled, with none stored, was seen
-- running, and was found ready, had no enroller to ask, or was cancelled; or it was cancelled, and
-- is neither.
pub record Finished (id : String) (enroller cancelled ready : Bool) (u : Tracker) : Type 0 where
  pub named : u.intent.id ≡ id
  pub cohort_cancelled : u.cohort_cancelled ≡ none
  pub parent_cancelled : u.parent_cancelled ≡ none
  pub failed_or_not : u.enrolled ≡ true → is_terminal u ≡ false
  pub decided : (is_terminal u ≡ true) ⊎ ((u.enrolled ≡ true) ⊎ (cancelled ≡ true))
  pub enrolled_seen : u.enrolled ≡ true → u.obs.state ≡ LifecycleState.running
  pub enrolled_ready :
      u.enrolled ≡ true → (enroller ≡ false) ⊎ ((cancelled ≡ true) ⊎ (ready ≡ true))

-- A tracker as Reconcile makes it.
pub record IsFresh (t : Tracker) : Type 0 where
  pub enrolled : t.enrolled ≡ false
  pub terminal : t.terminal ≡ none
  pub cohort_cancelled : t.cohort_cancelled ≡ none
  pub parent_cancelled : t.parent_cancelled ≡ none

-- An entity that gave up before phase 3.
stopped :
    (enroller c d ready : Bool) (t u : Tracker)
    → IsFresh t
    → Keeps t u
    → ((c ≡ true) × (u.terminal ≡ t.terminal)) ⊎ (is_terminal u ≡ true)
    → Finished t.intent.id enroller (c || d) ready u
stopped enroller c d ready t u f k h = ground arith

-- The end of phase 3, from a tracker with no fault.
probed :
    (enroller c ready : Bool) (t u v : Tracker)
    → IsFresh t
    → Keeps t u
    → u.terminal ≡ none
    → u.obs.state ≡ LifecycleState.running
    → Probed enroller c ready u v
    → Finished t.intent.id enroller c ready (if is_terminal v then v else set_enrolled v)
probed enroller c ready t u v f k n s p = ground (arith, p.end)

-- More may have been cancelled.
widen :
    (id : String) (enroller c d ready : Bool) (u : Tracker)
    → Finished id enroller d ready u
    → Finished id enroller (c || d) ready u
widen id enroller c d ready u h = record {
  named = h.named;
  cohort_cancelled = h.cohort_cancelled;
  parent_cancelled = h.parent_cancelled;
  failed_or_not = h.failed_or_not;
  decided = ground arith;
  enrolled_seen = h.enrolled_seen;
  enrolled_ready = λ e. ground (arith, h.enrolled_ready e);
}

module _ {E : Type 0} (limited enroller : Bool) (classify : E → Fault) where
  mark_enrolled-Finished :
      (ks : List (Tick (Result E Readiness))) (t u : Tracker) {v : Tracker}
      → IsFresh t
      → Keeps t u
      → u.terminal ≡ none
      → u.obs.state ≡ LifecycleState.running
      → mark_enrolled (wait_enrolled enroller ks u) ≡ some v
      → Finished t.intent.id enroller (saw_cancel ks) (has_ready ks) v
  mark_enrolled-Finished ks t u {v} f k n s e = go (wait_enrolled enroller ks u) refl e
    where
      go :
          (o : Option Waiting)
          → wait_enrolled enroller ks u ≡ o
          → mark_enrolled o ≡ some v
          → Finished t.intent.id enroller (saw_cancel ks) (has_ready ks) v
      go none q h = absurd (cc)
      go (some w) q h =
          let r : (if is_terminal w.tracker then w.tracker else set_enrolled w.tracker) ≡ v = cc in
          subst (Finished t.intent.id enroller (saw_cancel ks) (has_ready ks)) r
            (probed enroller _ _ t u w.tracker f k n s (wait_enrolled-Probed enroller ks u q))

  after_running-Finished :
      (os : List (Tick (Result E (List Observation)))) (ks : List (Tick (Result E Readiness)))
      (t u : Tracker) (o : Option (Bool × Waiting)) {v : Tracker}
      → IsFresh t
      → Keeps t u
      → u.terminal ≡ none
      → wait_running classify os u ≡ o
      → after_running limited enroller classify ks o ≡ some v
      → Finished t.intent.id enroller (saw_cancel os || saw_cancel ks) (has_ready ks) v
  unfolding after_running
  after_running-Finished os ks t u none f k n q e = absurd (cc)
  after_running-Finished os ks t u (some (false, w)) {v} f k n q e =
      let p : Observed (saw_cancel os) u w.tracker false = wait_running-Observed classify os u q in
      let r : w.tracker ≡ v = cc in
      subst (Finished t.intent.id enroller (saw_cancel os || saw_cancel ks) (has_ready ks)) r (
        stopped enroller (saw_cancel os) (saw_cancel ks) _ t w.tracker f
          (Keeps-trans k p.phase.keeps) (ground (arith, p.phase.failed refl)))
  after_running-Finished os ks t u (some (true, w)) {v} f k n q e =
      let p : Observed (saw_cancel os) u w.tracker true = wait_running-Observed classify os u q in
      let m : Keeps t w.tracker = Keeps-trans k p.phase.keeps in
      widen t.intent.id enroller (saw_cancel os) _ _ v (
        mark_enrolled-Finished ks t (set_phase Phase.enrolled w.tracker) f
          (record {
            id = m.id;
            enrolled = m.enrolled;
            cohort_cancelled = m.cohort_cancelled;
            parent_cancelled = m.parent_cancelled;
          })
          (p.phase.clean refl ∙ n) (p.running refl) e)

  after_launch-Finished :
      (s : Script E) (t : Tracker) (o : Option (Bool × Launching)) {v : Tracker}
      → IsFresh t
      → do_launch limited classify s.launches t ≡ o
      → after_launch limited enroller classify s o ≡ some v
      → Finished t.intent.id enroller (cancel_seen s) (has_ready s.probes) v
  unfolding after_launch
  after_launch-Finished s t none f q e = absurd (cc)
  after_launch-Finished s t (some (false, l)) {v} f q e =
      let p : Phased (saw_cancel s.launches) t l.tracker false =
        do_launch-Phased limited classify s.launches t q in
      let r : l.tracker ≡ v = cc in
      subst (Finished t.intent.id enroller (cancel_seen s) (has_ready s.probes)) r (
        stopped enroller (saw_cancel s.launches) (saw_cancel s.observations || saw_cancel s.probes)
          _ t l.tracker f p.keeps (ground (arith, p.failed refl)))
  after_launch-Finished s t (some (true, l)) {v} f q e =
      let p : Phased (saw_cancel s.launches) t l.tracker true =
        do_launch-Phased limited classify s.launches t q in
      widen t.intent.id enroller (saw_cancel s.launches) _ _ v (
        after_running-Finished s.observations s.probes t (set_phase Phase.running l.tracker) _ f
          (record {
            id = p.keeps.id;
            enrolled = p.keeps.enrolled;
            cohort_cancelled = p.keeps.cohort_cancelled;
            parent_cancelled = p.keeps.parent_cancelled;
          })
          (p.clean refl ∙ f.terminal) refl e)

  -- However an entity's three phases end, from the tracker that Reconcile made: a fault is stored, or
  -- it is enrolled, or its context was found cancelled; never is an entity with a stored fault
  -- enrolled; and an enrolled entity was last observed running and, unless there is no enroller or
  -- the context was found cancelled, the enroller answered OK.
  pub reconcile_entity-Finished :
      (s : Script E) (t : Tracker) {u : Tracker}
      → IsFresh t
      → reconcile_entity limited enroller classify s t ≡ some u
      → Finished t.intent.id enroller (cancel_seen s) (has_ready s.probes) u
  unfolding reconcile_entity
  reconcile_entity-Finished s t f e =
      after_launch-Finished s t (do_launch limited classify s.launches t) f refl e

  wait_cancelled :
      (k : Tick (Result E Readiness)) (ks : List (Tick (Result E Readiness))) (t : Tracker)
      → k.ctx ≡ canceled
      → wait_enrolled enroller (k ∷ ks) t
        ≡ some (record { tracker = t; consistency_attempt = 0; sleeps = [] })
  unfolding wait_enrolled
  wait_cancelled k ks t c = rw (c, on_enrolled_tick) refl

  -- An entity whose context is cancelled at the head of phase 3, before its enroller is asked, is
  -- marked enrolled, although its tracker's flag is meant for those alone that the enroller accepted.
  pub cancelled_is_enrolled :
      (s : Script E) (t : Tracker) (k : Tick (Result E Readiness))
      (ks : List (Tick (Result E Readiness))) (l : Launching) (w : Waiting)
      → IsFresh t
      → do_launch limited classify s.launches t ≡ some (true, l)
      → wait_running classify s.observations (set_phase Phase.running l.tracker) ≡ some (true, w)
      → s.probes ≡ k ∷ ks
      → k.ctx ≡ canceled
      → (u : Tracker) × (reconcile_entity limited enroller classify s t ≡ some u)
        × (u.enrolled ≡ true)
  unfolding reconcile_entity
  cancelled_is_enrolled s t k ks l w f launched ran probes c =
      let clean : w.tracker.terminal ≡ none =
        (wait_running-Observed classify s.observations _ ran).phase.clean refl
        ∙ (do_launch-Phased limited classify s.launches t launched).clean refl
        ∙ f.terminal in
      (
        set_enrolled (set_phase Phase.enrolled w.tracker),
        rw (launched, after_launch)
            (rw (ran, after_running)
              (rw probes (rw (wait_cancelled k ks _ c, mark_enrolled) (ground arith)))),
        refl,
      )
