-- ===== src/Cohort/Phases/Shown.antt =====
-- What the two waiting loops show of a tracker.
use queuezero.Prelude.{
  ℕ, ◌≡◌, refl, Bool, true, false, List, [], ◌∷◌, some, arith, ◌⊎◌, Result, ok, err, subst,
}
use queuezero.Prelude.Loop.{again, returned, loop_rule}
use queuezero.Cohort.State.{Fault, FaultClass, LifecycleState}
use queuezero.Cohort.Entity.{Observation}
use queuezero.Cohort.Tracker.{Tracker, is_terminal}
use queuezero.Cohort.Frame.{Keeps, is_canceled, saw_cancel, Phased, Phased-after}
use queuezero.Cohort.Launch.{CtxState, live, canceled, deadline_exceeded, Tick}
use queuezero.Cohort.Phases.{
  Waiting, WaitTurn, on_state, on_observer_fault, on_observed, on_running_tick, running_turn,
  wait_running,
}

abbrev after : WaitTurn → Waiting
after (again w) = w
after (returned (b, w)) = w

abbrev gives_up : WaitTurn → Bool
gives_up (again w) = false
gives_up (returned (true, w)) = false
gives_up (returned (false, w)) = true

abbrev succeeds : WaitTurn → Bool
succeeds (again w) = false
succeeds (returned (true, w)) = true
succeeds (returned (false, w)) = false

record Shows (cancelled : Bool) (t : Tracker) (r : WaitTurn) : Type 0 where
  keeps : Keeps t (after r).tracker
  clean : gives_up r ≡ false → (after r).tracker.terminal ≡ t.terminal
  failed :
      gives_up r ≡ true
      → ((cancelled ≡ true) × ((after r).tracker.terminal ≡ t.terminal))
        ⊎ (is_terminal (after r).tracker ≡ true)
  seen : succeeds r ≡ true → (after r).tracker.obs.state ≡ LifecycleState.running

on_state-Shows :
    (s : LifecycleState) (now : ℕ) (w : Waiting)
    → w.tracker.obs.state ≡ s
    → Shows false w.tracker (on_state s now w)
unfolding on_state
on_state-Shows LifecycleState.running now w e = ground arith
on_state-Shows _ now w e = ground arith

on_observer_fault-Shows :
    (c : FaultClass) (f : Fault) (now draw : ℕ) (w : Waiting)
    → Shows false w.tracker (on_observer_fault c f now draw w)
unfolding on_observer_fault
on_observer_fault-Shows FaultClass.terminal f now draw w = ground arith
on_observer_fault-Shows _ f now draw w = ground arith

on_observed-Shows :
    {E : Type 0} (classify : E → Fault) (r : Result E (List Observation)) (now draw : ℕ)
    (w : Waiting)
    → Shows false w.tracker (on_observed classify r now draw w)
unfolding on_observed
on_observed-Shows classify (err e) now draw w =
    on_observer_fault-Shows (classify e).class (classify e) now draw w
on_observed-Shows classify (ok []) now draw w = ground arith
on_observed-Shows classify (ok (o ∷ os)) now draw w =
    let s : Shows false _ _ =
      on_state-Shows o.state now (record w { tracker = record w.tracker { obs = o } }) refl in
    record {
      keeps = record {
        id = s.keeps.id;
        enrolled = s.keeps.enrolled;
        cohort_cancelled = s.keeps.cohort_cancelled;
        parent_cancelled = s.keeps.parent_cancelled;
      };
      clean = s.clean;
      failed = s.failed;
      seen = s.seen;
    }

on_running_tick-Shows :
    {E : Type 0} (classify : E → Fault) (c : CtxState) (k : Tick (Result E (List Observation)))
    (w : Waiting)
    → Shows (is_canceled c) w.tracker (on_running_tick classify c k w)
unfolding on_running_tick
on_running_tick-Shows classify canceled k w = ground arith
on_running_tick-Shows classify deadline_exceeded k w = ground arith
on_running_tick-Shows classify live k w = on_observed-Shows classify k.reply k.now k.draw w

-- The result of waitRunning: as of a phase, and true only of an entity last observed running.
pub record Observed (cancelled : Bool) (t u : Tracker) (b : Bool) : Type 0 where
  pub phase : Phased cancelled t u b
  pub running : b ≡ true → u.obs.state ≡ LifecycleState.running

module _ {E : Type 0} (classify : E → Fault) where
  running_turn-Shows :
      (k : Tick (Result E (List Observation))) (w : Waiting) {r : WaitTurn}
      → running_turn classify k w ≡ r
      → Shows (is_canceled k.ctx) w.tracker r
  unfolding running_turn
  running_turn-Shows k w e =
      subst (Shows (is_canceled k.ctx) w.tracker) e (on_running_tick-Shows classify k.ctx k w)

  stop :
      (k : Tick (Result E (List Observation))) (ks : List (Tick (Result E (List Observation))))
      (t : Tracker) (b : Bool) (u : Waiting)
      → Shows (is_canceled k.ctx) t (returned (b, u))
      → Observed (saw_cancel (k ∷ ks)) t u.tracker b
  stop k ks t true u h = record {
    phase = record { keeps = h.keeps; clean = λ _. h.clean refl; failed = cc };
    running = λ _. h.seen refl;
  }
  stop k ks t false u h = record {
    phase = record { keeps = h.keeps; clean = cc; failed = λ _. ground (arith, h.failed refl) };
    running = cc;
  }

  pub wait_running-Observed :
      (ks : List (Tick (Result E (List Observation)))) (t : Tracker) {b : Bool} {u : Waiting}
      → wait_running classify ks t ≡ some (b, u)
      → Observed (saw_cancel ks) t u.tracker b
  unfolding wait_running
  wait_running-Observed ks t {b} {u} e =
      loop_rule (running_turn classify)
        (λ ks w r. Observed (saw_cancel ks) w.tracker r.1.tracker r.0)
        (λ k ks w r e. stop k ks w.tracker r.0 r.1 (running_turn-Shows k w e))
        (λ k ks w w' r e h.
          let s : Shows (is_canceled k.ctx) w.tracker (again w') = running_turn-Shows k w e in
          record { phase = Phased-after _ _ s.keeps (s.clean refl) h.phase; running = h.running })
        ks _ (b, u) e
