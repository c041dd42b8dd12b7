-- ===== src/Cohort/Phases.antt =====
-- internal/cohort/reconcile.go: waitRunning, waitEnrolled and reconcileEntity. The loops read ticks
-- as doLaunch does. The reply of a tick is that of the Observer or of the Enroller.
pub mod Shown
pub mod Probed
pub mod Finish
pub mod Examples
use queuezero.Prelude.{
  ℕ, ◌+◌, String, ◌<>◌, Bool, true, false, Option, none, some, List, [], ◌∷◌, ◌++◌, if◌then◌else◌,
  Result, ok, err,
}
use queuezero.Prelude.Loop.{Turn, again, returned, loop}
use queuezero.Cohort.State.{Fault, FaultClass, Phase, LifecycleState, lifecycle_name}
use queuezero.Cohort.Entity.{Observation, Readiness, readiness_ok}
use queuezero.Cohort.Backoff.{default_backoff_policy, duration}
use queuezero.Cohort.Tracker.{
  Tracker, set_obs, set_phase, fail_attempt, record_deadline, is_terminal, set_enrolled,
}
use queuezero.Cohort.Launch.{
  CtxState, live, canceled, deadline_exceeded, Tick, Launching, do_launch,
}

-- The variables of a waiting loop, and how long it slept at each turn.
pub record Waiting : Type 0 where
  pub tracker : Tracker
  pub consistency_attempt : ℕ
  pub sleeps : List ℕ

abbrev WaitTurn : Type 0
WaitTurn = Turn Waiting (Bool × Waiting)

abbrev poll_interval : ℕ
poll_interval = 100_000_000

sleep : ℕ → Waiting → Waiting
sleep d w = record w { sleeps = w.sleeps ++ d ∷ [] }

instance_failed : LifecycleState → Fault
instance_failed s = record {
  class = FaultClass.terminal;
  code = "InstanceFailed";
  retryable = false;
  message = "instance entered state " <> (lifecycle_name s <> " during phase 2");
}

-- The switch on the state that the observer reports.
on_state : LifecycleState → ℕ → Waiting → WaitTurn
unfolding sleep
on_state LifecycleState.running now w = returned (true, w)
on_state LifecycleState.failed now w = returned (
  false,
  record w {
    tracker = fail_attempt Phase.running (instance_failed LifecycleState.failed) now w.tracker;
  },
)
on_state LifecycleState.draining now w = returned (
  false,
  record w {
    tracker = fail_attempt Phase.running (instance_failed LifecycleState.draining) now w.tracker;
  },
)
on_state _ now w = again (sleep poll_interval w)

-- A fault of the observer: only a terminal one ends the wait.
on_observer_fault : FaultClass → Fault → ℕ → ℕ → Waiting → WaitTurn
unfolding sleep
on_observer_fault FaultClass.terminal f now draw w =
    returned (false, record w { tracker = fail_attempt Phase.running f now w.tracker })
on_observer_fault _ f now draw w = again (
    sleep (duration default_backoff_policy w.consistency_attempt draw)
      (record w { consistency_attempt = w.consistency_attempt + 1 }))

on_observed : {E : Type 0} → (E → Fault) → Result E (List Observation) → ℕ → ℕ → Waiting → WaitTurn
unfolding on_state on_observer_fault sleep
on_observed classify (err e) now draw w =
    let f = classify e in on_observer_fault f.class f now draw w
on_observed classify (ok []) now draw w = again (sleep poll_interval w)
on_observed classify (ok (o ∷ os)) now draw w =
    on_state o.state now (record w { tracker = set_obs o w.tracker })

on_running_tick :
    {E : Type 0} → (E → Fault) → CtxState → Tick (Result E (List Observation)) → Waiting → WaitTurn
unfolding on_observed
on_running_tick classify canceled k w = returned (false, w)
on_running_tick classify deadline_exceeded k w =
    returned (false, record w { tracker = record_deadline Phase.running k.now w.tracker })
on_running_tick classify live k w = on_observed classify k.reply k.now k.draw w

module _ {E : Type 0} (classify : E → Fault) where
  running_turn : Tick (Result E (List Observation)) → Waiting → WaitTurn
  unfolding on_running_tick
  running_turn k w = on_running_tick classify k.ctx k w

  -- Reconciler.waitRunning
  pub wait_running : List (Tick (Result E (List Observation))) → Tracker → Option (Bool × Waiting)
  unfolding loop running_turn
  wait_running ks t =
      loop running_turn ks (record { tracker = t; consistency_attempt = 0; sleeps = [] })

-- The enroller's answer is taken only without an error and when it is OK. Its detail becomes the
-- address of the observation.
on_readiness : {E : Type 0} → Result E Readiness → Waiting → Turn Waiting Waiting
unfolding sleep
on_readiness (err e) w = again (sleep poll_interval w)
on_readiness (ok r) w =
    if readiness_ok r
    then returned
        (record w { tracker = set_obs (record w.tracker.obs { address = r.detail }) w.tracker })
    else again (sleep poll_interval w)

-- `enroller` says whether one is configured.
on_enroller : {E : Type 0} → Bool → Result E Readiness → Waiting → Turn Waiting Waiting
unfolding on_readiness
on_enroller false r w = returned w
on_enroller true r w = on_readiness r w

on_enrolled_tick :
    {E : Type 0} → Bool → CtxState → Tick (Result E Readiness) → Waiting → Turn Waiting Waiting
unfolding on_enroller
on_enrolled_tick enroller canceled k w = returned w
on_enrolled_tick enroller deadline_exceeded k w =
    returned (record w { tracker = record_deadline Phase.enrolled k.now w.tracker })
on_enrolled_tick enroller live k w = on_enroller enroller k.reply w

module _ {E : Type 0} (enroller : Bool) where
  enrolled_turn : Tick (Result E Readiness) → Waiting → Turn Waiting Waiting
  unfolding on_enrolled_tick
  enrolled_turn k w = on_enrolled_tick enroller k.ctx k w

  -- Reconciler.waitEnrolled
  pub wait_enrolled : List (Tick (Result E Readiness)) → Tracker → Option Waiting
  unfolding loop enrolled_turn
  wait_enrolled ks t =
      loop enrolled_turn ks (record { tracker = t; consistency_attempt = 0; sleeps = [] })

-- What one entity meets in its three phases.
pub record Script (E : Type 0) : Type 0 where
  pub launches : List (Tick (Result E Observation))
  pub observations : List (Tick (Result E (List Observation)))
  pub probes : List (Tick (Result E Readiness))

-- The end of phase 3: enrolled unless a fault is stored.
abbrev mark_enrolled : Option Waiting → Option Tracker
mark_enrolled none = none
mark_enrolled (some w) = some (if is_terminal w.tracker then w.tracker else set_enrolled w.tracker)

module _ {E : Type 0} (limited enroller : Bool) (classify : E → Fault) where
  after_running : List (Tick (Result E Readiness)) → Option (Bool × Waiting) → Option Tracker
  after_running ks none = none
  after_running ks (some (false, w)) = some w.tracker
  after_running ks (some (true, w)) =
      mark_enrolled (wait_enrolled enroller ks (set_phase Phase.enrolled w.tracker))

  after_launch : Script E → Option (Bool × Launching) → Option Tracker
  unfolding after_running
  after_launch s none = none
  after_launch s (some (false, l)) = some l.tracker
  after_launch s (some (true, l)) =
      after_running s.probes
        (wait_running classify s.observations (set_phase Phase.running l.tracker))

  -- Reconciler.reconcileEntity: `none` means that a phase runs on after the script.
  pub reconcile_entity : Script E → Tracker → Option Tracker
  unfolding after_launch
  reconcile_entity s t = after_launch s (do_launch limited classify s.launches t)
