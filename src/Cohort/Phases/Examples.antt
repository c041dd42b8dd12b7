-- ===== src/Cohort/Phases/Examples.antt =====
-- Entities that run through their phases.
use queuezero.Prelude.{String, ◌≡◌, refl, false, true, [], ◌∷◌, some, Result, ok}
use queuezero.Prelude.Loop.{loop}
use queuezero.Cohort.State.{Fault, Phase}
use queuezero.Cohort.Entity.{Readiness}
use queuezero.Cohort.Tracker.{Tracker, set_enrolled, set_phase, set_obs}
use queuezero.Cohort.Launch.{Tick, canceled}
use queuezero.Cohort.Launch.Examples.{
  same, tick_of, good, denied, fresh, launched, refused, good_launch, denied_launch, running_of,
}
use queuezero.Cohort.Phases.{
  Script, reconcile_entity, after_launch, after_running, wait_running, wait_enrolled, running_turn,
  on_running_tick, on_observed, on_state, enrolled_turn, on_enrolled_tick, on_enroller,
}
use queuezero.Cohort.Phases.Probed.{has_ready}
use queuezero.Cohort.Phases.Finish.{IsFresh, Finished, cancel_seen, reconcile_entity-Finished}

-- Launched, seen running, and asked for by no enroller.
abbrev pub smooth : Script Fault
smooth = record {
  launches = good;
  observations = tick_of (ok (running_of "a" ∷ [])) ∷ [];
  probes = tick_of (ok (record { enrolled = false; operational = false; detail = "" })) ∷ [];
}

-- Refused by the provider.
abbrev pub rejected : Script Fault
rejected = record { launches = denied; observations = []; probes = [] }

abbrev pub seen_running : Tracker → Tracker
seen_running t = set_obs (running_of "a") (set_phase Phase.running (launched t).tracker)

abbrev pub at_work : Tracker → Tracker
at_work t = set_enrolled (set_phase Phase.enrolled (seen_running t))

running_seen :
    (t : Tracker)
    → wait_running same smooth.observations (set_phase Phase.running (launched t).tracker)
      ≡ some (true, record { tracker = seen_running t; consistency_attempt = 0; sleeps = [] })
unfolding loop wait_running running_turn on_running_tick on_observed on_state
running_seen t = refl

pub smooth_run :
    (id : String) → reconcile_entity false false same smooth (fresh id) ≡ some (at_work (fresh id))
unfolding reconcile_entity after_launch after_running loop wait_enrolled enrolled_turn
    on_enrolled_tick on_enroller
smooth_run id =
    rw (good_launch (fresh id), after_launch) (rw (running_seen (fresh id), after_running) refl)

pub rejected_run :
    (id : String)
    → reconcile_entity false false same rejected (fresh id) ≡ some (refused (fresh id)).tracker
unfolding reconcile_entity
rejected_run id = rw (denied_launch (fresh id), after_launch) refl

fresh-IsFresh : IsFresh (fresh "a")
fresh-IsFresh = record {
  enrolled = refl;
  terminal = refl;
  cohort_cancelled = refl;
  parent_cancelled = refl;
}

reconcile_entity-Finished_example :
    Finished "a" false (cancel_seen smooth) (has_ready smooth.probes) (at_work (fresh "a"))
reconcile_entity-Finished_example =
    reconcile_entity-Finished false false same smooth (fresh "a") fresh-IsFresh (smooth_run "a")

-- An entity whose cohort is cancelled while it waits for its enroller.
abbrev too_late : Tick (Result Fault Readiness)
too_late = record {
  ctx = canceled;
  reply = ok (record { enrolled = false; operational = false; detail = "" });
  now = 9;
  draw = 0;
}

abbrev caught : Script Fault
caught = record { launches = good; observations = smooth.observations; probes = too_late ∷ [] }
