-- ===== src/Cohort/Launch/Examples.antt =====
-- Launches to run the theorems on: the provider's errors are faults, and its classifier the identity.
use queuezero.Prelude.{
  ◌≡◌, refl, String, false, true, List, [], ◌∷◌, none, some, Result, ok, err, is_some, arith,
}
use queuezero.Prelude.Loop.{loop}
use queuezero.Cohort.State.{Fault, FaultClass, Phase, LifecycleState}
use queuezero.Cohort.Entity.{Observation, rung_eq, capacity_eq, bool_eq}
use queuezero.Cohort.Build.Examples.{rung_of, intent_of}
use queuezero.Cohort.Tracker.{Tracker, new_tracker, add_attempt, set_obs, fail_attempt}
use queuezero.Cohort.Launch.{
  live, Tick, Launching, call_of, do_launch, launch_turn, on_tick, on_reply, on_fault, give_up,
  emit,
}
use queuezero.Cohort.Launch.Chain.{Stays, do_launch-Stays}
use queuezero.Cohort.Launch.Bound.{do_launch_returns}
use queuezero.Cohort.Launch.Walk.{HasNoCapacity}

abbrev pub same : Fault → Fault
same f = f

abbrev pub fault_of : FaultClass → String → Fault
fault_of class code = record { class = class; code = code; retryable = false; message = "" }

abbrev pub running_of : String → Observation
running_of id = record {
  id = id;
  generation = "7";
  state = LifecycleState.running;
  provider_id = "i-0";
  rung = rung_of "c5.large";
  address = "10.0.0.1";
  observed_at = 1;
}

abbrev pub tick_of {ℓ} : {R : Type ℓ} → R → Tick R
tick_of r = record { ctx = live; reply = r; now = 5; draw = 0 }

abbrev pub good : List (Tick (Result Fault Observation))
good = tick_of (ok (running_of "a")) ∷ []

abbrev pub denied : List (Tick (Result Fault Observation))
denied = tick_of (err (fault_of FaultClass.terminal "UnauthorizedOperation")) ∷ []

abbrev pub fresh : String → Tracker
fresh id = new_tracker 0 (intent_of id)

abbrev pub launched : Tracker → Launching
launched t = record {
  tracker = add_attempt t.intent.rung Phase.launch_acked none 5 (set_obs (running_of "a") t);
  consistency_attempt = 0;
  effects = call_of t.intent ∷ [];
}

abbrev pub refused : Tracker → Launching
refused t = record {
  tracker =
      fail_attempt Phase.launch_acked (fault_of FaultClass.terminal "UnauthorizedOperation") 5 t;
  consistency_attempt = 0;
  effects = call_of t.intent ∷ [];
}

pub good_launch : (t : Tracker) → do_launch false same good t ≡ some (true, launched t)
unfolding do_launch loop launch_turn on_tick on_reply emit
good_launch t = refl

pub denied_launch : (t : Tracker) → do_launch false same denied t ≡ some (false, refused t)
unfolding do_launch loop launch_turn on_tick on_reply on_fault give_up emit
denied_launch t = refl

do_launch-Stays_example : Stays (intent_of "a") (launched (fresh "a"))
do_launch-Stays_example = do_launch-Stays false same good (fresh "a") refl (good_launch (fresh "a"))

-- Twelve lags in a row.
abbrev lag : Tick (Result Fault Observation)
lag = tick_of (err (fault_of FaultClass.retryable_consistency "InvalidAMIID.NotFound"))

abbrev lags : List (Tick (Result Fault Observation))
lags = lag ∷ lag ∷ lag ∷ lag ∷ lag ∷ lag ∷ lag ∷ lag ∷ lag ∷ lag ∷ lag ∷ lag ∷ []

do_launch_returns_example : is_some (do_launch false same lags (fresh "a")) ≡ true
unfolding rung_eq capacity_eq bool_eq
do_launch_returns_example =
    do_launch_returns false same lags (fresh "a") ((refl, tt), (tt, tt)) (omega arith)

-- A chain that returns to its first rung.
abbrev knot : Tracker
knot = record (fresh "a") {
  intent = record (intent_of "a") {
    fallback_chain =
        rung_of "c5.large" ∷ rung_of "m5.large" ∷ rung_of "c5.large" ∷ rung_of "r5.large" ∷ [];
  };
}

abbrev full : List (Tick (Result Fault Observation))
full =
    tick_of (err (fault_of FaultClass.capacity_exhausted "InsufficientInstanceCapacity"))
    ∷ tick_of (err (fault_of FaultClass.capacity_exhausted "InsufficientInstanceCapacity"))
    ∷ tick_of (err (fault_of FaultClass.capacity_exhausted "InsufficientInstanceCapacity"))
    ∷ []

no_capacity :
    HasNoCapacity same
      (tick_of (err (fault_of FaultClass.capacity_exhausted "InsufficientInstanceCapacity")))
no_capacity = record {
  live_ctx = refl;
  error = fault_of FaultClass.capacity_exhausted "InsufficientInstanceCapacity";
  reply = refl;
  class = refl;
}
