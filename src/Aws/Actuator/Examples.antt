-- ===== src/Aws/Actuator/Examples.antt =====
-- A provider that shows one instance of the entity `a`, and counts the calls.
use queuezero.Prelude.{ℕ, suc, ◌≡◌, refl, true, false, List, [], ◌∷◌, some, Result, ok, err}
use queuezero.Cohort.State.{Fault, FaultClass, Phase}
use queuezero.Cohort.Entity.{Observation}
use queuezero.Cohort.Tracker.{fail_attempt}
use queuezero.Cohort.Launch.{Tick, Launching, do_launch}
use queuezero.Cohort.Launch.Examples.{tick_of, fresh, fault_of}
use queuezero.Aws.Errors.{GoError}
use queuezero.Aws.Classifier.{classify}
use queuezero.Aws.Client.{Instance}
use queuezero.Aws.Actuator.{SubstrateClient, translate_fault_err}
use queuezero.Aws.Actuator.Wiring.{wired_launch_gives_up}

abbrev shown : Instance
shown = record {
  provider_id = "i-0";
  state = "running";
  private_addr = "10.0.0.1";
  instance_type = "c5.large";
  avail_zone = "us-east-1a";
  generation = "7";
  entity = "a";
  launch_time = 0;
}

-- `found` is what every lookup finds.
abbrev client_of : List Instance → SubstrateClient ℕ
client_of found = record {
  start_instance = λ id w. (ok shown, suc w);
  stop_instance = λ id hibernate w. (ok tt, suc w);
  terminate_instance = λ id w. (ok tt, suc w);
  describe_by_tag = λ filter w. (ok found, suc w);
}

abbrev no_capacity : Fault
no_capacity = fault_of FaultClass.capacity_exhausted "InsufficientInstanceCapacity"

abbrev told : Tick (Result GoError Observation)
told = tick_of (err (translate_fault_err (GoError.fault no_capacity) "a"))

wired_launch_gives_up_example :
    (g : Fault) × (l : Launching) × (do_launch true classify (told ∷ []) (fresh "a")
      ≡ some (false, l))
    × (l.tracker ≡ fail_attempt Phase.launch_acked g 5 (fresh "a"))
    × (g.class ≡ FaultClass.terminal)
    × (g.code ≡ "UnknownError")
wired_launch_gives_up_example = wired_launch_gives_up true no_capacity told [] (fresh "a") refl refl
