-- ===== src/Slurm/Examples.antt =====
-- A cluster with a live node and an orphan of the same name, and a node with a hold.
use queuezero.Prelude.{
  ◌≡◌, refl, String, Bool, true, false, not, Option, none, some, List, [], ◌∷◌, ◌++◌, map, Result,
  ok, err, ◌==◌,
}
use queuezero.Cohort.State.{StopMode}
use queuezero.Aws.Client.{Instance}
use queuezero.Aws.Actuator.{SubstrateClient}
use queuezero.Slurm.Bridge.{Hold, HoldError, no_hold, HoldStore, Bridge, ReconcileRequest}
use queuezero.Slurm.Holds.{reconcile_hold}
use queuezero.Slurm.Holds.Once.{IsHoldStore, hold_charged_once}
use queuezero.Slurm.Suspend.{suspend_all}
use queuezero.Slurm.Suspend.Reach.{Call, recorder, calls_of, failures, suspend_all_reaches}
use queuezero.Slurm.Sweep.{SweepOptions, sweep_all, no_decisions}
use queuezero.Slurm.Sweep.Decided.{key_of, keys_where, sweep_all_decides}
use queuezero.Slurm.Sweep.Orphans.{is_orphan, entities_where}
use queuezero.Slurm.Sweep.Terminates.{terminate_each}
use queuezero.Slurm.Sweep.Named.{port}

abbrev bridge_of :
    (W : Type 0)
    → Option (HoldStore W)
    → Option (ReconcileRequest → W → Option String × W)
    → Bridge W
bridge_of W holds reconciler = record {
  actuator = none;
  describer = none;
  holds = holds;
  reconciler = reconciler;
  cluster = "c";
  generation = "8";
}

abbrev node : String → String → Instance
node provider_id generation = record {
  provider_id = provider_id;
  state = "running";
  private_addr = "";
  instance_type = "c5.large";
  avail_zone = "";
  generation = generation;
  entity = "a";
  launch_time = 100;
}

abbrev options : Bool → SweepOptions
options dry = record { grace = 60; dry_run = dry; now = 1000 }

abbrev fleet : List Instance
fleet = node "i-live" "8" ∷ node "i-old" "7" ∷ []

-- A provider whose state is the last instance that it terminated.
abbrev provider : SubstrateClient String
provider = record {
  start_instance = λ id w. (ok (node id "8"), w);
  stop_instance = λ id hibernate w. (ok tt, w);
  terminate_instance = λ id w. (ok tt, id);
  describe_by_tag = λ filter w. (ok fleet, w);
}

abbrev bare : Bridge String
bare = bridge_of String none none

sweep_all_decides_example :
    (map key_of (sweep_all bare (port provider "c") (options false) fleet no_decisions "").0.reaped
      ≡ keys_where (is_orphan "8" (options false)) fleet)
    × (map key_of
          (sweep_all bare (port provider "c") (options false) fleet no_decisions "").0.spared
        ≡ keys_where (λ i. not (is_orphan "8" (options false) i)) fleet)
    × ((sweep_all bare (port provider "c") (options false) fleet no_decisions "").1
        ≡ terminate_each bare
            (port provider "c")
            1000
            (entities_where (is_orphan "8" (options false)) fleet)
            "")
sweep_all_decides_example = sweep_all_decides bare (port provider "c") (options false) fleet ""

abbrev only_b : String → Option String
only_b id = elim (id == "b") [ true ↦ some "stuck" | false ↦ none ]

suspend_all_reaches_example :
    suspend_all
      (bridge_of (List Call) none none)
      (recorder only_b)
      5
      (some StopMode.warm)
      ("a" ∷ "b" ∷ [])
      []
      []
    ≡ ([] ++ failures only_b ("a" ∷ "b" ∷ []), [] ++ calls_of (some StopMode.warm) ("a" ∷ "b" ∷ []))
suspend_all_reaches_example =
    suspend_all_reaches (bridge_of (List Call) none none) only_b 5 refl (some StopMode.warm)
      ("a" ∷ "b" ∷ []) [] []

-- A store of at most one hold.
abbrev kept : Hold
kept = record {
  entity = "a";
  transaction_id = "t-1";
  account = "acct";
  partition = "cpu";
  hourly_rate = 3;
  started_at = 10;
}

abbrev get_one : Option Hold → Result HoldError Hold × Option Hold
get_one none = (err no_hold, none)
get_one (some h) = (ok h, some h)

abbrev one_hold : HoldStore (Option Hold)
one_hold = record { get = λ id w. get_one w; delete = λ id w. (none, none) }

one_hold-IsHoldStore : IsHoldStore one_hold
one_hold-IsHoldStore = record { reads = λ id w. reads w; forgets = λ id w deleted. refl }
  where
    reads : (w : Option Hold) → (get_one w).1 ≡ w
    reads none = refl
    reads (some h) = refl

abbrev accepting : ReconcileRequest → Option Hold → Option String × Option Hold
accepting request w = (none, w)

abbrev holding : Bridge (Option Hold)
holding = bridge_of (Option Hold) (some one_hold) (some accepting)

hold_charged_once_example :
    (reconcile_hold holding "a" 20 (some kept) ≡ none)
    × (reconcile_hold holding "a" 30 (reconcile_hold holding "a" 20 (some kept))
        ≡ reconcile_hold holding "a" 20 (some kept))
hold_charged_once_example =
    hold_charged_once holding one_hold one_hold-IsHoldStore accepting refl refl "a" 20 30
      (some kept) kept refl refl refl
