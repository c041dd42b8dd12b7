-- ===== src/Slurm/Bridge.antt =====
-- internal/slurm/resume.go (the Bridge), admission.go and holdstore.go: the ports that the bridge is
-- made of, as functions that pass on the state `W` of what lies behind them, and what they exchange.
-- A nil port is `none`. An error of a port is its text. Put of a
-- HoldStore is not used here. A rate is a whole number of a small unit.
use queuezero.Prelude.{ℕ, String, Option, List, Result}
use queuezero.Cohort.State.{StopMode}
use queuezero.Aws.Client.{Instance}

pub record Hold : Type 0 where
  pub entity : String
  pub transaction_id : String
  pub account : String
  pub partition : String
  pub hourly_rate : ℕ
  pub started_at : ℕ

pub record ReconcileRequest : Type 0 where
  pub transaction_id : String
  pub account : String
  pub job_id : String
  pub actual_cost : ℕ

-- The errors of HoldStore.Get: ErrNoHold, or another.
pub data HoldError : Type 0 where
  no_hold : HoldError
  unreadable : String → HoldError

pub record HoldStore (W : Type 0) : Type 0 where
  pub get : String → W → Result HoldError Hold × W
  pub delete : String → W → Option String × W

-- The calls of cohort.Actuator that tear down.
pub record TeardownPort (W : Type 0) : Type 0 where
  pub stop : String → StopMode → W → Option String × W
  pub terminate : String → W → Option String × W

-- The fields of Bridge and of its Config that are read here. `reconciler` is the Admitter where it
-- implements Reconciler.
pub record Bridge (W : Type 0) : Type 0 where
  pub actuator : Option (TeardownPort W)
  pub describer : Option (String → W → Result String (List Instance) × W)
  pub holds : Option (HoldStore W)
  pub reconciler : Option (ReconcileRequest → W → Option String × W)
  pub cluster : String
  pub generation : String
