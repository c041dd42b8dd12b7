-- ===== src/Slurm/Suspend.antt =====
-- internal/slurm/suspend.go: Suspend, from the expanded hostlist. The partition is `none` where it
-- cannot be resolved, and else its warm pool: the numbers of hibernated and of stopped nodes.
pub mod Reach
use queuezero.Prelude.{
  ℕ, String, ◌<>◌, Bool, true, false, Option, none, some, List, [], ◌∷◌, ◌++◌, ltb, if◌then◌else◌,
  Result, ok, err,
}
use queuezero.Cohort.State.{StopMode}
use queuezero.Slurm.Bridge.{TeardownPort, Bridge}
use queuezero.Slurm.Holds.{reconcile_hold}

-- spec.WarmPool
pub record WarmPool : Type 0 where
  pub hibernated : ℕ
  pub stopped : ℕ

-- The mode of a stop, or none where the node is terminated.
abbrev pub suspend_action : WarmPool → Option StopMode
suspend_action p =
    if ltb 0 p.hibernated
    then some StopMode.hibernate
    else if ltb 0 p.stopped
    then some StopMode.warm
    else none

pub data SuspendError : Type 0 where
  no_actuator : SuspendError
  nodes_failed : List String → SuspendError

abbrev pool_or_empty : Option WarmPool → WarmPool
pool_or_empty none = record { hibernated = 0; stopped = 0 }
pool_or_empty (some p) = p

module _ {W : Type 0} (b : Bridge W) (act : TeardownPort W) (now : ℕ) where
  teardown : Option StopMode → String → W → Option String × W
  teardown none node w = act.terminate node w
  teardown (some mode) node w = act.stop node mode w

  -- The nodes that failed so far, with their errors, and the state.
  after_teardown : String → List String → Option String × W → List String × W
  after_teardown node errs (some e, w) = (errs ++ (node <> (": " <> e)) ∷ [], w)
  after_teardown node errs (none, w) = (errs, reconcile_hold b node now w)

  pub suspend_all : Option StopMode → List String → List String → W → List String × W
  unfolding teardown after_teardown
  suspend_all action [] errs w = (errs, w)
  suspend_all action (node ∷ nodes) errs w =
      let (errs', w') = after_teardown node errs (teardown action node w) in
      suspend_all action nodes errs' w'

abbrev errors_of : {W : Type 0} → List String × W → Option SuspendError × W
errors_of ([], w) = (none, w)
errors_of (e ∷ es, w) = (some (nodes_failed (e ∷ es)), w)

-- Bridge.Suspend
pub suspend :
    {W : Type 0} → Bridge W → ℕ → Option WarmPool → List String → W → Option SuspendError × W
unfolding suspend_all
suspend b now pool nodes w = elim b.actuator [
  | none ↦ (some no_actuator, w)
  | some act ↦ errors_of (suspend_all b act now (suspend_action (pool_or_empty pool)) nodes [] w)
]
