-- ===== src/Cohort/Race.antt =====
-- internal/cohort/reconcile.go: the concurrent part of Reconcile, up to the return of errgroup.Wait.
-- One goroutine runs reconcileEntity for each member, and then, if its entity failed, takes the mutex
-- and may call fastFailCancel. A goroutine touches no tracker but its own, so its work counts as done
-- at the moment of its critical section; the order of the steps is the order of those. The context
-- of a goroutine can be found cancelled only after fastFailCancel or the parent's cancellation.
pub mod Steps
pub mod Invariant
pub mod Gate
pub mod Examples
use queuezero.Prelude.{
  ℕ, ◌+◌, ◌-◌, String, Bool, true, false, not, ◌&&◌, Option, none, some, List, map, ◌==◌, length,
  set, leb, nat_beq, if◌then◌else◌,
}
use queuezero.Cohort.State.{Fault, FaultClass, Phase}
use queuezero.Cohort.Entity.{EntityIntent}
use queuezero.Cohort.Build.{Cohort}
use queuezero.Cohort.Tracker.{Tracker, new_tracker}

pub record CulpritInfo : Type 0 where
  pub id : String
  pub fault : Fault
  pub phase : Phase
  pub at : ℕ

-- A tracker, and whether its goroutine has ended.
pub record Member : Type 0 where
  pub tracker : Tracker
  pub done : Bool

-- What the goroutines share. `fast_failed` says that fastFailCancel was called, and `parent` is
-- the error of the parent context.
pub record Race : Type 0 where
  pub members : List Member
  pub failed_count : ℕ
  pub culprit : CulpritInfo
  pub fast_failed : Bool
  pub parent : Option String

-- The zero value of the struct: an empty id means that no culprit was recorded.
abbrev pub zero_culprit : CulpritInfo
zero_culprit = record {
  id = "";
  fault = record {
    class = FaultClass.retryable_consistency;
    code = "";
    retryable = false;
    message = "";
  };
  phase = Phase.launch_acked;
  at = 0;
}

-- MinViable, with 0 read as all the members.
unfoldable pub min_viable_of : Cohort → ℕ
min_viable_of c = if nat_beq c.min_viable 0 then length c.members else c.min_viable

abbrev pub new_member : ℕ → EntityIntent → Member
new_member now m = record { tracker = new_tracker now m; done = false }

abbrev pub start_race : ℕ → Cohort → Race
start_race now c = record {
  members = map (new_member now) c.members;
  failed_count = 0;
  culprit = zero_culprit;
  fast_failed = false;
  parent = none;
}

-- The test of the gate, after failedCount was incremented: `failed_count` is at most the number of
-- the members.
unfoldable pub blame : ℕ → ℕ → Tracker → Fault → Race → Race
blame min_viable now t f r =
    if not (leb min_viable (length r.members - r.failed_count)) && (r.culprit.id == "")
    then record r {
      culprit = record { id = t.intent.id; fault = f; phase = t.phase; at = now };
      fast_failed = true;
    }
    else r

-- The critical section of a goroutine whose tracker is `t`.
unfoldable pub critical : ℕ → ℕ → Tracker → Option Fault → Race → Race
critical min_viable now t none r = r
critical min_viable now t (some f) r =
    blame min_viable now t f (record r { failed_count = r.failed_count + 1 })

-- The end of the goroutine of the member at place `i`.
unfoldable pub finish : ℕ → ℕ → ℕ → Tracker → Race → Race
unfolding critical blame
finish min_viable i now t r =
    critical min_viable now t t.terminal
      (record r { members = set r.members i (record { tracker = t; done = true }) })
