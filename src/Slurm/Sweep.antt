-- ===== src/Slurm/Sweep.antt =====
-- internal/slurm/sweep.go. A reason is a value with what its text shows. `now` is one time for the
-- whole sweep, and the zero time is 0, as in Instance.
pub mod Orphans
pub mod Terminates
pub mod Decided
pub mod Named
use queuezero.Prelude.{
  ℕ, ◌-◌, String, Bool, true, false, ◌||◌, Option, none, some, List, [], ◌∷◌, ◌++◌, ◌==◌, leb,
  nat_beq, if◌then◌else◌, Result, ok, err,
}
use queuezero.Aws.Client.{Instance}
use queuezero.Slurm.Bridge.{TeardownPort, Bridge}
use queuezero.Slurm.Holds.{reconcile_hold}

pub record SweepOptions : Type 0 where
  pub grace : ℕ
  pub dry_run : Bool
  pub now : ℕ

pub data Reason : Type 0 where
  terminating : String → Reason
  no_generation current_generation no_entity : Reason
  in_grace : String → ℕ → ℕ → Reason
  stale : String → String → ℕ → ℕ → Reason
  stale_failed : String → String → ℕ → ℕ → String → Reason

pub record SweepDecision : Type 0 where
  pub entity : String
  pub provider_id : String
  pub generation : String
  pub reason : Reason

pub record SweepResult : Type 0 where
  pub reaped : List SweepDecision
  pub spared : List SweepDecision

pub data SweepError : Type 0 where
  no_describer no_actuator empty_generation : SweepError
  describe_failed : String → SweepError

abbrev pub is_terminating : String → Bool
is_terminating s = (s == "shutting-down") || (s == "terminated")

abbrev pub within_grace : ℕ → ℕ → ℕ → Bool
within_grace launch grace now = if nat_beq launch 0 then true else leb (now - launch) grace

abbrev age : ℕ → ℕ → ℕ
age launch now = if nat_beq launch 0 then 0 else now - launch

abbrev pub decision : Instance → Reason → SweepDecision
decision i reason = record {
  entity = i.entity;
  provider_id = i.provider_id;
  generation = i.generation;
  reason = reason;
}

-- The cases that spare an instance, in the order of the switch.
pub spare : String → SweepOptions → Instance → Option Reason
spare current o i =
    if is_terminating i.state
    then some (terminating i.state)
    else if i.generation == ""
    then some no_generation
    else if i.generation == current
    then some current_generation
    else if within_grace i.launch_time o.grace o.now
    then some (in_grace i.generation (age i.launch_time o.now) o.grace)
    else if i.entity == ""
    then some no_entity
    else none

abbrev stale_of : String → SweepOptions → Instance → Reason
stale_of current o i = stale i.generation current (age i.launch_time o.now) o.grace

abbrev failed_of : String → SweepOptions → Instance → String → Reason
failed_of current o i e = stale_failed i.generation current (age i.launch_time o.now) o.grace e

abbrev add_spared : SweepDecision → SweepResult → SweepResult
add_spared d r = record r { spared = r.spared ++ d ∷ [] }

abbrev add_reaped : SweepDecision → SweepResult → SweepResult
add_reaped d r = record r { reaped = r.reaped ++ d ∷ [] }

module _ {W : Type 0} (b : Bridge W) (act : TeardownPort W) (o : SweepOptions) where
  -- The end of a reap: a failure of Terminate is put down, and a success closes the hold.
  after_terminate : Instance → SweepResult → Option String × W → SweepResult × W
  after_terminate i r (some e, w) = (add_reaped (decision i (failed_of b.generation o i e)) r, w)
  after_terminate i r (none, w) =
      (add_reaped (decision i (stale_of b.generation o i)) r, reconcile_hold b i.entity o.now w)

  reap : Instance → SweepResult → W → SweepResult × W
  unfolding after_terminate
  reap i r w =
      if o.dry_run
      then (add_reaped (decision i (stale_of b.generation o i)) r, w)
      else after_terminate i r (act.terminate i.entity w)

  on_instance : Option Reason → Instance → SweepResult → W → SweepResult × W
  unfolding reap
  on_instance (some reason) i r w = (add_spared (decision i reason) r, w)
  on_instance none i r w = reap i r w

  -- The loop over the instances.
  pub sweep_all : List Instance → SweepResult → W → SweepResult × W
  unfolding spare on_instance
  sweep_all [] r w = (r, w)
  sweep_all (i ∷ is) r w =
      let (r', w') = on_instance (spare b.generation o i) i r w in sweep_all is r' w'

abbrev pub no_decisions : SweepResult
no_decisions = record { reaped = []; spared = [] }

module _ {W : Type 0} (b : Bridge W) (o : SweepOptions) where
  described : TeardownPort W → Result String (List Instance) × W → Result SweepError SweepResult × W
  unfolding sweep_all
  described act (err e, w) = (err (describe_failed e), w)
  described act (ok is, w) = let (r, w') = sweep_all b act o is no_decisions w in (ok r, w')

  -- Bridge.Sweep
  pub sweep : W → Result SweepError SweepResult × W
  unfolding described
  sweep w = elim b.describer [
    | none ↦ (err no_describer, w)
    | some describe ↦ (elim b.actuator [
      | none ↦ (err no_actuator, w)
      | some act ↦
          if b.generation == ""
          then (err empty_generation, w)
          else described act (describe b.cluster w)
    ])
  ]
