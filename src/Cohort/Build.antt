-- ===== src/Cohort/Build.antt =====
-- internal/cohort/cohort.go: cohorts, their constructors and the phase budgets. Durations are
-- nanoseconds; a negative duration is not a value here. The `asm` argument of NewPartialCohort is
-- read only against nil, so it is a Boolean.
pub mod Viability
pub mod Budgets
pub mod Stored
pub mod Examples
use queuezero.Prelude.{
  ℕ, zero, suc, ◌*◌, String, Bool, true, false, ◌||◌, Option, none, some, List, [], ◌∷◌, ◌==◌,
  length, if◌then◌else◌, ltb, nat_beq, Result, ok, err,
}
use queuezero.Cohort.Entity.{
  EntityIntent, BuildError, empty_id, empty_rung, empty_chain_rung, no_members, min_viable_range,
  no_assembly_support, valid_rung, bad_rung,
}

pub record PhaseBudget : Type 0 where
  pub launch_acked : ℕ
  pub running : ℕ
  pub enrolled : ℕ
  pub cohort_barrier : ℕ
  pub cohort_assembly : ℕ

abbrev pub second : ℕ
second = 1_000_000_000

-- DefaultBudget
abbrev pub default_budget : PhaseBudget
default_budget = record {
  launch_acked = 15 * second;
  running = 5 * (60 * second);
  enrolled = 3 * (60 * second);
  cohort_barrier = 90 * second;
  cohort_assembly = 60 * second;
}

or_default : ℕ → ℕ → ℕ
or_default v d = if nat_beq v 0 then d else v

-- applyDefaultBudget
pub apply_default_budget : PhaseBudget → PhaseBudget
unfolding or_default
apply_default_budget b = record {
  launch_acked = or_default b.launch_acked default_budget.launch_acked;
  running = or_default b.running default_budget.running;
  enrolled = or_default b.enrolled default_budget.enrolled;
  cohort_barrier = or_default b.cohort_barrier default_budget.cohort_barrier;
  cohort_assembly = or_default b.cohort_assembly default_budget.cohort_assembly;
}

pub record Cohort : Type 0 where
  pub id : String
  pub members : List EntityIntent
  pub budget : PhaseBudget
  pub min_viable : ℕ
  pub no_assembly : Bool

-- validateIntent: `none` is the nil error.
pub validate_intent : EntityIntent → Option BuildError
validate_intent m =
    if m.id == ""
    then some empty_id
    else if valid_rung m.rung
    then (elim (bad_rung zero m.fallback_chain) [
      | some i ↦ some (empty_chain_rung i)
      | none ↦ none
    ])
    else some empty_rung

-- The loop over the members: the first error.
pub validate_members : List EntityIntent → Option BuildError
validate_members [] = none
validate_members (m ∷ ms) =
    let rest = validate_members ms in elim (validate_intent m) [ some e ↦ some e | none ↦ rest ]

-- NewSerialCohort
pub new_serial_cohort : String → EntityIntent → PhaseBudget → Result BuildError Cohort
new_serial_cohort id member budget = elim (validate_intent member) [
  | some e ↦ err e
  | none ↦ ok (record {
    id = id;
    members = member ∷ [];
    budget = apply_default_budget budget;
    min_viable = 1;
    no_assembly = false;
  })
]

-- NewMPICohort
pub new_mpi_cohort : String → List EntityIntent → PhaseBudget → Result BuildError Cohort
new_mpi_cohort id members budget =
    if nat_beq (length members) 0 then err no_members else (elim (validate_members members) [
      | some e ↦ err e
      | none ↦ ok (record {
        id = id;
        members = members;
        budget = apply_default_budget budget;
        min_viable = length members;
        no_assembly = false;
      })
    ])

-- NewPartialCohort
pub new_partial_cohort :
    String → List EntityIntent → PhaseBudget → ℕ → Bool → Result BuildError Cohort
new_partial_cohort id members budget min_viable asm =
    if nat_beq (length members) 0
    then err no_members
    else if nat_beq min_viable 0 || ltb (length members) min_viable
    then err min_viable_range
    else if asm
    then err no_assembly_support
    else (elim (validate_members members) [
      | some e ↦ err e
      | none ↦ ok (record {
        id = id;
        members = members;
        budget = apply_default_budget budget;
        min_viable = min_viable;
        no_assembly = true;
      })
    ])

-- Cohort.IsCollective
unfoldable pub is_collective : Cohort → Bool
is_collective c = ltb 1 (length c.members)
