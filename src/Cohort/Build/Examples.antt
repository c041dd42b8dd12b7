-- ===== src/Cohort/Build/Examples.antt =====
-- Cohorts to run the theorems on: the members `a` and `b`, each with a chain of two rungs.
use queuezero.Prelude.{◌≡◌, refl, String, false, [], ◌∷◌, ok, arith}
use queuezero.Cohort.Entity.{Rung, EntityIntent, on_demand}
use queuezero.Cohort.Build.{
  PhaseBudget, Cohort, default_budget, apply_default_budget, new_mpi_cohort, validate_members,
  validate_intent,
}
use queuezero.Cohort.Build.Budgets.{apply_default_budget-keep}
use queuezero.Cohort.Build.Viability.{IsViable, mpi, Built-IsViable}

abbrev pub rung_of : String → Rung
rung_of kind = record {
  instance_type = kind;
  avail_zone = "us-east-1a";
  capacity_model = on_demand;
  account_id = "";
  warm_start = false;
}

abbrev pub intent_of : String → EntityIntent
intent_of id = record {
  id = id;
  generation = "7";
  cohort = "job";
  rung = rung_of "c5.large";
  fallback_chain = rung_of "c5.large" ∷ rung_of "m5.large" ∷ [];
  idempotency_token = "q0-";
}

abbrev pub no_budget : PhaseBudget
no_budget = record {
  launch_acked = 0;
  running = 0;
  enrolled = 0;
  cohort_barrier = 0;
  cohort_assembly = 0;
}

abbrev pub duo : Cohort
duo = record {
  id = "job";
  members = intent_of "a" ∷ intent_of "b" ∷ [];
  budget = apply_default_budget no_budget;
  min_viable = 2;
  no_assembly = false;
}

pub duo_is_built : new_mpi_cohort "job" (intent_of "a" ∷ intent_of "b" ∷ []) no_budget ≡ ok duo
unfolding new_mpi_cohort validate_members validate_intent queuezero.Cohort.Entity.valid_rung
    queuezero.Cohort.Entity.bad_rung
duo_is_built = refl

pub duo-IsViable : IsViable duo
duo-IsViable =
    (Built-IsViable duo (mpi "job" (intent_of "a" ∷ intent_of "b" ∷ []) no_budget duo_is_built)).0

apply_default_budget-keep_example : apply_default_budget default_budget ≡ default_budget
apply_default_budget-keep_example = apply_default_budget-keep default_budget (record {
  launch_acked = omega arith;
  running = omega arith;
  enrolled = omega arith;
  cohort_barrier = omega arith;
  cohort_assembly = omega arith;
})
