-- ===== src/Cohort/Build/Budgets.antt =====
-- The budget that a constructor stores.
use queuezero.Prelude.{ℕ, ◌<◌, ◌≡◌, arith}
use queuezero.Cohort.Build.{PhaseBudget, or_default, apply_default_budget}

-- No phase has its deadline at the moment it starts.
pub record HasBudget (b : PhaseBudget) : Type 0 where
  pub launch_acked : 0 < b.launch_acked
  pub running : 0 < b.running
  pub enrolled : 0 < b.enrolled
  pub cohort_barrier : 0 < b.cohort_barrier
  pub cohort_assembly : 0 < b.cohort_assembly

or_default-pos : (v d : ℕ) → 0 < d → 0 < or_default v d
unfolding or_default
or_default-pos v d h = ground arith

pub apply_default_budget-HasBudget : (b : PhaseBudget) → HasBudget (apply_default_budget b)
unfolding apply_default_budget
apply_default_budget-HasBudget b = record {
  launch_acked = ground arith;
  running = ground arith;
  enrolled = ground arith;
  cohort_barrier = ground arith;
  cohort_assembly = ground arith;
}

or_default-keep : (v d : ℕ) → 0 < v → or_default v d ≡ v
unfolding or_default
or_default-keep v d h = ground arith

-- Explicit fields are kept, so a second pass changes nothing.
pub apply_default_budget-keep : (b : PhaseBudget) → HasBudget b → apply_default_budget b ≡ b
unfolding apply_default_budget
apply_default_budget-keep b h = ground arith
