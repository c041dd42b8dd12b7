-- ===== src/Cohort/Build/Stored.antt =====
-- What each constructor of cohort.go stores of its arguments.
use queuezero.Prelude.{ℕ, String, ◌≡◌, Bool, true, false, List, [], ◌∷◌, arith, length, ok}
use queuezero.Cohort.Entity.{EntityIntent}
use queuezero.Cohort.Build.{
  PhaseBudget, Cohort, new_serial_cohort, new_mpi_cohort, new_partial_cohort,
}

abbrev pub Stores : List EntityIntent → ℕ → Bool → Cohort → Type 0
Stores is k na c = (c.members ≡ is) × (c.min_viable ≡ k) × (c.no_assembly ≡ na)

pub new_serial_cohort-Stores :
    (id : String) (i : EntityIntent) (b : PhaseBudget) (c : Cohort)
    → new_serial_cohort id i b ≡ ok c
    → Stores (i ∷ []) 1 false c
unfolding new_serial_cohort
new_serial_cohort-Stores id i b c h = (ground arith, ground arith, ground arith)

pub new_mpi_cohort-Stores :
    (id : String) (is : List EntityIntent) (b : PhaseBudget) (c : Cohort)
    → new_mpi_cohort id is b ≡ ok c
    → Stores is (length is) false c
unfolding new_mpi_cohort
new_mpi_cohort-Stores id is b c h = (ground arith, ground arith, ground arith)

pub new_partial_cohort-Stores :
    (id : String) (is : List EntityIntent) (b : PhaseBudget) (k : ℕ) (asm : Bool) (c : Cohort)
    → new_partial_cohort id is b k asm ≡ ok c
    → Stores is k true c
unfolding new_partial_cohort
new_partial_cohort-Stores id is b k asm c h = (ground arith, ground arith, ground arith)
