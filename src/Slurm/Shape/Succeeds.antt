-- ===== src/Slurm/Shape/Succeeds.antt =====
-- When resume gets a cohort.
use queuezero.Prelude.{
  ◌≡◌, ◌≢◌, ◌⊎◌, refl, ap, length, String, Bool, true, false, List, [], ◌∷◌, map, arith, ok, All,
}
use queuezero.Cohort.Entity.{Rung, EntityIntent}
use queuezero.Cohort.Entity.Accepted.{intent_for}
use queuezero.Cohort.Build.{PhaseBudget, Cohort}
use queuezero.Cohort.Build.Viability.{
  IsRung, IsIntent, new_partial_cohort_iff, new_serial_cohort_complete, new_mpi_cohort_complete,
}
use queuezero.Slurm.Shape.{build_cohort, shaped}

-- The intents that resume builds for named nodes are ones that the cohort's constructors accept.
pub intents-All :
    (sum_hex : String → String) (cluster gen cohort_id : String) (first : Rung) (chain : List Rung)
    → IsRung first
    → All IsRung chain
    → (nodes : List String) → All (λ n. n ≢ "") nodes
    → All IsIntent (map (intent_for sum_hex cluster gen cohort_id first chain) nodes)
intents-All sum_hex cluster gen cohort_id first chain r c [] h = tt
intents-All sum_hex cluster gen cohort_id first chain r c (n ∷ ns) h = (
  record { named = h.0; rung = r; chain = c },
  intents-All sum_hex cluster gen cohort_id first chain r c ns h.1,
)

abbrev pub GetsCohort : Bool → Bool → String → List EntityIntent → PhaseBudget → Type 0
GetsCohort collective asm id is b =
    (c : Cohort) × (x : Bool) × (build_cohort collective asm id is b ≡ ok (c, x))

-- For intents that can be launched buildCohort succeeds, unless there are several nodes of a collective
-- partition and no Assembler.
pub build_cohort_complete :
    (collective asm : Bool) (id : String) (i : EntityIntent) (is : List EntityIntent)
    (b : PhaseBudget)
    → All IsIntent (i ∷ is)
    → (is ≡ []) ⊎ (collective ≡ false) ⊎ (asm ≡ true)
    → GetsCohort collective asm id (i ∷ is) b
unfolding build_cohort
build_cohort_complete collective asm id i [] b h k =
    let (c, e) = new_serial_cohort_complete id i b h.0 in (c, false, ap (shaped false) e)
build_cohort_complete false asm id i (j ∷ is) b h k =
    let (c, e) =
      (new_partial_cohort_iff id (i ∷ j ∷ is) b (length (i ∷ j ∷ is)) false).1
        (omega arith, omega arith, refl, h) in
    (c, false, ap (shaped false) e)
build_cohort_complete true true id i (j ∷ is) b h k =
    let (c, e) = new_mpi_cohort_complete id (i ∷ j ∷ is) b (omega arith) h in
    (c, true, ap (shaped true) e)
build_cohort_complete true false id i (j ∷ is) b h k = absurd (ground arith)
