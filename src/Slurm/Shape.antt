-- ===== src/Slurm/Shape.antt =====
-- internal/slurm/resume.go: the loop that builds the intents, and buildCohort. An Assembler is a
-- Boolean, whether there is one.
pub mod Chosen
pub mod Buildable
pub mod Succeeds
pub mod Examples
use queuezero.Prelude.{
  ℕ, String, Bool, true, false, Option, none, some, List, [], ◌∷◌, if◌then◌else◌, Result, ok, err,
  length,
}
use queuezero.Cohort.Entity.{Rung, EntityIntent, BuildError, new_entity_intent}
use queuezero.Cohort.Build.{
  PhaseBudget, Cohort, new_serial_cohort, new_mpi_cohort, new_partial_cohort,
}

pub data ShapeError : Type 0 where
  no_assembler : ShapeError
  build : BuildError → ShapeError

abbrev pub shaped : Bool → Result BuildError Cohort → Result ShapeError (Cohort × Bool)
shaped asm (ok c) = ok (c, asm)
shaped asm (err e) = err (build e)

-- More than one intent.
abbrev of_many :
    Bool → Bool → String → List EntityIntent → PhaseBudget → Result ShapeError (Cohort × Bool)
of_many true false id is b = err no_assembler
of_many true true id is b = shaped true (new_mpi_cohort id is b)
of_many false asm id is b = shaped false (new_partial_cohort id is b (length is) false)

-- Bridge.buildCohort, from the collective flag of the partition and the Assembler of the Bridge: the
-- cohort, and whether it is reconciled with the Assembler.
pub build_cohort :
    Bool → Bool → String → List EntityIntent → PhaseBudget → Result ShapeError (Cohort × Bool)
build_cohort collective asm id (i ∷ []) b = shaped false (new_serial_cohort id i b)
build_cohort collective asm id is b = of_many collective asm id is b

abbrev push :
    EntityIntent → Result BuildError (List EntityIntent) → Result BuildError (List EntityIntent)
push i (ok is) = ok (i ∷ is)
push i (err e) = err e

-- The loop over the nodes: the first error ends it.
pub intents_of :
    (String → String)
    → String
    → String
    → String
    → Rung
    → List Rung
    → List String
    → Result BuildError (List EntityIntent)
intents_of sum_hex cluster gen cohort_id first chain [] = ok []
intents_of sum_hex cluster gen cohort_id first chain (n ∷ ns) =
    let rest = intents_of sum_hex cluster gen cohort_id first chain ns in
    elim (new_entity_intent sum_hex cluster n gen cohort_id first chain "") [
      | ok i ↦ push i rest
      | err e ↦ err e
    ]
