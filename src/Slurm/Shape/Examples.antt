-- ===== src/Slurm/Shape/Examples.antt =====
-- A collective resume of two nodes, and a refusal.
use queuezero.Prelude.{
  String, ◌≢◌, ◌==◌, eq_iff, arith, true, List, [], ◌∷◌, ◌++◌, ◌≡◌, ap, ok, All,
}
use queuezero.Cohort.Build.Examples.{duo, duo_is_built, no_budget, intent_of}
use queuezero.Cohort.Entity.{EntityIntent}
use queuezero.Slurm.Admission.{record_refusal, finish}
use queuezero.Slurm.Admission.Refusal.{recorder, downs, has_key, refused_nodes_down}
use queuezero.Slurm.Shape.{build_cohort, shaped}

abbrev pair : List EntityIntent
pair = intent_of "a" ∷ intent_of "b" ∷ []

duo_is_shaped : build_cohort true true "job" pair no_budget ≡ ok (duo, true)
unfolding build_cohort
duo_is_shaped = ap (shaped true) duo_is_built

refused_nodes_down_example :
    (finish recorder (record_refusal pair "job" 5 "no money") []
      ≡ [] ++ downs (record_refusal pair "job" 5 "no money").records)
    × All
        (λ (i : EntityIntent). has_key i.id (record_refusal pair "job" 5 "no money").records ≡ true)
        pair
refused_nodes_down_example = refused_nodes_down "job" 5 "no money" pair []

pub n1_named : ◌≢◌ {A = String} "n1" ""
n1_named e = let q : ("n1" == "") ≡ true = ground (arith, e, eq_iff "n1" "") in absurd cc

pub n2_named : ◌≢◌ {A = String} "n2" ""
n2_named e = let q : ("n2" == "") ≡ true = ground (arith, e, eq_iff "n2" "") in absurd cc

abbrev pub as_is : String → String
as_is s = s
