-- ===== src/Slurm/Resume/Examples.antt =====
-- A fleet of two nodes, behind a gate that refuses.
use queuezero.Prelude.{
  ◌≡◌, refl, ℕ, Bool, true, false, none, some, List, [], ◌∷◌, inr, inl, ok, err,
}
use queuezero.Cohort.Build.{Cohort}
use queuezero.Cohort.Outcome.{Outcome}
use queuezero.Cohort.Entity.{Rung}
use queuezero.Spec.{Partition}
use queuezero.Spec.Examples.{two, two_is_valid, partition_of}
use queuezero.Slurm.Admission.{check_admission}
use queuezero.Slurm.Admission.Refusal.{Written, recorder}
use queuezero.Slurm.Shape.Examples.{n1_named, n2_named, as_is}
use queuezero.Slurm.Resume.{ResumeBridge, Plan, expand_failed, prepare, after_prepare, resume}
use queuezero.Slurm.Resume.Steps.{
  is_refused, with_other, resume_error_stops, refused_launches_nothing,
}
use queuezero.Slurm.Resume.Told.{IsFleet, Launches, resume-Launches}

abbrev nothing_up : Cohort → Bool → List Written → Outcome × List Written
nothing_up c asm w = (record { ready = true; records = []; drained = []; assembled = [] }, w)

abbrev all_up : Cohort → Bool → List Written → Outcome × List Written
all_up c asm w =
    (record { ready = true; records = []; drained = []; assembled = [] }, (c.id, "launched") ∷ w)

abbrev divided : ℕ → ℕ → ℕ
divided a b = a

abbrev desk : ResumeBridge (List Written)
desk = record {
  ports = record recorder { fail_mode = "strict" };
  gated = true;
  assembler = false;
  generation = "7";
  partitions = some two;
  default_partition = "";
  show_hostnames = λ hostlist w. (ok ("n1" ∷ "n2" ∷ []), w);
  put_hold = none;
  reconcile = nothing_up;
  map_order = λ m. m;
  sum_hex = as_is;
  divide = divided;
}

abbrev broken : ResumeBridge (List Written)
broken = record desk { show_hostnames = λ hostlist w. (err "no scontrol", w) }

broken_fails : (resume broken 5 "cpu" "n[1-2]" []).0 ≡ some (expand_failed "no scontrol")
unfolding resume prepare after_prepare
broken_fails = refl

resume_error_stops_example :
    (resume broken 5 "cpu" "n[1-2]" []).1 ≡ (broken.show_hostnames "n[1-2]" []).1
resume_error_stops_example =
    resume_error_stops broken 5 "cpu" "n[1-2]" [] (expand_failed "no scontrol") broken_fails

desk_refuses :
    (part : Partition) (rung : Rung) (count : ℕ) (v : List Written)
    → is_refused (check_admission desk.ports part rung count v).0 ≡ true
unfolding check_admission
desk_refuses part rung count v = refl

refused_launches_nothing_example :
    resume desk 5 "cpu" "n[1-2]" []
    ≡ resume (with_other desk all_up (some (λ h w. (none, w)))) 5 "cpu" "n[1-2]" []
refused_launches_nothing_example =
    refused_launches_nothing desk all_up (some (λ h w. (none, w))) 5 "cpu" "n[1-2]" [] refl
      desk_refuses

resume-Launches_example :
    (p : Plan) × IsFleet desk (partition_of "cpu" " Spot") ("n1" ∷ "n2" ∷ []) p
    × Launches desk p 5 [] (resume desk 5 (partition_of "cpu" " Spot").name "n[1-2]" [])
resume-Launches_example =
    resume-Launches desk two (partition_of "cpu" " Spot") 5 "n[1-2]" "n1" ("n2" ∷ []) [] []
      two_is_valid (0, refl) refl refl (n1_named, (n2_named, tt)) (inr (inl refl))
