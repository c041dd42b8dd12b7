-- ===== src/Preflight/Examples.antt =====
-- A cluster whose second partition asks for a zone that is not there.
use queuezero.Prelude.{◌≡◌, refl, true, none, some, [], ◌∷◌, ok, Result}
use queuezero.Spec.Examples.{two}
use queuezero.Spec.Cluster.Examples.{hpc}
use queuezero.Preflight.{
  Checker, report_ok, run, on_zones, check_image, check_subnets, check_partitions, check_rungs,
  check_rung, check_quota,
}
use queuezero.Aws.Errors.{GoError}
use queuezero.Aws.Retry.{Attempted}
use queuezero.Aws.Client.Checks.{
  ask_once, instance_type_offered, image_exists, subnet_exists, availability_zones,
}
use queuezero.Preflight.Cloud.{Ec2Reads, client_checker, IsServed, passed-IsServed}
use queuezero.Preflight.Collects.{Reports, run-Reports}

abbrev offers_all : Checker
offers_all = record {
  instance_type_offered = λ t az. ok true;
  image_exists = λ ami. ok true;
  subnet_exists = λ sn. ok true;
  availability_zones = ok ("us-east-1b" ∷ []);
  quota = none;
}

two_checked : (run offers_all (some hpc) (some two)).1 ≡ none
unfolding run on_zones check_image check_subnets check_partitions check_rungs check_rung check_quota
two_checked = refl

run-Reports_example : Reports offers_all hpc (some two) (run offers_all (some hpc) (some two))
run-Reports_example = run-Reports offers_all hpc (some two) two_checked

abbrev replies : {A : Type 0} → Result GoError A → Attempted A
replies r = record { acquired = none; reply = r; ctx = none; draw = 0 }

-- All is there, in three zones.
abbrev full : Ec2Reads
full = record {
  offerings = λ t az. replies (ok (t ∷ []));
  images = λ ami. replies (ok (ami ∷ []));
  subnets = λ sn. replies (ok (sn ∷ []));
  zones = replies (ok (some "us-east-1a" ∷ some "us-east-1b" ∷ some "us-east-1c" ∷ []));
}

full_ends : (run (client_checker full) (some hpc) (some two)).1 ≡ none
unfolding run on_zones check_image check_subnets check_partitions check_rungs check_rung check_quota
    ask_once instance_type_offered image_exists subnet_exists availability_zones
full_ends = refl

full_passes : report_ok (run (client_checker full) (some hpc) (some two)).0 ≡ true
unfolding run on_zones check_image check_subnets check_partitions check_rungs check_rung check_quota
    ask_once instance_type_offered image_exists subnet_exists availability_zones report_ok
full_passes = refl

passed-IsServed_example : IsServed full hpc (some two)
passed-IsServed_example = passed-IsServed full hpc (some two) full_ends full_passes
