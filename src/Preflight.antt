-- ===== src/Preflight.antt =====
-- internal/preflight/preflight.go: the read-only checks before anything is provisioned. What a Checker
-- answers is a function of what it is asked; one that can also be asked about quotas has `quota`.
pub mod Cloud
pub mod Collects
pub mod Examples
use queuezero.Prelude.{
  ℕ, String, ◌<>◌, Bool, true, false, not, ◌&&◌, Option, none, some, List, [], ◌∷◌, ◌++◌, ◌==◌,
  if◌then◌else◌, Result, ok, err,
}
use queuezero.Spec.{SpecRung, Partition, mem_name}
use queuezero.Spec.Cluster.{Cluster}

pub record Checker : Type 0 where
  pub instance_type_offered : String → String → Result String Bool
  pub image_exists : String → Result String Bool
  pub subnet_exists : String → Result String Bool
  pub availability_zones : Result String (List String)
  pub quota : Option (String → String → String → Result String (Bool × String))

-- preflight.Result
pub record Verdict : Type 0 where
  pub check : String
  pub target : String
  pub passed : Bool
  pub detail : String

-- Report.OK
pub report_ok : List Verdict → Bool
report_ok [] = true
report_ok (v ∷ vs) = v.passed && report_ok vs

-- okText
abbrev ok_text : Bool → String → String → String
ok_text b good bad = if b then good else bad

-- A report with the error that ended the run, if one did.
abbrev pub Run : Type 0
Run = List Verdict × Option String

infixl 5 ◌and_then◌
abbrev pub ◌and_then◌ : Run → (List Verdict → Run) → Run
(vs, none) and_then f = f vs
(vs, some e) and_then f = (vs, some e)

-- The answer to one question, noted at the end of the report.
abbrev pub note : String → (Bool → Verdict) → Result String Bool → List Verdict → Run
note what verdict (ok b) vs = (vs ++ verdict b ∷ [], none)
note what verdict (err e) vs = (vs, some ("preflight: " <> (what <> (": " <> e))))

abbrev pub note_quota : String → String → Result String (Bool × String) → List Verdict → Run
note_quota name target (ok (b, detail)) vs = (
  vs
      ++ record {
        check = "service-quota";
        target = target;
        passed = b;
        detail = "partition " <> (name <> (": " <> detail));
      }
        ∷ [],
  none,
)
note_quota name target (err e) vs =
    (vs, some ("preflight: service quota " <> (target <> (": " <> e))))

abbrev image_verdict : String → Bool → Verdict
image_verdict ami b = record {
  check = "ami-exists";
  target = ami;
  passed = b;
  detail = ok_text b "controller AMI found" "controller AMI not found in region";
}

abbrev subnet_verdict : String → Bool → Verdict
subnet_verdict sn b = record {
  check = "subnet-exists";
  target = sn;
  passed = b;
  detail = ok_text b "subnet found" "subnet not found";
}

abbrev pub target_of : SpecRung → String
target_of r = r.instance_type <> ("@" <> r.avail_zone)

abbrev zone_verdict : String → String → SpecRung → Verdict
zone_verdict name region r = record {
  check = "az-valid";
  target = r.avail_zone;
  passed = false;
  detail = "partition " <> (name <> (": availability zone not in region " <> region));
}

abbrev offer_verdict : String → SpecRung → Bool → Verdict
offer_verdict name r b = record {
  check = "instance-type-offered";
  target = target_of r;
  passed = b;
  detail = "partition " <> (name <> ok_text b ": offered" ": instance type not offered in this AZ");
}

abbrev pub or_nothing : Option (List Partition) → List Partition
or_nothing none = []
or_nothing (some ps) = ps

module _ (c : Checker) where
  check_image : String → List Verdict → Run
  check_image ami vs =
      if ami == ""
      then (vs, none)
      else note ("describe image " <> ami) (image_verdict ami) (c.image_exists ami) vs

  check_subnets : List String → List Verdict → Run
  check_subnets [] vs = (vs, none)
  check_subnets (sn ∷ sns) vs =
      note ("describe subnet " <> sn) (subnet_verdict sn) (c.subnet_exists sn) vs
      and_then check_subnets sns

  check_quota :
      Option (String → String → String → Result String (Bool × String))
      → String
      → SpecRung
      → List Verdict
      → Run
  check_quota none name r vs = (vs, none)
  check_quota (some quota) name r vs =
      note_quota name (target_of r) (quota r.instance_type r.avail_zone r.capacity_model) vs

  check_rung : String → List String → String → SpecRung → List Verdict → Run
  unfolding check_quota
  check_rung region zones name r vs =
      if mem_name r.avail_zone zones
      then note ("instance-type offerings " <> target_of r) (offer_verdict name r)
          (c.instance_type_offered r.instance_type r.avail_zone) vs
        and_then check_quota c.quota name r
      else (vs ++ zone_verdict name region r ∷ [], none)

  check_rungs : String → List String → String → List SpecRung → List Verdict → Run
  unfolding check_rung
  check_rungs region zones name [] vs = (vs, none)
  check_rungs region zones name (r ∷ rs) vs =
      check_rung region zones name r vs and_then check_rungs region zones name rs

  check_partitions : String → List String → List Partition → List Verdict → Run
  unfolding check_rungs
  check_partitions region zones [] vs = (vs, none)
  check_partitions region zones (p ∷ ps) vs =
      check_rungs region zones p.name p.fallback_chain vs and_then check_partitions region zones ps

  on_zones : Cluster → Option (List Partition) → Result String (List String) → Run
  unfolding check_image check_subnets check_partitions
  on_zones cl parts (err e) =
      ([], some ("preflight: list availability zones (region " <> (cl.region <> ("): " <> e))))
  on_zones cl parts (ok zones) =
      check_image cl.controller.ami_hash []
      and_then (λ vs. if cl.network.byo then check_subnets cl.network.subnet_ids vs else (vs, none))
      and_then check_partitions cl.region zones (or_nothing parts)

  -- Run
  pub run : Option Cluster → Option (List Partition) → Run
  unfolding on_zones
  run none parts = ([], some "preflight: nil cluster")
  run (some cl) parts = on_zones cl parts c.availability_zones
