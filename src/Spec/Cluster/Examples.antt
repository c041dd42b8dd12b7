-- ===== src/Spec/Cluster/Examples.antt =====
-- A cluster with shared storage and a controller.
use queuezero.Prelude.{
  pos, ◌≡◌, ◌≢◌, refl, ap, String, Bool, true, false, none, [], ◌∷◌, length, arith,
}
use queuezero.Prelude.Texts.{codes}
use queuezero.Spec.Cluster.{
  Cluster, segments, under_mount, clean, validate_cluster, validate_network, validate_storage,
  validate_mount, validate_fsx_lustre, validate_controller, validate_state_dir,
}
use queuezero.Spec.Cluster.Paths.{starts_path, under_mount-eq}
use queuezero.Spec.Cluster.Coherent.{IsCoherent, validate_cluster-IsCoherent}

abbrev pub any_cidr : String → Bool
any_cidr s = true

abbrev pub hpc : Cluster
hpc = record {
  name = "hpc";
  control_account = "111";
  region = "us-east-1";
  network = record { byo = false; vpc_id = ""; subnet_ids = []; cidr = "10.0.0.0/16"; egress = "" };
  controller = record {
    instance_type = "c5.large";
    standby_host = "";
    state_dir = "/shared/state";
    accounting_db = "";
    ami_hash = "ami-1";
  };
  storage =
      record {
        kind = "fsx-lustre";
        mount_path = "/shared";
        s3_linkage = "";
        capacity_gib = pos 2400;
        deployment_type = "";
      }
      ∷ [];
}

pub hpc_is_valid : validate_cluster any_cidr hpc ≡ none
unfolding validate_cluster validate_network validate_storage validate_mount validate_fsx_lustre
    validate_controller validate_state_dir under_mount clean segments
hpc_is_valid = refl

validate_cluster-IsCoherent_example : IsCoherent any_cidr hpc
validate_cluster-IsCoherent_example = validate_cluster-IsCoherent any_cidr hpc hpc_is_valid

shared_has_segments : segments (codes "/shared") ≢ []
unfolding segments
shared_has_segments e =
    let q : length (segments (codes "/shared")) ≡ 0 = ap length e in absurd (omega (arith, q))

under_mount-eq_example :
    under_mount (codes "/shared-x") (codes "/shared")
    ≡ starts_path (segments (codes "/shared")) (segments (codes "/shared-x"))
under_mount-eq_example =
    under_mount-eq (codes "/shared-x") (codes "/shared") refl refl shared_has_segments
