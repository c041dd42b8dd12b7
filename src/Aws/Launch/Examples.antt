-- ===== src/Aws/Launch/Examples.antt =====
-- A launch with a bootstrap that is addressed by its content.
use queuezero.Prelude.{◌≡◌, refl, some, String, List, [], ◌∷◌, ◌++◌, Result, ok}
use queuezero.Cohort.Build.Examples.{intent_of}
use queuezero.Bootstrap.Shim.{ShimError}
use queuezero.Aws.Errors.{GoError}
use queuezero.Aws.Client.{RunRequest, Instance}
use queuezero.Aws.Launch.{ActuatorConfig, launch, sha256_from_key}
use queuezero.Aws.Launch.Digest.{IsDigest}
use queuezero.Aws.Launch.Keys.{script_uri, sha256_from_key-script_key}
use queuezero.Aws.Launch.Requests.{Launches, launch-Launches}

abbrev cfg : ActuatorConfig
cfg = record {
  cluster_name = "hpc";
  default_bootstrap_s3 =
      "s3://b/scripts/0123456789abcdef0123456789abcdef0123456789abcdef0123456789abcdef.tar.gz";
  region = "us-east-1";
  instance_profile_arn = "";
  mounts = [];
  controller_host = "10.0.0.9";
}

abbrev one_text : ShimError → String
one_text e = "shim"

-- A provider that keeps the requests.
abbrev keeps : RunRequest → List RunRequest → Result GoError Instance × List RunRequest
keeps req w = (
  ok (record {
    provider_id = "i-1";
    state = "pending";
    private_addr = "";
    instance_type = req.instance_type;
    avail_zone = req.avail_zone;
    generation = "7";
    entity = "n1";
    launch_time = 5;
  }),
  w ++ req ∷ [],
)

launch-Launches_example :
    Launches one_text cfg
      (intent_of "n1")
      keeps
      5
      []
      (launch one_text keeps cfg 5 (intent_of "n1") [])
launch-Launches_example = launch-Launches one_text cfg (intent_of "n1") keeps 5 []

abbrev digest : String
digest = "0123456789abcdef0123456789abcdef0123456789abcdef0123456789abcdef"

digest-IsDigest : IsDigest digest
digest-IsDigest = record { size = refl; hex = refl }

sha256_from_key-script_key_example :
    sha256_from_key (script_uri "b" digest digest-IsDigest) ≡ some digest
sha256_from_key-script_key_example = sha256_from_key-script_key "b" digest digest-IsDigest
