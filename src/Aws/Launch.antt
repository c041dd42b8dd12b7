-- ===== src/Aws/Launch.antt =====
-- internal/substrate/aws/actuator.go: Launch, with baseTags and sha256FromKey. The map of the tags is the
-- list of its entries; it is shared with the request, so the tag of the bootstrap, set later, is in it.
-- The error of Shim is its text.
pub mod Digest
pub mod Keys
pub mod Requests
pub mod Examples
use queuezero.Prelude.{
  ℕ, ◌-◌, String, ◌<>◌, Bool, true, false, not, ◌||◌, ◌&&◌, Option, none, some, List, [], ◌∷◌, ◌++◌,
  ◌==◌, if◌then◌else◌, leb, nat_beq, length, Result, ok, err,
}
use Prim.Native.Char.{code}
use queuezero.Prelude.Texts.{codes, codes_eq}
use queuezero.Cohort.Entity.{CapacityModel, on_demand, spot, reserved, EntityIntent, Observation}
use queuezero.Bootstrap.{Mount}
use queuezero.Bootstrap.Shim.{Params, ShimError, shim}
use queuezero.Aws.Errors.{GoError}
use queuezero.Aws.Client.{RunRequest, Instance, tag_entity, tag_generation}
use queuezero.Aws.Actuator.{tag_cluster, lifecycle_from_ec2_state, translate_fault_err}

pub record ActuatorConfig : Type 0 where
  pub cluster_name : String
  pub default_bootstrap_s3 : String
  pub region : String
  pub instance_profile_arn : String
  pub mounts : List Mount
  pub controller_host : String

-- What stands behind the last slash.
abbrev or_behind : Bool → String → Option String → Option String
or_behind slash rest (some base) = some base
or_behind true rest none = some rest
or_behind false rest none = none

abbrev pub after_slash : String → Option String
after_slash String.[] = none
after_slash (String.◌∷◌ c s) = or_behind (nat_beq (code c) 47) s (after_slash s)

abbrev or_whole : String → Option String → String
or_whole s none = s
or_whole s (some base) = base

-- strings.TrimSuffix
abbrev pub trim_suffix : String → String → String
trim_suffix suffix String.[] = ""
trim_suffix suffix (String.◌∷◌ c s) =
    let kept = String.◌∷◌ c (trim_suffix suffix s) in if String.◌∷◌ c s == suffix then "" else kept

-- isHex
abbrev pub is_hex_digit : ℕ → Bool
is_hex_digit c = (leb 48 c && leb c 57) || (leb 97 c && leb c 102)

abbrev pub is_hex : List ℕ → Bool
is_hex [] = true
is_hex (c ∷ cs) = is_hex_digit c && is_hex cs

-- The name behind the last slash, without its extensions.
pub base_name : String → String
base_name uri =
    trim_suffix ".tgz" (trim_suffix ".tar" (trim_suffix ".gz" (or_whole uri (after_slash uri))))

-- sha256FromKey: none where the name is no digest.
pub sha256_from_key : String → Option String
unfolding base_name
sha256_from_key uri =
    let base = base_name uri in
    if not (nat_beq (length (codes base)) 64) || not (is_hex (codes base)) then none else some base

abbrev pub tag_cohort : String
tag_cohort = "q0:cohort"

abbrev pub tag_bootstrap_s3 : String
tag_bootstrap_s3 = "q0:bootstrap-s3"

-- Actuator.baseTags
pub base_tags : String → EntityIntent → List (String × String)
base_tags cluster i =
    ("Name", cluster <> ("-" <> i.id))
    ∷ (tag_cluster, cluster)
    ∷ (tag_entity, i.id)
    ∷ (tag_generation, i.generation)
    ∷ (tag_cohort, i.cohort)
    ∷ []

abbrev is_spot : CapacityModel → Bool
is_spot spot = true
is_spot reserved = false
is_spot on_demand = false

-- The request, with its tags and its userdata.
pub request_for : ActuatorConfig → EntityIntent → List (String × String) → String → RunRequest
request_for cfg i tags user_data = record {
  instance_type = i.rung.instance_type;
  avail_zone = i.rung.avail_zone;
  subnet_id = "";
  security_group_ids = [];
  ami = i.rung.instance_type;
  spot = is_spot i.rung.capacity_model;
  idempotency_token = i.idempotency_token;
  tags = tags;
  iam_instance_arn = cfg.instance_profile_arn;
  efa = false;
  placement_group = "";
  user_data = user_data;
}

-- What is wrong with the bootstrap of an entity.
abbrev unverifiable : String → GoError
unverifiable id =
    GoError.wrapped ("entity " <> id) (GoError.plain "bootstrap URI is not content-addressed")

abbrev unrendered : (ShimError → String) → String → ShimError → GoError
unrendered text id e = GoError.wrapped ("entity " <> id) (GoError.plain (text e))

abbrev pub params_of : ActuatorConfig → String → Params
params_of cfg sha = record {
  s3_uri = cfg.default_bootstrap_s3;
  sha256 = sha;
  region = cfg.region;
  log_path = "";
  mounts = cfg.mounts;
  controller_host = cfg.controller_host;
}

module _ (text : ShimError → String) (cfg : ActuatorConfig) (i : EntityIntent) where
  abbrev with_shim : Result ShimError String → Result GoError RunRequest
  with_shim (err e) = err (unrendered text i.id e)
  with_shim (ok s) = ok (
      request_for cfg i
        (base_tags cfg.cluster_name i ++ (tag_bootstrap_s3, cfg.default_bootstrap_s3) ∷ []) s)

  abbrev with_digest : Option String → Result GoError RunRequest
  with_digest none = err (unverifiable i.id)
  with_digest (some sha) = with_shim (shim (params_of cfg sha))

  -- What Launch asks for, or why it does not.
  pub launch_request : Result GoError RunRequest
  unfolding request_for
  launch_request =
      if cfg.default_bootstrap_s3 == ""
      then ok (request_for cfg i (base_tags cfg.cluster_name i) "")
      else with_digest (sha256_from_key cfg.default_bootstrap_s3)

-- observationFromInstance
pub observation_from_instance : ℕ → EntityIntent → Instance → Observation
observation_from_instance now i inst = record {
  id = i.id;
  generation = i.generation;
  state = lifecycle_from_ec2_state inst.state;
  provider_id = inst.provider_id;
  rung = i.rung;
  address = inst.private_addr;
  observed_at = now;
}

abbrev launched : ℕ → EntityIntent → Result GoError Instance → Result GoError Observation
launched now i (ok inst) = ok (observation_from_instance now i inst)
launched now i (err e) = err (translate_fault_err e i.id)

abbrev pub on_request :
    {W : Type 0}
    → (RunRequest → W → Result GoError Instance × W)
    → ℕ
    → EntityIntent
    → Result GoError RunRequest
    → W
    → Result GoError Observation × W
on_request run_instance now i (err e) w = (err e, w)
on_request run_instance now i (ok req) w =
    let (r, w') = run_instance req w in (launched now i r, w')

-- Actuator.Launch
pub launch :
    {W : Type 0}
    → (ShimError → String)
    → (RunRequest → W → Result GoError Instance × W)
    → ActuatorConfig
    → ℕ
    → EntityIntent
    → W
    → Result GoError Observation × W
unfolding launch_request observation_from_instance
launch text run_instance cfg now i w = on_request run_instance now i (launch_request text cfg i) w
