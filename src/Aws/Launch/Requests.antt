-- ===== src/Aws/Launch/Requests.antt =====
-- What Launch asks EC2 for.
use queuezero.Prelude.{
  ℕ, ◌≡◌, ◌≢◌, ◌⊎◌, inl, inr, refl, String, Option, some, none, List, [], ◌∷◌, arith, Bool-cases,
  if◌then◌else◌, ◌==◌, eq_iff, Result, ok, err, ◌<◌,
}
use Prim.Native.String.{len}
use queuezero.Cohort.Entity.{EntityIntent, Observation}
use queuezero.Bootstrap.Shim.{
  ShimError, shim, render, max_user_data_bytes, IsShim, shim-IsShim, shim-fails,
}
use queuezero.Aws.Errors.{GoError}
use queuezero.Aws.Client.{RunRequest, Instance, tag_entity, tag_generation}
use queuezero.Aws.Actuator.{tag_cluster}
use queuezero.Aws.Launch.{
  ActuatorConfig, base_name, sha256_from_key, base_tags, tag_cohort, tag_bootstrap_s3, request_for,
  params_of, with_shim, with_digest, launch_request, launched, on_request, launch, is_spot,
}
use queuezero.Aws.Launch.Digest.{
  IsDigest, sha256_from_key-IsDigest, sha256_from_key-none, IsDigest-filled,
}

abbrev pub value_of : String → List (String × String) → Option String
value_of k [] = none
value_of k ((j, v) ∷ rest) = if j == k then some v else value_of k rest

-- The userdata of a node with a bootstrap: a shim that fetches the URI and checks the digest in its name.
pub record IsVerified (cfg : ActuatorConfig) (req : RunRequest) : Type 0 where
  pub digest : String
  pub in_uri : sha256_from_key cfg.default_bootstrap_s3 ≡ some digest
  pub whole : IsDigest digest
  pub named : digest ≡ base_name cfg.default_bootstrap_s3
  pub userdata : IsShim (params_of cfg digest) req.user_data
  pub shown : value_of tag_bootstrap_s3 req.tags ≡ some cfg.default_bootstrap_s3

-- A request for this one entity, under its token, on its rung.
pub record IsRequest (cfg : ActuatorConfig) (i : EntityIntent) (req : RunRequest) : Type 0 where
  pub token : req.idempotency_token ≡ i.idempotency_token
  pub instance_type : req.instance_type ≡ i.rung.instance_type
  pub zone : req.avail_zone ≡ i.rung.avail_zone
  pub on_spot : req.spot ≡ is_spot i.rung.capacity_model
  pub cluster : value_of tag_cluster req.tags ≡ some cfg.cluster_name
  pub entity : value_of tag_entity req.tags ≡ some i.id
  pub generation : value_of tag_generation req.tags ≡ some i.generation
  pub cohort : value_of tag_cohort req.tags ≡ some i.cohort
  pub bootstrap : ((cfg.default_bootstrap_s3 ≡ "") × (req.user_data ≡ "")) ⊎ IsVerified cfg req

-- Why there is no shim: the name of the URI is no digest, there is no region, or the script would be too long.
pub data CannotFetch (cfg : ActuatorConfig) : Type 0 where
  unpinned : ¬ IsDigest (base_name cfg.default_bootstrap_s3) → CannotFetch cfg
  no_region : cfg.region ≡ "" → CannotFetch cfg
  too_long :
      (digest : String)
      → sha256_from_key cfg.default_bootstrap_s3 ≡ some digest
      → max_user_data_bytes < len (render (params_of cfg digest))
      → CannotFetch cfg

-- A bootstrap that cannot be delivered.
abbrev pub IsClosed : ActuatorConfig → Type 0
IsClosed cfg = (cfg.default_bootstrap_s3 ≢ "") × CannotFetch cfg

abbrev Asks : ActuatorConfig → EntityIntent → Result GoError RunRequest → Type 0
Asks cfg i (err e) = IsClosed cfg
Asks cfg i (ok req) = IsRequest cfg i req

module _ (text : ShimError → String) (cfg : ActuatorConfig) (i : EntityIntent) where
  bare-IsRequest :
      cfg.default_bootstrap_s3 ≡ ""
      → IsRequest cfg i (request_for cfg i (base_tags cfg.cluster_name i) "")
  unfolding request_for base_tags
  bare-IsRequest h = record {
    token = refl;
    instance_type = refl;
    zone = refl;
    on_spot = refl;
    cluster = refl;
    entity = refl;
    generation = refl;
    cohort = refl;
    bootstrap = inl (h, refl);
  }

  with_shim-Asks :
      (sha : String) (r : Result ShimError String)
      → cfg.default_bootstrap_s3 ≢ ""
      → sha256_from_key cfg.default_bootstrap_s3 ≡ some sha
      → shim (params_of cfg sha) ≡ r
      → Asks cfg i (with_shim text cfg i r)
  unfolding request_for base_tags
  with_shim-Asks sha (err e) n q s =
      let digest = sha256_from_key-IsDigest cfg.default_bootstrap_s3 sha q in
      (n, why_not (shim-fails (params_of cfg sha) e n (IsDigest-filled sha digest.0) s))
    where
      why_not :
          (cfg.region ≡ "") ⊎ max_user_data_bytes < len (render (params_of cfg sha))
          → CannotFetch cfg
      why_not (inl h) = no_region h
      why_not (inr h) = too_long sha q h
  with_shim-Asks sha (ok u) n q s = record {
    token = refl;
    instance_type = refl;
    zone = refl;
    on_spot = refl;
    cluster = refl;
    entity = refl;
    generation = refl;
    cohort = refl;
    bootstrap = inr (record {
      digest = sha;
      in_uri = q;
      whole = (sha256_from_key-IsDigest cfg.default_bootstrap_s3 sha q).0;
      named = (sha256_from_key-IsDigest cfg.default_bootstrap_s3 sha q).1;
      userdata = shim-IsShim (params_of cfg sha) u s;
      shown = refl;
    });
  }

  with_digest-Asks :
      (o : Option String)
      → cfg.default_bootstrap_s3 ≢ ""
      → sha256_from_key cfg.default_bootstrap_s3 ≡ o
      → Asks cfg i (with_digest text cfg i o)
  with_digest-Asks none n q = (n, unpinned (sha256_from_key-none cfg.default_bootstrap_s3 q))
  with_digest-Asks (some sha) n q = with_shim-Asks sha (shim (params_of cfg sha)) n q refl

  launch_request-Asks : Asks cfg i (launch_request text cfg i)
  unfolding launch_request
  launch_request-Asks = elim (Bool-cases (cfg.default_bootstrap_s3 == "")) [
    | inl e ↦ rw e (bare-IsRequest ((eq_iff cfg.default_bootstrap_s3 "").0 e))
    | inr e ↦ rw e (
        with_digest-Asks (sha256_from_key cfg.default_bootstrap_s3)
          (ground (arith, eq_iff cfg.default_bootstrap_s3 "")) refl)
  ]

  module _ {W : Type 0} (run_instance : RunRequest → W → Result GoError Instance × W) (now : ℕ)
      (w : W) where
    -- Launch fails with nothing asked, or it asks once.
    pub data Launches : Result GoError Observation × W → Type 0 where
      closed : (e : GoError) → IsClosed cfg → Launches (err e, w)
      asked :
          (req : RunRequest)
          → IsRequest cfg i req
          → Launches (launched now i (run_instance req w).0, (run_instance req w).1)

    asks-Launches :
        (r : Result GoError RunRequest)
        → Asks cfg i r
        → Launches (on_request run_instance now i r w)
    asks-Launches (err e) h = closed e h
    asks-Launches (ok req) h = asked req h

    -- Launch makes at most one request, and its answer is the answer to that: for the one entity, under its
    -- token, with its tags, on its rung; with no userdata where no bootstrap is configured, and else with a
    -- script, within the size that EC2 takes, that stops at the first error, fetches the URI, compares what it
    -- got with the digest of 64 hexadecimal digits in the URI before it unpacks it, and ends in the entrypoint.
    -- It fails with nothing asked only where a bootstrap is configured, and its name is no digest, no region is
    -- configured, or the script would be longer.
    pub launch-Launches : Launches (launch text run_instance cfg now i w)
    unfolding launch
    launch-Launches = asks-Launches (launch_request text cfg i) launch_request-Asks
