-- ===== src/Tofu/Backend.antt =====
-- internal/tofu/backend.go: EnsureBackend, over the calls of S3 and DynamoDB that it makes. An error of a
-- read is the one for what is not there, or another. The billing and the key of the table are left out.
pub mod Ensured
pub mod Idempotent
pub mod Examples
use queuezero.Prelude.{
  String, ◌<>◌, Bool, true, false, ◌||◌, Option, none, some, List, [], ◌∷◌, ◌==◌, if◌then◌else◌,
}

pub record BackendConfig : Type 0 where
  pub bucket : String
  pub lock_table : String
  pub region : String
  pub key : String

pub data ReadError : Type 0 where
  not_found : ReadError
  failed : String → ReadError

-- s3BackendAPI and ddbBackendAPI; none is no error. A bucket is created with a location or without.
pub record BackendApi (W : Type 0) : Type 0 where
  pub head_bucket : String → W → Option ReadError × W
  pub create_bucket : String → Option String → W → Option String × W
  pub describe_table : String → W → Option ReadError × W
  pub create_table : String → W → Option String × W

pub data BackendError : Type 0 where
  incomplete : BackendError
  head_failed create_bucket_failed describe_failed create_table_failed : String → BackendError

-- BackendConfig.initArgs
pub init_args : BackendConfig → List String
init_args b =
    ("bucket=" <> b.bucket)
    ∷ ("key=" <> b.key)
    ∷ ("region=" <> b.region)
    ∷ ("dynamodb_table=" <> b.lock_table)
    ∷ []

abbrev pub location_of : String → Option String
location_of region = if region == "us-east-1" then none else some region

abbrev pub created :
    {W : Type 0} → (String → BackendError) → Option String × W → Option BackendError × W
created wrap (none, w) = (none, w)
created wrap (some e, w) = (some (wrap e), w)

-- What both do with the error of the read: create only what is not there.
abbrev pub ensured :
    {W : Type 0}
    → (String → BackendError)
    → (W → Option BackendError × W)
    → Option ReadError × W
    → Option BackendError × W
ensured wrap create (none, w) = (none, w)
ensured wrap create (some (failed e), w) = (some (wrap e), w)
ensured wrap create (some not_found, w) = create w

module _ {W : Type 0} (api : BackendApi W) where
  -- ensureBucket
  pub ensure_bucket : String → String → W → Option BackendError × W
  ensure_bucket bucket region w =
      ensured head_failed
        (λ v. created create_bucket_failed (api.create_bucket bucket (location_of region) v))
        (api.head_bucket bucket w)

  -- ensureLockTable
  pub ensure_lock_table : String → W → Option BackendError × W
  ensure_lock_table table w =
      ensured describe_failed (λ v. created create_table_failed (api.create_table table v))
        (api.describe_table table w)

  pub after_bucket : BackendConfig → Option BackendError × W → Option BackendError × W
  unfolding ensure_lock_table
  after_bucket cfg (some e, w) = (some e, w)
  after_bucket cfg (none, w) = ensure_lock_table cfg.lock_table w

  -- EnsureBackend
  pub ensure_backend : BackendConfig → W → Option BackendError × W
  unfolding ensure_bucket after_bucket
  ensure_backend cfg w =
      if (cfg.bucket == "") || ((cfg.lock_table == "") || (cfg.region == ""))
      then (some incomplete, w)
      else after_bucket cfg (ensure_bucket cfg.bucket cfg.region w)
