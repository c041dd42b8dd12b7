-- ===== src/Cohort/Entity.antt =====
-- internal/cohort/entity.go and token.go: rungs, intents, observations and readiness. SHA-256 is a
-- parameter, `sum_hex`: the lowercase hex digits of the first 16 bytes of the digest of a text.
pub mod Equality
pub mod Accepted
use queuezero.Prelude.{
  ℕ, zero, suc, String, ◌<>◌, Bool, true, false, ◌&&◌, Option, none, some, List, [], ◌∷◌, ◌==◌,
  if◌then◌else◌, Result, ok, err,
}
use queuezero.Cohort.State.{LifecycleState}

pub data CapacityModel : Type 0 where
  on_demand spot reserved : CapacityModel

unfoldable pub capacity_eq : CapacityModel → CapacityModel → Bool
capacity_eq on_demand on_demand = true
capacity_eq spot spot = true
capacity_eq reserved reserved = true
capacity_eq _ _ = false

pub record Rung : Type 0 where
  pub instance_type : String
  pub avail_zone : String
  pub capacity_model : CapacityModel
  pub account_id : String
  pub warm_start : Bool

unfoldable pub bool_eq : Bool → Bool → Bool
bool_eq true b = b
bool_eq false true = false
bool_eq false false = true

-- Go's `==` on the struct: every field is equal.
unfoldable pub rung_eq : Rung → Rung → Bool
unfolding capacity_eq bool_eq
rung_eq r s =
    r.instance_type == s.instance_type
    && r.avail_zone == s.avail_zone
    && capacity_eq r.capacity_model s.capacity_model
    && r.account_id == s.account_id
    && bool_eq r.warm_start s.warm_start

pub record EntityIntent : Type 0 where
  pub id : String
  pub generation : String
  pub cohort : String
  pub rung : Rung
  pub fallback_chain : List Rung
  pub idempotency_token : String

-- The errors that the constructors of the package return.
pub data BuildError : Type 0 where
  empty_id empty_rung no_members min_viable_range no_assembly_support : BuildError
  empty_chain_rung : ℕ → BuildError

-- validateRung
unfoldable pub valid_rung : Rung → Bool
valid_rung r = if r.instance_type == "" then false else true

-- The loop over the chain: the index of the first rung that is refused.
unfoldable pub bad_rung : ℕ → List Rung → Option ℕ
unfolding valid_rung
bad_rung i [] = none
bad_rung i (r ∷ rs) = if valid_rung r then bad_rung (suc i) rs else some i

pub token : (String → String) → String → String → String → String
token sum_hex cluster entity generation =
    "q0-" <> sum_hex (cluster <> ("\0" <> (entity <> ("\0" <> generation))))

-- NewEntityIntent
pub new_entity_intent :
    (String → String)
    → String
    → String
    → String
    → String
    → Rung
    → List Rung
    → String
    → Result BuildError EntityIntent
new_entity_intent sum_hex cluster id gen cohort_id rung chain given =
    if id == ""
    then err empty_id
    else if valid_rung rung
    then (elim (bad_rung zero chain) [
      | some i ↦ err (empty_chain_rung i)
      | none ↦ ok (record {
        id = id;
        generation = gen;
        cohort = cohort_id;
        rung = rung;
        fallback_chain = chain;
        idempotency_token = if given == "" then token sum_hex cluster id gen else given;
      })
    ])
    else err empty_rung

pub record Observation : Type 0 where
  pub id : String
  pub generation : String
  pub state : LifecycleState
  pub provider_id : String
  pub rung : Rung
  pub address : String
  pub observed_at : ℕ

pub record Readiness : Type 0 where
  pub enrolled : Bool
  pub operational : Bool
  pub detail : String

-- Readiness.OK
pub readiness_ok : Readiness → Bool
readiness_ok r = r.enrolled && r.operational
