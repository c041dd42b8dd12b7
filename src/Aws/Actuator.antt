-- ===== src/Aws/Actuator.antt =====
-- internal/substrate/aws/actuator.go: the Actuator and the Observer over `substrateClient`, which is a
-- record of functions that pass on the state `W` of the provider. Actuator.Launch is in Aws.Launch, and
-- ReadReadiness in Spored. Times are arguments.
pub mod Lifecycle
pub mod Wiring
pub mod Examples
use queuezero.Prelude.{
  ℕ, String, ◌<>◌, Bool, true, false, Option, none, some, List, [], ◌∷◌, ◌==◌, if◌then◌else◌,
  Result, ok, err,
}
use queuezero.Cohort.State.{Fault, FaultClass, LifecycleState, StopMode}
use queuezero.Cohort.Entity.{Rung, Observation, on_demand}
use queuezero.Aws.Errors.{GoError, as_fault}
use queuezero.Aws.Client.{Instance, tag_entity}

-- The calls of substrateClient that are used here.
pub record SubstrateClient (W : Type 0) : Type 0 where
  pub start_instance : String → W → Result GoError Instance × W
  pub stop_instance : String → Bool → W → Result GoError (Unit {0}) × W
  pub terminate_instance : String → W → Result GoError (Unit {0}) × W
  pub describe_by_tag : List (String × String) → W → Result GoError (List Instance) × W

-- lifecycleFromEC2State
pub lifecycle_from_ec2_state : String → LifecycleState
lifecycle_from_ec2_state s =
    if s == "pending"
    then LifecycleState.launching
    else if s == "running"
    then LifecycleState.running
    else if s == "stopped"
    then LifecycleState.stopped
    else if s == "stopping"
    then LifecycleState.stopped
    else if s == "shutting-down"
    then LifecycleState.failed
    else if s == "terminated"
    then LifecycleState.failed
    else LifecycleState.unknown

-- translateFaultErr
abbrev wrap_if_fault : GoError → String → Option Fault → GoError
wrap_if_fault e id none = e
wrap_if_fault e id (some f) = GoError.wrapped ("entity " <> id) e

pub translate_fault_err : GoError → String → GoError
translate_fault_err e id = wrap_if_fault e id (as_fault e)

-- isNotYetVisible
abbrev has_code : Option Fault → Bool
has_code none = false
has_code (some f) = f.code == "EntityNotYetVisible"

pub is_not_yet_visible : GoError → Bool
is_not_yet_visible e = has_code (as_fault e)

abbrev pub tag_cluster : String
tag_cluster = "q0:cluster"

-- The two tags that name an entity.
abbrev pub entity_filter : String → String → List (String × String)
entity_filter cluster id = (tag_cluster, cluster) ∷ (tag_entity, id) ∷ []

abbrev not_yet_visible : String → Fault
not_yet_visible id = record {
  class = FaultClass.retryable_consistency;
  code = "EntityNotYetVisible";
  retryable = true;
  message = "entity " <> (id <> " not visible via DescribeByTag (consistency lag)");
}

pub first_id : String → Result GoError (List Instance) → Result GoError String
first_id id (err e) = err e
first_id id (ok []) = err (GoError.fault (not_yet_visible id))
first_id id (ok (i ∷ is)) = ok i.provider_id

abbrev is_hibernate : StopMode → Bool
is_hibernate StopMode.warm = false
is_hibernate StopMode.hibernate = true

module _ {A : Type 0} where
  abbrev translate : String → Result GoError A → Result GoError A
  translate id (ok a) = ok a
  translate id (err e) = err (translate_fault_err e id)

-- The zero value of a Rung, with its type and zone.
abbrev rung_of : Instance → Rung
rung_of i = record {
  instance_type = i.instance_type;
  avail_zone = i.avail_zone;
  capacity_model = on_demand;
  account_id = "";
  warm_start = false;
}

abbrev empty_rung : Rung
empty_rung = record {
  instance_type = "";
  avail_zone = "";
  capacity_model = on_demand;
  account_id = "";
  warm_start = false;
}

abbrev unknown_of : String → ℕ → Observation
unknown_of id now = record {
  id = id;
  generation = "";
  state = LifecycleState.unknown;
  provider_id = "";
  rung = empty_rung;
  address = "";
  observed_at = now;
}

-- The observation of an instance.
abbrev observation_of : String → Rung → ℕ → Instance → Observation
observation_of id rung now i = record {
  id = id;
  generation = "";
  state = lifecycle_from_ec2_state i.state;
  provider_id = i.provider_id;
  rung = rung;
  address = i.private_addr;
  observed_at = now;
}

abbrev started : String → ℕ → Result GoError Instance → Result GoError Observation
started id now (ok i) = ok (observation_of id empty_rung now i)
started id now (err e) = err (translate_fault_err e id)

module _ {W : Type 0} (client : SubstrateClient W) (cluster : String) where
  -- Actuator.resolveProviderID
  pub resolve_provider_id : String → W → Result GoError String × W
  resolve_provider_id id w =
      let (r, w') = client.describe_by_tag (entity_filter cluster id) w in (first_id id r, w')

  -- Actuator.Start, after the resolution.
  start_at : String → ℕ → Result GoError String × W → Result GoError Observation × W
  start_at id now (err e, w) = (err e, w)
  start_at id now (ok provider_id, w) =
      let (r, w') = client.start_instance provider_id w in (started id now r, w')

  pub start : String → ℕ → W → Result GoError Observation × W
  unfolding resolve_provider_id start_at
  start id now w = start_at id now (resolve_provider_id id w)

  -- Actuator.Stop
  stop_at : String → StopMode → Result GoError String × W → Result GoError (Unit {0}) × W
  stop_at id mode (err e, w) = (err e, w)
  stop_at id mode (ok provider_id, w) =
      let (r, w') = client.stop_instance provider_id (is_hibernate mode) w in (translate id r, w')

  pub stop : String → StopMode → W → Result GoError (Unit {0}) × W
  unfolding resolve_provider_id stop_at
  stop id mode w = stop_at id mode (resolve_provider_id id w)

  -- Actuator.Terminate: an entity that no tag shows counts as gone.
  terminate_at : String → Result GoError String × W → Result GoError (Unit {0}) × W
  unfolding is_not_yet_visible
  terminate_at id (err e, w) = if is_not_yet_visible e then (ok tt, w) else (err e, w)
  terminate_at id (ok provider_id, w) =
      let (r, w') = client.terminate_instance provider_id w in (translate id r, w')

  pub terminate : String → W → Result GoError (Unit {0}) × W
  unfolding resolve_provider_id terminate_at
  terminate id w = terminate_at id (resolve_provider_id id w)

  -- Observer.observeOne
  observed : String → ℕ → Result GoError (List Instance) → Result GoError Observation
  observed id now (err e) = err e
  observed id now (ok []) = ok (unknown_of id now)
  observed id now (ok (i ∷ is)) = ok (observation_of id (rung_of i) now i)

  pub observe_one : String → ℕ → W → Result GoError Observation × W
  unfolding observed
  observe_one id now w =
      let (r, w') = client.describe_by_tag (entity_filter cluster id) w in (observed id now r, w')

  -- The rest counts only where the first observation is no error.
  abbrev pub put_first :
      Result GoError Observation
      → W
      → Result GoError (List Observation) × W
      → Result GoError (List Observation) × W
  put_first (err e) w rest = (err e, w)
  put_first (ok o) w (ok os, w') = (ok (o ∷ os), w')
  put_first (ok o) w (err e, w') = (err e, w')

  -- Observer.Observe: the first error ends it.
  pub observe : List String → ℕ → W → Result GoError (List Observation) × W
  unfolding observe_one
  observe [] now w = (ok [], w)
  observe (id ∷ ids) now w =
      let (r, w') = observe_one id now w in let rest = observe ids now w' in put_first r w' rest
