-- ===== src/Aws/Actuator/Lifecycle.antt =====
-- What the Observer reports, and whom Terminate names.
use queuezero.Prelude.{
  ℕ, ◌≡◌, refl, ap, String, Bool, true, false, List, [], ◌∷◌, map, arith, Result, ok, err, All,
  ◌==◌, if◌then◌else◌,
}
use queuezero.Cohort.State.{LifecycleState}
use queuezero.Cohort.Entity.{Observation}
use queuezero.Aws.Errors.{GoError}
use queuezero.Aws.Client.{Instance}
use queuezero.Aws.Actuator.{
  SubstrateClient, lifecycle_from_ec2_state, entity_filter, resolve_provider_id, terminate,
  terminate_at, first_id, observed, observe_one, observe, put_first,
}

abbrev is_absent : LifecycleState → Bool
is_absent LifecycleState.absent = true
is_absent _ = false

absent_either :
    (b : Bool) (x y : LifecycleState)
    → is_absent x ≡ false
    → is_absent y ≡ false
    → is_absent (if b then x else y) ≡ false
absent_either true x y hx hy = hx
absent_either false x y hx hy = hy

no_state_is_absent : (s : String) → is_absent (lifecycle_from_ec2_state s) ≡ false
unfolding lifecycle_from_ec2_state
no_state_is_absent s = absent_either (s == "pending") _ _ refl (
    absent_either (s == "running") _ _ refl (
      absent_either (s == "stopped") _ _ refl (
        absent_either (s == "stopping") _ _ refl (
          absent_either (s == "shutting-down") _ _ refl
            (absent_either (s == "terminated") _ _ refl refl)))))

-- The observations are of the entities that were asked for, in their order, and none says that its
-- entity is absent.
abbrev pub Observes : List String → Result GoError (List Observation) → Type 0
Observes ids (err e) = Unit {0}
Observes ids (ok os) =
    (map (λ (o : Observation). o.id) os ≡ ids)
    × All (λ (o : Observation). is_absent o.state ≡ false) os

module _ {W : Type 0} (client : SubstrateClient W) (cluster : String) where
  observed-clear :
      (id : String) (now : ℕ) (r : Result GoError (List Instance)) (o : Observation)
      → observed client cluster id now r ≡ ok o
      → (o.id ≡ id) × (is_absent o.state ≡ false)
  unfolding observed
  observed-clear id now (err e) o h = absurd (ground arith)
  observed-clear id now (ok []) o h = (ground arith, ground arith)
  observed-clear id now (ok (i ∷ is)) o h =
      let q : o.state ≡ lifecycle_from_ec2_state i.state = ground arith in
      (ground arith, rw q (no_state_is_absent i.state))

  put_first-Observes :
      (id : String) (ids : List String) (now : ℕ) (w : W) (r : Result GoError (List Instance))
      (p : Result GoError (List Observation) × W)
      → Observes ids p.0
      → Observes (id ∷ ids) (put_first client cluster (observed client cluster id now r) w p).0
  put_first-Observes id ids now w r p k = joins _ p (observed-clear id now r) k
    where
      joins :
          (x : Result GoError Observation) (p : Result GoError (List Observation) × W)
          → ((o : Observation) → x ≡ ok o → (o.id ≡ id) × (is_absent o.state ≡ false))
          → Observes ids p.0
          → Observes (id ∷ ids) (put_first client cluster x w p).0
      joins (err e) p h k = tt
      joins (ok o) (err e, w') h k = tt
      joins (ok o) (ok os, w') h k = (ground (arith, (h o refl).0, k.0), ((h o refl).1, k.1))

  -- Observe answers for the entities that it was asked for, in order, or with an error. A lookup that
  -- finds nothing, or an EC2 state of any name, is never reported as Absent.
  pub observe-Observes :
      (ids : List String) (now : ℕ) (w : W) → Observes ids (observe client cluster ids now w).0
  unfolding observe observe_one
  observe-Observes [] now w = (refl, tt)
  observe-Observes (id ∷ ids) now w =
      put_first-Observes id ids now _ (client.describe_by_tag (entity_filter cluster id) w).0 _
        (observe-Observes ids now _)

  -- Terminate calls the provider for the first instance that the entity's tags show.
  pub terminate-first :
      (id : String) (w : W) (first : Instance) (rest : List Instance)
      → (client.describe_by_tag (entity_filter cluster id) w).0 ≡ ok (first ∷ rest)
      → (terminate client cluster id w).1
        ≡ (client.terminate_instance first.provider_id
            (client.describe_by_tag (entity_filter cluster id) w).1).1
  unfolding terminate resolve_provider_id terminate_at first_id
  terminate-first id w first rest h =
      let w' = (client.describe_by_tag (entity_filter cluster id) w).1 in
      ap
        (λ (r : Result GoError (List Instance)).
          (terminate_at client cluster id (first_id id r, w')).1)
        h
