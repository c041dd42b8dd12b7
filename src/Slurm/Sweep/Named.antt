-- ===== src/Slurm/Sweep/Named.antt =====
-- A sweep over the Actuator of internal/substrate/aws, as internal/asbx/wire.go builds the Bridge.
use queuezero.Prelude.{
  ◌≡◌, refl, ◌∙◌, String, true, false, not, Option, none, some, List, [], ◌∷◌, arith, Result, ok,
  err, is_some,
}
use queuezero.Aws.Errors.{GoError, text_of}
use queuezero.Aws.Client.{Instance}
use queuezero.Aws.Actuator.{SubstrateClient, entity_filter, stop, terminate}
use queuezero.Aws.Actuator.Lifecycle.{terminate-first}
use queuezero.Slurm.Bridge.{TeardownPort, Bridge}
use queuezero.Slurm.Holds.{reconcile_hold}
use queuezero.Slurm.Sweep.{
  SweepOptions, SweepResult, Reason, spare, on_instance, reap, after_terminate, sweep_all,
  no_decisions,
}
use queuezero.Slurm.Sweep.Orphans.{is_orphan, spare-is_orphan}

-- The Actuator as a port whose errors are texts.
abbrev error_text : Result GoError (Unit {0}) → Option String
error_text (ok u) = none
error_text (err e) = some (text_of e)

abbrev pub port : {W : Type 0} → SubstrateClient W → String → TeardownPort W
port client cluster = record {
  stop = λ id mode w. let (r, w') = stop client cluster id mode w in (error_text r, w');
  terminate = λ id w. let (r, w') = terminate client cluster id w in (error_text r, w');
}

module _ {W : Type 0} (b : Bridge W) (client : SubstrateClient W) (o : SweepOptions)
    (no_store : b.holds ≡ none) (wet : o.dry_run ≡ false) where
  after_terminate-state :
      (i : Instance) (r : SweepResult) (p : Option String × W)
      → (after_terminate b (port client b.cluster) o i r p).1 ≡ p.1
  unfolding after_terminate reconcile_hold
  after_terminate-state i r (some e, w) = refl
  after_terminate-state i r (none, w) = rw no_store refl

  on_instance-state :
      (i : Instance) (r : SweepResult) (s : Option Reason) (w : W)
      → s ≡ none
      → (on_instance b (port client b.cluster) o s i r w).1
        ≡ (terminate client b.cluster i.entity w).1
  unfolding on_instance
  on_instance-state i r none w e = rw (wet, reap) (after_terminate-state i r _)
  on_instance-state i r (some reason) w e = absurd (ground arith)

  -- The sweep of an orphan terminates the first instance that the tags of its entity show, which may
  -- be another one, of the current generation: the lookup filters by the name alone.
  pub sweep_terminates_first :
      (i first : Instance) (rest : List Instance) (w : W)
      → is_orphan b.generation o i ≡ true
      → (client.describe_by_tag (entity_filter b.cluster i.entity) w).0 ≡ ok (first ∷ rest)
      → (sweep_all b (port client b.cluster) o (i ∷ []) no_decisions w).1
        ≡ (client.terminate_instance first.provider_id
            (client.describe_by_tag (entity_filter b.cluster i.entity) w).1).1
  unfolding sweep_all
  sweep_terminates_first i first rest w orphan shown =
      on_instance-state i no_decisions (spare b.generation o i) w
        (nothing (spare b.generation o i) (spare-is_orphan b.generation o i))
      ∙ terminate-first client b.cluster i.entity w first rest shown
    where
      nothing : (s : Option Reason) → is_some s ≡ not (is_orphan b.generation o i) → s ≡ none
      nothing none e = refl
      nothing (some reason) e = absurd (ground arith)
