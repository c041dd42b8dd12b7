-- ===== src/Slurm/Sweep/Terminates.antt =====
-- What a sweep does to the world.
use queuezero.Prelude.{
  ℕ, ◌≡◌, refl, ap, ◌∙◌, String, Bool, true, false, not, Option, none, some, List, [], ◌∷◌,
  if◌then◌else◌, is_some,
}
use queuezero.Aws.Client.{Instance}
use queuezero.Slurm.Bridge.{TeardownPort, Bridge}
use queuezero.Slurm.Holds.{reconcile_hold}
use queuezero.Slurm.Sweep.{
  SweepOptions, SweepResult, Reason, spare, on_instance, reap, after_terminate, sweep_all,
}
use queuezero.Slurm.Sweep.Orphans.{is_orphan, spare-is_orphan, entities_where}

module _ {W : Type 0} (b : Bridge W) (act : TeardownPort W) (now : ℕ) where
  -- The hold of an entity is closed after it was terminated without an error.
  abbrev pub settled : String → Option String × W → W
  settled entity (none, w) = reconcile_hold b entity now w
  settled entity (some e, w) = w

  -- Terminate is called for each entity by its name, in order, whatever the calls before answered.
  abbrev pub terminate_each : List String → W → W
  terminate_each [] w = w
  terminate_each (e ∷ es) w = terminate_each es (settled e (act.terminate e w))

module _ {W : Type 0} (b : Bridge W) (act : TeardownPort W) (o : SweepOptions)
    (dry : o.dry_run ≡ true) where
  on_instance-dry :
      (s : Option Reason) (i : Instance) (r : SweepResult) (w : W)
      → (on_instance b act o s i r w).1 ≡ w
  unfolding on_instance reap
  on_instance-dry none i r w = rw (dry, reap) refl
  on_instance-dry (some reason) i r w = refl

  -- A dry run terminates nothing and closes no hold.
  pub sweep_all-dry :
      (is : List Instance) (r : SweepResult) (w : W) → (sweep_all b act o is r w).1 ≡ w
  unfolding sweep_all
  sweep_all-dry [] r w = refl
  sweep_all-dry (i ∷ is) r w = sweep_all-dry is _ _ ∙ on_instance-dry (spare b.generation o i) i r w

module _ {W : Type 0} (b : Bridge W) (act : TeardownPort W) (o : SweepOptions)
    (wet : o.dry_run ≡ false) where
  after_terminate-settled :
      (i : Instance) (r : SweepResult) (p : Option String × W)
      → (after_terminate b act o i r p).1 ≡ settled b act o.now i.entity p
  unfolding after_terminate
  after_terminate-settled i r (none, w) = refl
  after_terminate-settled i r (some e, w) = refl

  on_instance-terminates :
      (s : Option Reason) (i : Instance) (r : SweepResult) (w : W)
      → (on_instance b act o s i r w).1
        ≡ (if is_some s then w else settled b act o.now i.entity (act.terminate i.entity w))
  unfolding on_instance reap
  on_instance-terminates none i r w =
      rw (wet, reap) (after_terminate-settled i r (act.terminate i.entity w))
  on_instance-terminates (some reason) i r w = refl

  pub sweep_all-terminates :
      (is : List Instance) (r : SweepResult) (w : W)
      → (sweep_all b act o is r w).1
        ≡ terminate_each b act o.now (entities_where (is_orphan b.generation o) is) w
  unfolding sweep_all
  sweep_all-terminates [] r w = refl
  sweep_all-terminates (i ∷ is) r w =
      let s = on_instance b act o (spare b.generation o i) i r w in
      let others = entities_where (is_orphan b.generation o) is in
      let this = on_instance-terminates (spare b.generation o i) i r w in
      sweep_all-terminates is s.0 s.1
      ∙ ap (terminate_each b act o.now others) this
      ∙ rw (spare-is_orphan b.generation o i)
          (one_more (is_orphan b.generation o i) i.entity others w)
    where
      one_more :
          (orphan : Bool) (e : String) (others : List String) (w : W)
          → terminate_each b act o.now others
              (if not orphan then w else settled b act o.now e (act.terminate e w))
            ≡ terminate_each b act o.now (if orphan then e ∷ others else others) w
      one_more true e others w = refl
      one_more false e others w = refl
