-- ===== src/Slurm/Sweep/Decided.antt =====
-- What a sweep decides, and does.
use queuezero.Prelude.{
  ◌≡◌, refl, sym, ap, ◌∙◌, String, Bool, true, false, not, Option, none, some, List, [], ◌∷◌, ◌++◌,
  map, arith, if◌then◌else◌, is_some, Bool-cases, inl, inr, snoc-append, map-snoc,
}
use queuezero.Aws.Client.{Instance}
use queuezero.Slurm.Bridge.{TeardownPort, Bridge}
use queuezero.Slurm.Sweep.{
  SweepOptions, SweepDecision, SweepResult, Reason, spare, on_instance, reap, after_terminate,
  sweep_all, no_decisions,
}
use queuezero.Slurm.Sweep.Orphans.{is_orphan, spare-is_orphan, entities_where}
use queuezero.Slurm.Sweep.Terminates.{terminate_each, sweep_all-dry, sweep_all-terminates}

-- What names an instance in a decision.
abbrev Key : Type 0
Key = String × (String × String)

abbrev pub key : Instance → Key
key i = (i.entity, (i.provider_id, i.generation))

abbrev pub key_of : SweepDecision → Key
key_of d = (d.entity, (d.provider_id, d.generation))

abbrev pub keys_where : (Instance → Bool) → List Instance → List Key
keys_where p [] = []
keys_where p (i ∷ is) = let rest = keys_where p is in if p i then key i ∷ rest else rest

-- The keys of a result, after those of the decisions before.
record Adds (r r' : SweepResult) (xs ys : List Key) : Type 0 where
  pub reaped : map key_of r'.reaped ≡ map key_of r.reaped ++ xs
  pub spared : map key_of r'.spared ≡ map key_of r.spared ++ ys

append-nil : (xs : List Key) → xs ≡ xs ++ []
append-nil [] = refl
append-nil (x ∷ xs) = ap (λ (zs : List Key). x ∷ zs) (append-nil xs)

after_one :
    (r s t : SweepResult) (a b : Bool) (k : Key) (xs ys : List Key)
    → Adds r s (if a then k ∷ [] else []) (if b then k ∷ [] else [])
    → Adds s t xs ys
    → Adds r t (if a then k ∷ xs else xs) (if b then k ∷ ys else ys)
after_one r s t a b k xs ys h g = record {
  reaped = g.reaped ∙ joins a (map key_of r.reaped) (map key_of s.reaped) xs h.reaped;
  spared = g.spared ∙ joins b (map key_of r.spared) (map key_of s.spared) ys h.spared;
}
  where
    joins :
        (c : Bool) (old new zs : List Key)
        → new ≡ old ++ (if c then k ∷ [] else [])
        → new ++ zs ≡ old ++ (if c then k ∷ zs else zs)
    joins true old new zs e = ap (λ (l : List Key). l ++ zs) e ∙ snoc-append old k zs
    joins false old new zs e = ap (λ (l : List Key). l ++ zs) (e ∙ sym (append-nil old))

module _ {W : Type 0} (b : Bridge W) (act : TeardownPort W) (o : SweepOptions) where
  after_terminate-Adds :
      (i : Instance) (r : SweepResult) (p : Option String × W)
      → Adds r (after_terminate b act o i r p).0 (key i ∷ []) []
  unfolding after_terminate
  after_terminate-Adds i r (none, w) = record {
    reaped = map-snoc key_of r.reaped _;
    spared = append-nil (map key_of r.spared);
  }
  after_terminate-Adds i r (some e, w) = record {
    reaped = map-snoc key_of r.reaped _;
    spared = append-nil (map key_of r.spared);
  }

  reap-Adds :
      (i : Instance) (r : SweepResult) (w : W) → Adds r (reap b act o i r w).0 (key i ∷ []) []
  unfolding reap
  reap-Adds i r w = elim (Bool-cases o.dry_run) [
    | inl dry ↦
        rw (dry, reap)
          (record {
            reaped = map-snoc key_of r.reaped _;
            spared = append-nil (map key_of r.spared);
          })
    | inr wet ↦ rw (wet, reap) (after_terminate-Adds i r (act.terminate i.entity w))
  ]

  on_instance-Adds :
      (s : Option Reason) (i : Instance) (r : SweepResult) (w : W)
      → Adds r
          (on_instance b act o s i r w).0
          (if not (is_some s) then key i ∷ [] else [])
          (if is_some s then key i ∷ [] else [])
  unfolding on_instance
  on_instance-Adds none i r w = reap-Adds i r w
  on_instance-Adds (some reason) i r w = record {
    reaped = append-nil (map key_of r.reaped);
    spared = map-snoc key_of r.spared _;
  }

  -- The keys of the reaped and of the spared, for the loop.
  sweep_all-Adds :
      (is : List Instance) (r : SweepResult) (w : W)
      → Adds r
          (sweep_all b act o is r w).0
          (keys_where (λ i. not (is_some (spare b.generation o i))) is)
          (keys_where (λ i. is_some (spare b.generation o i)) is)
  unfolding sweep_all
  sweep_all-Adds [] r w = record { reaped = append-nil _; spared = append-nil _ }
  sweep_all-Adds (i ∷ is) r w =
      let s = on_instance b act o (spare b.generation o i) i r w in
      after_one r s.0 _ _ _ (key i) _ _ (on_instance-Adds (spare b.generation o i) i r w)
        (sweep_all-Adds is s.0 s.1)

keys_where-ext :
    (p q : Instance → Bool) (is : List Instance)
    → ((i : Instance) → p i ≡ q i)
    → keys_where p is ≡ keys_where q is
keys_where-ext p q [] h = refl
keys_where-ext p q (i ∷ is) h = rw (h i, keys_where-ext p q is h) refl

-- Of a sweep of the described instances, whatever Terminate answers: listed as reaped are exactly those
-- with a generation tag that is not the current one, an age known to be over the grace period, an entity
-- tag, and a state that is not on its way out; listed as spared exactly the others; both in order. A dry
-- run does nothing. Any other terminates once for each of the reaped, in order, the entity of that
-- name, closes its hold where that succeeds, and does nothing else. It gives the name and not the
-- instance: which instance of that name is terminated is up to the actuator.
pub sweep_all_decides :
    {W : Type 0} (b : Bridge W) (act : TeardownPort W) (o : SweepOptions) (is : List Instance)
    (w : W)
    → (map key_of (sweep_all b act o is no_decisions w).0.reaped
        ≡ keys_where (is_orphan b.generation o) is)
      × (map key_of (sweep_all b act o is no_decisions w).0.spared
          ≡ keys_where (λ i. not (is_orphan b.generation o i)) is)
      × ((sweep_all b act o is no_decisions w).1 ≡ (
          if o.dry_run
          then w
          else terminate_each b act o.now (entities_where (is_orphan b.generation o) is) w))
sweep_all_decides b act o is w =
    let a = sweep_all-Adds b act o is no_decisions w in
    let orphans = entities_where (is_orphan b.generation o) is in
    (
      a.reaped ∙ keys_where-ext _ _ is (λ i. ground (arith, spare-is_orphan b.generation o i)),
      a.spared ∙ keys_where-ext _ _ is (spare-is_orphan b.generation o),
      elim (Bool-cases o.dry_run) [
        | inl dry ↦
            sweep_all-dry b act o dry is no_decisions w
            ∙ ap (λ (d : Bool). if d then w else terminate_each b act o.now orphans w) (sym dry)
        | inr wet ↦
            sweep_all-terminates b act o wet is no_decisions w
            ∙ ap (λ (d : Bool). if d then w else terminate_each b act o.now orphans w) (sym wet)
      ],
    )
