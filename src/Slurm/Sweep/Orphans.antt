-- ===== src/Slurm/Sweep/Orphans.antt =====
-- The instances that Sweep is to reap, as the description above it in sweep.go has them.
use queuezero.Prelude.{
  ◌-◌, ◌≡◌, String, Bool, not, ◌&&◌, List, [], ◌∷◌, arith, ◌==◌, nat_beq, ltb, if◌then◌else◌,
  is_some,
}
use queuezero.Aws.Client.{Instance}
use queuezero.Slurm.Sweep.{SweepOptions, is_terminating, spare}

-- A generation tag that is not the current one, a known age over the grace period, an entity tag, and
-- not on its way out already.
abbrev pub is_orphan : String → SweepOptions → Instance → Bool
is_orphan current o i =
    not (i.generation == "")
    && not (i.generation == current)
    && (not (nat_beq i.launch_time 0) && ltb o.grace (o.now - i.launch_time))
    && not (i.entity == "")
    && not (is_terminating i.state)

pub spare-is_orphan :
    (current : String) (o : SweepOptions) (i : Instance)
    → is_some (spare current o i) ≡ not (is_orphan current o i)
unfolding spare
spare-is_orphan current o i = ground arith

-- The names of the entities of the instances that are orphans.
abbrev pub entities_where : (Instance → Bool) → List Instance → List String
entities_where p [] = []
entities_where p (i ∷ is) = let rest = entities_where p is in if p i then i.entity ∷ rest else rest
