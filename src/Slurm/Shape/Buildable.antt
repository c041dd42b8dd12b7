-- ===== src/Slurm/Shape/Buildable.antt =====
-- A partition that validates can be resumed.
use queuezero.Prelude.{◌≡◌, ◌≢◌, refl, ap, String, List, [], ◌∷◌, map, All, ok}
use queuezero.Cohort.Entity.{Rung}
use queuezero.Cohort.Entity.Accepted.{intent_for, new_entity_intent_accepts}
use queuezero.Cohort.Build.Viability.{IsRung}
use queuezero.Spec.{SpecRung, Partition, cohort_fallback_chain}
use queuezero.Spec.Approved.{Matches, HasChain}
use queuezero.Slurm.Shape.{push, intents_of}

-- Every rung of a chain that matches one of the file can be launched.
pub Matches-IsRung :
    (p : Partition) (ss : List SpecRung) (rs : List Rung) → Matches p ss rs → All IsRung rs
Matches-IsRung p [] [] h = tt
Matches-IsRung p [] (r ∷ rs) h = absurd h
Matches-IsRung p (s ∷ ss) [] h = absurd h
Matches-IsRung p (s ∷ ss) (r ∷ rs) h = (h.0.0, Matches-IsRung p ss rs h.1)

module _ (sum_hex : String → String) (cluster gen cohort_id : String) (first : Rung)
    (chain : List Rung) (launchable : IsRung first) (all_launchable : All IsRung chain) where
  pub intents_of_named :
      (nodes : List String)
      → All (λ n. n ≢ "") nodes
      → intents_of sum_hex cluster gen cohort_id first chain nodes
        ≡ ok (map (intent_for sum_hex cluster gen cohort_id first chain) nodes)
  unfolding intents_of
  intents_of_named [] h = refl
  intents_of_named (n ∷ ns) h =
      rw
        (
          new_entity_intent_accepts sum_hex cluster gen cohort_id first chain n h.0 launchable
              all_launchable,
          intents_of,
        )
        (ap (push (intent_for sum_hex cluster gen cohort_id first chain n))
          (intents_of_named ns h.1))

-- For a partition with an approved chain and nodes that have names, resume builds an intent for each
-- node, in order: on the chain's first rung, with the whole chain to fall back on, and with the token
-- that is derived from the cluster, the node and the generation, so a repeated resume repeats it.
pub intents_of_approved :
    (sum_hex : String → String) (cluster gen cohort_id : String) (p : Partition)
    (nodes : List String)
    → HasChain p
    → All (λ n. n ≢ "") nodes
    → (first : Rung) × (rest : List Rung) × (cohort_fallback_chain p ≡ ok (first ∷ rest))
      × (intents_of sum_hex cluster gen cohort_id first (first ∷ rest) nodes
          ≡ ok (map (intent_for sum_hex cluster gen cohort_id first (first ∷ rest)) nodes))
intents_of_approved sum_hex cluster gen cohort_id p nodes (first, rest, q, matches) named =
    let launchable = Matches-IsRung p p.fallback_chain (first ∷ rest) matches in
    (
      first,
      rest,
      q,
      intents_of_named sum_hex cluster gen cohort_id first (first ∷ rest) launchable.0 launchable
          nodes named,
    )
