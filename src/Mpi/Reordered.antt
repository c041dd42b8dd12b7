-- ===== src/Mpi/Reordered.antt =====
-- The order in which the members are given.
use queuezero.Prelude.{◌≡◌, refl, ap, ◌∙◌, String, false, List, [], ◌∷◌, Option, Result}
use queuezero.Prelude.Texts.{codes, codes_eq}
use queuezero.Cohort.Entity.{Observation}
use queuezero.Mpi.{PeerManifest, insert, sort_by_id, cohort_key, peers_from, on_peers, assemble}
use queuezero.Mpi.Order.{insert_comm}

-- One list of members is another in a different order, and members that change places have different IDs.
pub data Reorders : List Observation → List Observation → Type 0 where
  nothing : Reorders [] []
  keep : (m : Observation) {ms ns : List Observation} → Reorders ms ns → Reorders (m ∷ ms) (m ∷ ns)
  swap :
      (m n : Observation) (ms : List Observation)
      → codes_eq (codes m.id) (codes n.id) ≡ false
      → Reorders (m ∷ n ∷ ms) (n ∷ m ∷ ms)
  join : {ks ms ns : List Observation} → Reorders ks ms → Reorders ms ns → Reorders ks ns

pub sort-Reorders : {ms ns : List Observation} → Reorders ms ns → sort_by_id ms ≡ sort_by_id ns
unfolding sort_by_id
sort-Reorders nothing = refl
sort-Reorders (keep m h) = ap (insert m) (sort-Reorders h)
sort-Reorders (swap m n ms differ) = insert_comm m n (sort_by_id ms) differ
sort-Reorders (join h k) = sort-Reorders h ∙ sort-Reorders k

module _ {W D : Type 0} (marshal : PeerManifest → Result String D)
    (publisher : Option (String → D → W → Option String × W)) where
  same_order :
      {os ps : List Observation} (w : W)
      → os ≡ ps
      → on_peers marshal publisher (cohort_key os) (peers_from 0 os) w
        ≡ on_peers marshal publisher (cohort_key ps) (peers_from 0 ps) w
  same_order w h =
      ap (λ (l : List Observation). on_peers marshal publisher (cohort_key l) (peers_from 0 l) w) h

  -- Assemble does the same, and publishes the same manifest under the same key, in whatever order it is
  -- given the members, if their IDs differ.
  pub assemble-Reorders :
      {ms ns : List Observation}
      → Reorders ms ns
      → (w : W) → assemble marshal publisher ms w ≡ assemble marshal publisher ns w
  unfolding assemble
  assemble-Reorders nothing w = refl
  assemble-Reorders (keep m h) w = same_order w (sort-Reorders (keep m h))
  assemble-Reorders (swap m n ms differ) w = same_order w (sort-Reorders (swap m n ms differ))
  assemble-Reorders (join h k) w = assemble-Reorders h w ∙ assemble-Reorders k w
