-- ===== src/Mpi/Examples.antt =====
-- Two members, and a publisher that keeps what it is given.
use queuezero.Prelude.{
  ◌≡◌, refl, String, List, [], ◌∷◌, ◌++◌, Option, some, none, Result, ok, false,
}
use queuezero.Cohort.State.{LifecycleState}
use mathlib.Core.List.{Perm}
use queuezero.Cohort.Entity.{Observation, on_demand}
use queuezero.Mpi.{PeerManifest, sort_by_id, peers_from, on_marshal, on_peers, publish_to, assemble}
use queuezero.Mpi.Order.{IsOrdered}
use queuezero.Mpi.Reordered.{swap, assemble-Reorders}
use queuezero.Mpi.Ranks.{Published, assemble-Published}

abbrev member : String → String → Observation
member id address = record {
  id = id;
  generation = "7";
  state = LifecycleState.running;
  provider_id = "i-1";
  rung = record {
    instance_type = "c5.large";
    avail_zone = "us-east-1a";
    capacity_model = on_demand;
    account_id = "111";
    warm_start = false;
  };
  address = address;
  observed_at = 5;
}

abbrev Log : Type 0
Log = List (String × PeerManifest)

abbrev as_it_is : PeerManifest → Result String PeerManifest
as_it_is m = ok m

abbrev log : String → PeerManifest → Log → Option String × Log
log key m w = (none, w ++ (key, m) ∷ [])

abbrev n2_n1 : List Observation
n2_n1 = member "n2" "10.0.0.2" ∷ member "n1" "10.0.0.1" ∷ []

assemble-Reorders_example :
    assemble as_it_is (some log) n2_n1 []
    ≡ assemble as_it_is (some log) (member "n1" "10.0.0.1" ∷ member "n2" "10.0.0.2" ∷ []) []
assemble-Reorders_example =
    assemble-Reorders as_it_is (some log)
      (swap (member "n2" "10.0.0.2") (member "n1" "10.0.0.1") [] refl) []

n2_n1_assembled : (assemble as_it_is (some log) n2_n1 []).0 ≡ none
unfolding assemble on_peers on_marshal publish_to sort_by_id peers_from
n2_n1_assembled = refl

assemble-Published_example :
    (ordered : List Observation) × Perm ordered n2_n1
    × IsOrdered ordered
    × Published as_it_is log ordered [] (assemble as_it_is (some log) n2_n1 []).1
assemble-Published_example = assemble-Published as_it_is log n2_n1 [] n2_n1_assembled
