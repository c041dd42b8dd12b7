-- ===== src/Spec/Examples.antt =====
-- A file of two partitions.
use queuezero.Prelude.{String, false, none, List, [], ◌∷◌, ◌≡◌, ◌≢◌, refl, All}
use queuezero.Spec.{
  Partition, validate, validate_from, validate_partition, validate_chain, validate_rungs,
  validate_rung, capacity_model_from_string,
}
use queuezero.Spec.Approved.{HasChain, validate_approves}

abbrev pub partition_of : String → String → Partition
partition_of name model = record {
  name = name;
  execution_account = "111";
  max_nodes = 8;
  fallback_chain =
      record { instance_type = "c5.large"; avail_zone = "us-east-1a"; capacity_model = model } ∷ [];
  warm_pool = record { hibernated = 0; stopped = 0 };
  budget = none;
  collective = false;
  node_prefix = "";
}

abbrev pub two : List Partition
two = partition_of "cpu" " Spot" ∷ partition_of "gpu" "" ∷ []

pub two_is_valid : validate two ≡ none
unfolding validate validate_from validate_partition validate_chain validate_rungs validate_rung
    capacity_model_from_string
two_is_valid = refl

validate_approves_example : All (λ (p : Partition). (p.name ≢ "") × HasChain p) two
validate_approves_example = validate_approves two two_is_valid

pub cpu-HasChain : HasChain (partition_of "cpu" " Spot")
cpu-HasChain = (validate_approves two two_is_valid).0.1

-- Two partitions of which one's prefix begins the other's.
abbrev nested : List (String × Partition)
nested = ("cpu", partition_of "cpu" "") ∷ ("cpu-big", partition_of "cpu-big" "") ∷ []
