-- ===== src/Spec.antt =====
-- internal/spec/types.go and load.go: partitions.yaml after it was parsed; YAML itself is not
-- modelled. Texts are taken to be ASCII where they are lowered and trimmed. A nil budget is `none`.
pub mod Approved
pub mod Indexed
pub mod Resolve
pub mod Cluster
pub mod Examples
use queuezero.Prelude.{
  ℕ, suc, String, Bool, true, false, ◌||◌, Option, none, some, List, [], ◌∷◌, ◌==◌, if◌then◌else◌,
  Result, ok, err,
}
use queuezero.Prelude.Texts.{codes, codes_eq, to_lower, trim_space}
use queuezero.Cohort.Entity.{Rung, CapacityModel, on_demand, spot, reserved}
use queuezero.Cohort.Build.{PhaseBudget}
use queuezero.Slurm.Suspend.{WarmPool}

-- spec.Rung
pub record SpecRung : Type 0 where
  pub instance_type : String
  pub avail_zone : String
  pub capacity_model : String

pub record Partition : Type 0 where
  pub name : String
  pub execution_account : String
  pub max_nodes : ℕ
  pub fallback_chain : List SpecRung
  pub warm_pool : WarmPool
  pub budget : Option PhaseBudget
  pub collective : Bool
  pub node_prefix : String

pub data SpecError : Type 0 where
  no_partitions : SpecError
  empty_name : ℕ → SpecError
  duplicate_name empty_chain : String → SpecError
  empty_instance_type : String → ℕ → SpecError
  unknown_capacity : String → ℕ → String → SpecError

abbrev one_of : List ℕ → List String → Bool
one_of cs [] = false
one_of cs (s ∷ rest) = codes_eq cs (codes s) || one_of cs rest

-- capacityModelFromString: none for an unknown model.
pub capacity_model_from_string : String → Option CapacityModel
capacity_model_from_string s =
    let cs = to_lower (trim_space (codes s)) in
    if one_of cs ("ondemand" ∷ "on-demand" ∷ "" ∷ [])
    then some on_demand
    else if one_of cs ("spot" ∷ [])
    then some spot
    else if one_of cs ("reserved" ∷ "odcr" ∷ "capacity-block" ∷ [])
    then some reserved
    else none

-- The loop over the rungs: the first error.
validate_rung : String → ℕ → SpecRung → Option SpecError
unfolding capacity_model_from_string
validate_rung name j r =
    if r.instance_type == ""
    then some (empty_instance_type name j)
    else (elim (capacity_model_from_string r.capacity_model) [
      | some m ↦ none
      | none ↦ some (unknown_capacity name j r.capacity_model)
    ])

abbrev or_else : Option SpecError → Option SpecError → Option SpecError
or_else (some e) rest = some e
or_else none rest = rest

pub validate_rungs : String → ℕ → List SpecRung → Option SpecError
unfolding validate_rung
validate_rungs name j [] = none
validate_rungs name j (r ∷ rs) = or_else (validate_rung name j r) (validate_rungs name (suc j) rs)

abbrev pub mem_name : String → List String → Bool
mem_name s [] = false
mem_name s (x ∷ xs) = (x == s) || mem_name s xs

validate_chain : String → List SpecRung → Option SpecError
unfolding validate_rungs
validate_chain name [] = some (empty_chain name)
validate_chain name (r ∷ rs) = validate_rungs name 0 (r ∷ rs)

-- The checks of one partition, after the names that were seen before.
pub validate_partition : ℕ → List String → Partition → Option SpecError
unfolding validate_chain
validate_partition i seen p =
    if p.name == ""
    then some (empty_name i)
    else if mem_name p.name seen
    then some (duplicate_name p.name)
    else validate_chain p.name p.fallback_chain

validate_from : ℕ → List String → List Partition → Option SpecError
unfolding validate_partition
validate_from i seen [] = none
validate_from i seen (p ∷ ps) =
    or_else (validate_partition i seen p) (validate_from (suc i) (p.name ∷ seen) ps)

-- Partitions.validate
pub validate : List Partition → Option SpecError
unfolding validate_from
validate [] = some no_partitions
validate (p ∷ ps) = validate_from 0 [] (p ∷ ps)

-- Partitions.Index, a map from names, and its lookup.
abbrev put : Partition → List (String × Partition) → List (String × Partition)
put p [] = (p.name, p) ∷ []
put p ((n, q) ∷ rest) = if n == p.name then (n, p) ∷ rest else (n, q) ∷ put p rest

abbrev put_all : List Partition → List (String × Partition) → List (String × Partition)
put_all [] m = m
put_all (p ∷ ps) m = put_all ps (put p m)

pub index : List Partition → List (String × Partition)
index ps = put_all ps []

abbrev pub lookup : String → List (String × Partition) → Option Partition
lookup s [] = none
lookup s ((n, q) ∷ rest) = if n == s then some q else lookup s rest

abbrev cohort_rung : String → SpecRung → CapacityModel → Rung
cohort_rung account r m = record {
  instance_type = r.instance_type;
  avail_zone = r.avail_zone;
  capacity_model = m;
  account_id = account;
  warm_start = false;
}

abbrev push : Rung → Result SpecError (List Rung) → Result SpecError (List Rung)
push r (ok rs) = ok (r ∷ rs)
push r (err e) = err e

chain_from : Partition → ℕ → List SpecRung → Result SpecError (List Rung)
unfolding capacity_model_from_string
chain_from p j [] = ok []
chain_from p j (r ∷ rs) =
    let rest = chain_from p (suc j) rs in
    elim (capacity_model_from_string r.capacity_model) [
      | some m ↦ push (cohort_rung p.execution_account r m) rest
      | none ↦ err (unknown_capacity p.name j r.capacity_model)
    ]

-- Partition.CohortFallbackChain
pub cohort_fallback_chain : Partition → Result SpecError (List Rung)
unfolding chain_from
cohort_fallback_chain p = chain_from p 0 p.fallback_chain

-- Partition.CohortBudget
abbrev zero_budget : PhaseBudget
zero_budget = record {
  launch_acked = 0;
  running = 0;
  enrolled = 0;
  cohort_barrier = 0;
  cohort_assembly = 0;
}

abbrev budget_or_zero : Option PhaseBudget → PhaseBudget
budget_or_zero none = zero_budget
budget_or_zero (some b) = b

pub cohort_budget : Partition → PhaseBudget
cohort_budget p = budget_or_zero p.budget
