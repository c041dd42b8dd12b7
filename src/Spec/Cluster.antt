-- ===== src/Spec/Cluster.antt =====
-- internal/spec/load_cluster.go and the types of cluster.yaml in types.go: validation after parsing. Parsing
-- a CIDR is a parameter, as YAML is a library. Of an error its kind and what it names is kept. An `int` is
-- of any size. ContentHash is not modelled.
pub mod Paths
pub mod Coherent
pub mod Examples
use queuezero.Prelude.{
  ℤ, pos, negsuc, ℕ, suc, String, Bool, true, false, not, ◌||◌, ◌&&◌, Option, none, some, List, [],
  ◌∷◌, ◌++◌, map, ◌==◌, if◌then◌else◌, nat_beq,
}
use Prim.Native.Nat.{◌%◌}
use queuezero.Prelude.Texts.{codes, codes_eq, has_prefix, split}
use queuezero.Spec.{mem_name}

pub record NetworkSpec : Type 0 where
  pub byo : Bool
  pub vpc_id : String
  pub subnet_ids : List String
  pub cidr : String
  pub egress : String

pub record ControllerSpec : Type 0 where
  pub instance_type : String
  pub standby_host : String
  pub state_dir : String
  pub accounting_db : String
  pub ami_hash : String

pub record StorageSpec : Type 0 where
  pub kind : String
  pub mount_path : String
  pub s3_linkage : String
  pub capacity_gib : ℤ
  pub deployment_type : String

pub record Cluster : Type 0 where
  pub name : String
  pub control_account : String
  pub region : String
  pub network : NetworkSpec
  pub controller : ControllerSpec
  pub storage : List StorageSpec

pub data ClusterError : Type 0 where
  empty_name empty_account empty_region no_vpc no_subnets no_cidr no_instance_type no_ami :
      ClusterError
  unknown_egress bad_cidr duplicate_mount bad_state_dir : String → ClusterError
  empty_mount bad_capacity : ℕ → ClusterError
  unknown_kind bad_deployment : ℕ → String → ClusterError

-- The first of two checks that fails.
infixr 30 ◌then_check◌
abbrev ◌then_check◌ : Option ClusterError → Option ClusterError → Option ClusterError
some e then_check rest = some e
none then_check rest = rest

abbrev pub refuse_if : Bool → ClusterError → Option ClusterError
refuse_if b e = if b then some e else none

abbrev is_nil : List String → Bool
is_nil [] = true
is_nil (x ∷ xs) = false

abbrev pub one_of : String → List String → Bool
one_of s [] = false
one_of s (t ∷ ts) = (s == t) || one_of s ts

-- NetworkSpec.validate
pub validate_network : (String → Bool) → NetworkSpec → Option ClusterError
validate_network parses_cidr n =
    refuse_if (not (one_of n.egress ("" ∷ "nat-gateway" ∷ "nat-instance" ∷ "endpoints-only" ∷ [])))
      (unknown_egress n.egress)
    then_check (if n.byo
        then refuse_if (n.vpc_id == "") no_vpc then_check refuse_if (is_nil n.subnet_ids) no_subnets
        else refuse_if (n.cidr == "") no_cidr
          then_check refuse_if (not (parses_cidr n.cidr)) (bad_cidr n.cidr))

-- ControllerSpec.validate
abbrev pub is_zero : ControllerSpec → Bool
is_zero c =
    (c.instance_type == "")
    && (c.standby_host == "")
    && (c.state_dir == "")
    && (c.accounting_db == "")
    && (c.ami_hash == "")

pub validate_controller : ControllerSpec → Option ClusterError
validate_controller c =
    if is_zero c
    then none
    else refuse_if (c.instance_type == "") no_instance_type
      then_check refuse_if (c.ami_hash == "") no_ami

-- validateFSxLustre
abbrev pub capacity_ok : ℤ → Bool
capacity_ok (pos n) = nat_beq (n % 1200) 0
capacity_ok (negsuc n) = false

pub validate_fsx_lustre : ℕ → StorageSpec → Option ClusterError
validate_fsx_lustre i s =
    refuse_if
      (not (s.deployment_type == "")
        && not (
            one_of s.deployment_type
              ("SCRATCH_1" ∷ "SCRATCH_2" ∷ "PERSISTENT_1" ∷ "PERSISTENT_2" ∷ [])))
      (bad_deployment i s.deployment_type)
    then_check refuse_if (not (capacity_ok s.capacity_gib)) (bad_capacity i)

-- validateStorage: the checks of one entry, after the mount paths that were seen.
pub validate_mount : ℕ → List String → StorageSpec → Option ClusterError
unfolding validate_fsx_lustre
validate_mount i seen s =
    refuse_if (s.mount_path == "") (empty_mount i)
    then_check refuse_if (not (one_of s.kind ("efs" ∷ "fsx-lustre" ∷ []))) (unknown_kind i s.kind)
    then_check (if s.kind == "fsx-lustre" then validate_fsx_lustre i s else none)
    then_check refuse_if (mem_name s.mount_path seen) (duplicate_mount s.mount_path)

pub validate_storage : ℕ → List String → List StorageSpec → Option ClusterError
unfolding validate_mount
validate_storage i seen [] = none
validate_storage i seen (s ∷ ss) =
    validate_mount i seen s then_check validate_storage (suc i) (s.mount_path ∷ seen) ss

-- filepath.Clean: the elements that remain, the last first.
abbrev dot_dot : List ℕ
dot_dot = 46 ∷ 46 ∷ []

abbrev go_up : Bool → List (List ℕ) → List (List ℕ)
go_up true [] = []
go_up false [] = dot_dot ∷ []
go_up rooted (top ∷ rest) = if codes_eq top dot_dot then dot_dot ∷ top ∷ rest else rest

abbrev pub step_into : Bool → List ℕ → List (List ℕ) → List (List ℕ)
step_into rooted seg stack =
    if codes_eq seg [] || codes_eq seg (46 ∷ [])
    then stack
    else if codes_eq seg dot_dot
    then go_up rooted stack
    else seg ∷ stack

abbrev walk : Bool → List (List ℕ) → List (List ℕ) → List (List ℕ)
walk rooted [] stack = stack
walk rooted (seg ∷ segs) stack = walk rooted segs (step_into rooted seg stack)

abbrev onto : List (List ℕ) → List (List ℕ) → List (List ℕ)
onto [] out = out
onto (x ∷ xs) out = onto xs (x ∷ out)

abbrev pub is_rooted : List ℕ → Bool
is_rooted [] = false
is_rooted (c ∷ cs) = nat_beq c 47

pub segments : List ℕ → List (List ℕ)
segments path = onto (walk (is_rooted path) (split 47 path) []) []

-- The elements, each after a slash.
abbrev pub slashed : List (List ℕ) → List ℕ
slashed [] = []
slashed (seg ∷ segs) = 47 ∷ (seg ++ slashed segs)

abbrev pub relative : List (List ℕ) → List ℕ
relative [] = 46 ∷ []
relative (seg ∷ segs) = seg ++ slashed segs

abbrev pub absolute : List (List ℕ) → List ℕ
absolute [] = 47 ∷ []
absolute (seg ∷ segs) = slashed (seg ∷ segs)

pub clean : List ℕ → List ℕ
clean path = if is_rooted path then absolute (segments path) else relative (segments path)

-- underMount
pub under_mount : List ℕ → List ℕ → Bool
unfolding clean
under_mount path mount =
    codes_eq (clean path) (clean mount) || has_prefix (clean path) (clean mount ++ 47 ∷ [])

-- validateStateDir
abbrev pub any_mount : String → List StorageSpec → Bool
any_mount dir [] = false
any_mount dir (s ∷ ss) = under_mount (codes dir) (codes s.mount_path) || any_mount dir ss

pub validate_state_dir : Cluster → Option ClusterError
validate_state_dir c =
    if (c.controller.instance_type == "") || (c.controller.state_dir == "")
    then none
    else refuse_if (not (any_mount c.controller.state_dir c.storage))
        (bad_state_dir c.controller.state_dir)

-- Cluster.validate
pub validate_cluster : (String → Bool) → Cluster → Option ClusterError
unfolding validate_network validate_controller validate_storage validate_state_dir
validate_cluster parses_cidr c =
    refuse_if (c.name == "") empty_name
    then_check refuse_if (c.control_account == "") empty_account
    then_check refuse_if (c.region == "") empty_region
    then_check validate_network parses_cidr c.network
    then_check validate_storage 0 [] c.storage
    then_check validate_controller c.controller
    then_check validate_state_dir c
