-- ===== src/Spec/Cluster/Coherent.antt =====
-- What validation promises of a cluster.
use queuezero.Prelude.{
  ℕ, suc, ◌≡◌, ◌≢◌, ◌⊎◌, refl, ap, String, Bool, true, false, Option, none, some, List, [], ◌∷◌,
  arith, All, Bool-cases, inl, inr, if◌then◌else◌, ◌==◌, eq_iff,
}
use queuezero.Spec.{mem_name}
use queuezero.Spec.Cluster.{
  NetworkSpec, ControllerSpec, StorageSpec, Cluster, ClusterError, ◌then_check◌, refuse_if, is_nil,
  one_of, validate_network, is_zero, validate_controller, capacity_ok, validate_fsx_lustre,
  validate_mount, validate_storage, any_mount, validate_state_dir, validate_cluster,
}

-- A network that can be generated, or one that is brought along.
pub record IsNetwork (parses_cidr : String → Bool) (n : NetworkSpec) : Type 0 where
  pub egress : one_of n.egress ("" ∷ "nat-gateway" ∷ "nat-instance" ∷ "endpoints-only" ∷ []) ≡ true
  pub brought : n.byo ≡ true → (n.vpc_id ≢ "") × (n.subnet_ids ≢ [])
  pub generated : n.byo ≡ false → (n.cidr ≢ "") × (parses_cidr n.cidr ≡ true)

not_nil : (xs : List String) → is_nil xs ≡ false → xs ≢ []
not_nil xs h e = let q : is_nil xs ≡ true = ap is_nil e in absurd cc

validate_network-IsNetwork :
    (f : String → Bool) (n : NetworkSpec) → validate_network f n ≡ none → IsNetwork f n
unfolding validate_network
validate_network-IsNetwork f n h = record {
  egress = ground arith;
  brought = λ byo. (ground (arith, eq_iff n.vpc_id ""), not_nil n.subnet_ids (ground arith));
  generated = λ own. (ground (arith, eq_iff n.cidr ""), ground arith);
}

-- No controller, or one with an instance type and an image.
abbrev pub IsController : ControllerSpec → Type 0
IsController c = (is_zero c ≡ true) ⊎ ((c.instance_type ≢ "") × (c.ami_hash ≢ ""))

validate_controller-IsController :
    (c : ControllerSpec) → validate_controller c ≡ none → IsController c
unfolding validate_controller
validate_controller-IsController c h = elim (Bool-cases (is_zero c)) [
  | inl e ↦ inl e
  | inr e ↦ inr (ground (arith, eq_iff c.instance_type ""), ground (arith, eq_iff c.ami_hash ""))
]

-- A storage entry that can be generated, at a mount path that no other has.
pub record IsMount (s : StorageSpec) : Type 0 where
  pub placed : s.mount_path ≢ ""
  pub known : (s.kind ≡ "efs") ⊎ (s.kind ≡ "fsx-lustre")
  pub sized : s.kind ≡ "fsx-lustre" → capacity_ok s.capacity_gib ≡ true

validate_fsx-sized :
    (i : ℕ) (s : StorageSpec) → validate_fsx_lustre i s ≡ none → capacity_ok s.capacity_gib ≡ true
unfolding validate_fsx_lustre
validate_fsx-sized i s h = ground arith

validate_mount-IsMount :
    (i : ℕ) (seen : List String) (s : StorageSpec)
    → validate_mount i seen s ≡ none
    → IsMount s × (mem_name s.mount_path seen ≡ false)
unfolding validate_mount
validate_mount-IsMount i seen s h =
    let fsx : (if s.kind == "fsx-lustre" then validate_fsx_lustre i s else none) ≡ none =
      ground arith in
    (
      record {
        placed = ground (arith, eq_iff s.mount_path "");
        known = known_kind (ground arith);
        sized = λ q. validate_fsx-sized i s (sized q fsx);
      },
      ground arith,
    )
  where
    known_kind :
        one_of s.kind ("efs" ∷ "fsx-lustre" ∷ []) ≡ true
        → (s.kind ≡ "efs") ⊎ (s.kind ≡ "fsx-lustre")
    known_kind k = elim (Bool-cases (s.kind == "efs")) [
      | inl e ↦ inl ((eq_iff s.kind "efs").0 e)
      | inr e ↦ inr ((eq_iff s.kind "fsx-lustre").0 (ground arith))
    ]

    sized :
        s.kind ≡ "fsx-lustre"
        → (if s.kind == "fsx-lustre" then validate_fsx_lustre i s else none) ≡ none
        → validate_fsx_lustre i s ≡ none
    sized q k = ground (arith, eq_iff s.kind "fsx-lustre")

-- The mount paths of the entries differ from each other and from those that were seen.
abbrev pub AllDiffer : List String → List StorageSpec → Type 0
AllDiffer seen [] = Unit {0}
AllDiffer seen (s ∷ ss) = (mem_name s.mount_path seen ≡ false) × AllDiffer (s.mount_path ∷ seen) ss

validate_storage-All :
    (i : ℕ) (seen : List String) (ss : List StorageSpec)
    → validate_storage i seen ss ≡ none
    → All IsMount ss × AllDiffer seen ss
unfolding validate_storage
validate_storage-All i seen [] h = (tt, tt)
validate_storage-All i seen (s ∷ ss) h =
    let (mount, new) = validate_mount-IsMount i seen s (ground arith) in
    let (mounts, differ) = validate_storage-All (suc i) (s.mount_path ∷ seen) ss (ground arith) in
    ((mount, mounts), (new, differ))

-- The state of a controller lies under one of the mounts.
abbrev pub IsDurable : Cluster → Type 0
IsDurable c =
    (c.controller.instance_type ≡ "")
    ⊎ (c.controller.state_dir ≡ "")
    ⊎ (any_mount c.controller.state_dir c.storage ≡ true)

validate_state_dir-IsDurable : (c : Cluster) → validate_state_dir c ≡ none → IsDurable c
unfolding validate_state_dir
validate_state_dir-IsDurable c h = elim (Bool-cases (c.controller.instance_type == "")) [
  | inl e ↦ inl ((eq_iff c.controller.instance_type "").0 e)
  | inr e ↦ elim (Bool-cases (c.controller.state_dir == "")) [
    | inl d ↦ inr (inl ((eq_iff c.controller.state_dir "").0 d))
    | inr d ↦ inr (inr (ground arith))
  ]
]

-- Both of two checks that follow one another pass.
both : (a rest : Option ClusterError) → (a then_check rest) ≡ none → (a ≡ none) × (rest ≡ none)
both none rest h = (refl, h)
both (some e) rest h = absurd (ground arith)

filled : (s : String) (e : ClusterError) → refuse_if (s == "") e ≡ none → s ≢ ""
filled s e h = ground (arith, eq_iff s "")

-- A cluster that can be provisioned.
pub record IsCoherent (parses_cidr : String → Bool) (c : Cluster) : Type 0 where
  pub named : (c.name ≢ "") × (c.control_account ≢ "") × (c.region ≢ "")
  pub network : IsNetwork parses_cidr c.network
  pub storage : All IsMount c.storage × AllDiffer [] c.storage
  pub controller : IsController c.controller
  pub durable : IsDurable c

-- A cluster that validates has a name, an account and a region; a network that is brought along with a VPC
-- and subnets, or has a CIDR that parses; storage of known kinds at mount paths that differ, with a
-- capacity of FSx that is a multiple of 1200; no controller, or one with an instance type and an image;
-- and the state of a controller under one of the mounts.
pub validate_cluster-IsCoherent :
    (parses_cidr : String → Bool) (c : Cluster)
    → validate_cluster parses_cidr c ≡ none
    → IsCoherent parses_cidr c
unfolding validate_cluster
validate_cluster-IsCoherent f c h =
    let (name, after_name) = both _ _ h in
    let (account, after_account) = both _ _ after_name in
    let (region, after_region) = both _ _ after_account in
    let (network, after_network) = both _ _ after_region in
    let (storage, after_storage) = both _ _ after_network in
    let (controller, state_dir) = both _ _ after_storage in
    record {
      named = (filled c.name _ name, filled c.control_account _ account, filled c.region _ region);
      network = validate_network-IsNetwork f c.network network;
      storage = validate_storage-All 0 [] c.storage storage;
      controller = validate_controller-IsController c.controller controller;
      durable = validate_state_dir-IsDurable c state_dir;
    }
