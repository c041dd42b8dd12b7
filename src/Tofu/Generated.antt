-- ===== src/Tofu/Generated.antt =====
-- What the templates of a cluster that validates are given.
use Prim.Native.Nat.{◌%◌}
use queuezero.Prelude.{◌≡◌, ◌≢◌, ◌<◌, ℤ, pos, ℕ, suc, ◌+◌, true, List, [], ◌∷◌}
use queuezero.Spec.Cluster.{Cluster, StorageSpec, one_of}
use queuezero.Tofu.{StorageTmpl, TemplateData}

-- A capacity that FSx takes: a multiple of 1200, and not zero.
abbrev pub IsCapacity : ℤ → Type 0
IsCapacity z = (n : ℕ) × (z ≡ pos n) × (0 < n) × (n % 1200 ≡ 0)

-- The entry of a template for one of the cluster's.
pub record IsEntry (i : ℕ) (s : StorageSpec) (t : StorageTmpl) : Type 0 where
  pub index : t.index ≡ i
  pub kind : t.kind ≡ s.kind
  pub mount_path : t.mount_path ≡ s.mount_path
  pub sized : t.kind ≡ "fsx-lustre" → IsCapacity t.capacity_gib

abbrev pub AreEntries : ℕ → List StorageSpec → List StorageTmpl → Type 0
AreEntries i [] [] = Unit {0}
AreEntries i [] (t ∷ ts) = ⊥
AreEntries i (s ∷ ss) [] = ⊥
AreEntries i (s ∷ ss) (t ∷ ts) = IsEntry i s t × AreEntries (i + 1) ss ts

-- An egress mode that the templates tell apart, and at least one availability zone.
pub record IsRenderable (d : TemplateData) : Type 0 where
  pub egress : one_of d.egress_mode ("nat-gateway" ∷ "nat-instance" ∷ "endpoints-only" ∷ []) ≡ true
  pub zones : (n : ℕ) × (d.az_count ≡ pos (suc n))
  pub named : (d.node_role ≢ "") × (d.admin_cidr ≢ "")
