-- ===== src/Tofu.antt =====
-- internal/tofu/generate.go: GenerateClusterFoundation up to the templates, and what they are given. The
-- templates are a parameter, which renders the file of a name or fails; `names` is the order in which Go
-- walks the map of them. A token is the list of its codes. Writing the files is not modelled.
pub mod Generated
pub mod Backend
pub mod Examples
use queuezero.Prelude.{
  ℤ, pos, negsuc, ℕ, zero, suc, ◌+◌, String, Bool, true, false, ◌||◌, Option, none, some, List, [],
  ◌∷◌, ◌++◌, ◌==◌, if◌then◌else◌, Result, ok, err,
}
use queuezero.Prelude.Texts.{codes, decimal}
use queuezero.Spec.Cluster.{Cluster, StorageSpec}

pub record FoundationOpts : Type 0 where
  pub scripts_bucket : String
  pub manifest_bucket : String
  pub node_role_name : String
  pub az_count : ℤ
  pub admin_cidr : String

-- storageTmpl
pub record StorageTmpl : Type 0 where
  pub index : ℕ
  pub kind : String
  pub mount_path : String
  pub token : List ℕ
  pub capacity_gib : ℤ
  pub deployment_type : String
  pub s3_import_path : String

pub record TemplateData : Type 0 where
  pub cluster : Cluster
  pub name : String
  pub region : String
  pub scripts_bucket : String
  pub manifest_bucket : String
  pub node_role : String
  pub controller_role : String
  pub az_count : ℤ
  pub admin_cidr : String
  pub storage : List StorageTmpl
  pub has_efs : Bool
  pub has_lustre : Bool
  pub egress_mode : String

pub data GenerateError : Type 0 where
  nil_cluster no_scripts_bucket : GenerateError
  unknown_kind : ℕ → String → GenerateError
  not_rendered : String → String → GenerateError

abbrev pub or_default : String → String → String
or_default s d = if s == "" then d else s

abbrev capacity_or_default : ℤ → ℤ
capacity_or_default (pos zero) = pos 1200
capacity_or_default (pos (suc n)) = pos (suc n)
capacity_or_default (negsuc n) = negsuc n

abbrev pub efs_of : String → ℕ → StorageSpec → StorageTmpl
efs_of name i s = record {
  index = i;
  kind = "efs";
  mount_path = s.mount_path;
  token = codes name ++ (codes "-efs-" ++ decimal i);
  capacity_gib = pos 0;
  deployment_type = "";
  s3_import_path = "";
}

abbrev pub lustre_of : String → ℕ → StorageSpec → StorageTmpl
lustre_of name i s = record {
  index = i;
  kind = "fsx-lustre";
  mount_path = s.mount_path;
  token = codes name ++ (codes "-fsx-" ++ decimal i);
  capacity_gib = capacity_or_default s.capacity_gib;
  deployment_type = or_default s.deployment_type "SCRATCH_2";
  s3_import_path = s.s3_linkage;
}

-- One entry, for the template.
pub entry_of : String → ℕ → StorageSpec → Result GenerateError StorageTmpl
entry_of name i s =
    if s.kind == "efs"
    then ok (efs_of name i s)
    else if s.kind == "fsx-lustre"
    then ok (lustre_of name i s)
    else err (unknown_kind i s.kind)

abbrev pub and_rest :
    Result GenerateError StorageTmpl
    → Result GenerateError (List StorageTmpl)
    → Result GenerateError (List StorageTmpl)
and_rest (err e) rest = err e
and_rest (ok t) (err e) = err e
and_rest (ok t) (ok ts) = ok (t ∷ ts)

-- buildStorage: the entries; the first of an unknown kind ends it.
pub storage_from : String → ℕ → List StorageSpec → Result GenerateError (List StorageTmpl)
unfolding entry_of
storage_from name i [] = ok []
storage_from name i (s ∷ ss) = and_rest (entry_of name i s) (storage_from name (i + 1) ss)

-- hasEFS and hasLustre
abbrev pub any_of : String → List StorageTmpl → Bool
any_of kind [] = false
any_of kind (t ∷ ts) = (t.kind == kind) || any_of kind ts

-- resolveEgressMode
abbrev pub resolve_egress_mode : String → String
resolve_egress_mode mode = or_default mode "nat-gateway"

abbrev az_count_or_default : ℤ → ℤ
az_count_or_default (pos zero) = pos 2
az_count_or_default (pos (suc n)) = pos (suc n)
az_count_or_default (negsuc n) = pos 2

abbrev pub template_data : Cluster → FoundationOpts → List StorageTmpl → TemplateData
template_data c opts storage = record {
  cluster = c;
  name = c.name;
  region = c.region;
  scripts_bucket = opts.scripts_bucket;
  manifest_bucket = opts.manifest_bucket;
  node_role = or_default opts.node_role_name "q0-node";
  controller_role = "q0-controller";
  az_count = az_count_or_default opts.az_count;
  admin_cidr = or_default opts.admin_cidr "0.0.0.0/0";
  storage = storage;
  has_efs = any_of "efs" storage;
  has_lustre = any_of "fsx-lustre" storage;
  egress_mode = resolve_egress_mode c.network.egress;
}

abbrev pub Files : Type 0
Files = List (String × String)

module _ (render : String → TemplateData → Result String String) (names : List String) where
  abbrev and_file :
      String → Result String String → Result GenerateError Files → Result GenerateError Files
  and_file name (err e) files = err (not_rendered name e)
  and_file name (ok content) (err e) = err e
  and_file name (ok content) (ok files) = ok ((name, content) ∷ files)

  pub render_all : List String → TemplateData → Result GenerateError Files
  render_all [] d = ok []
  render_all (n ∷ ns) d = and_file n (render n d) (render_all ns d)

  on_storage :
      Cluster
      → FoundationOpts
      → Result GenerateError (List StorageTmpl)
      → Result GenerateError Files
  unfolding render_all
  on_storage c opts (err e) = err e
  on_storage c opts (ok storage) = render_all names (template_data c opts storage)

  -- GenerateClusterFoundation
  pub generate_cluster_foundation : Option Cluster → FoundationOpts → Result GenerateError Files
  unfolding on_storage storage_from
  generate_cluster_foundation none opts = err nil_cluster
  generate_cluster_foundation (some c) opts =
      if opts.scripts_bucket == ""
      then err no_scripts_bucket
      else on_storage c opts (storage_from c.name 0 c.storage)
