-- ===== src/Tofu/Examples.antt =====
-- The foundation of a cluster.
use queuezero.Prelude.{pos, String, Result, ok}
use queuezero.Tofu.{FoundationOpts, TemplateData}

abbrev opts : FoundationOpts
opts = record {
  scripts_bucket = "scripts";
  manifest_bucket = "manifests";
  node_role_name = "";
  az_count = pos 0;
  admin_cidr = "";
}

abbrev render : String → TemplateData → Result String String
render name d = ok d.region
