-- ===== src/Spored/Converges.antt =====
-- What is read of what was written.
use queuezero.Prelude.{
  ◌≡◌, refl, ◌∙◌, String, Bool, true, false, ◌&&◌, Option, none, some, List, [], ◌∷◌, if◌then◌else◌,
}
use queuezero.Cohort.Entity.{Readiness}
use queuezero.Spored.{
  Tags, get_tag, has_tag, failures, Report, report_of, evaluate, bool_str, report_tags, parse_bool,
  is_enrolled, readiness_of,
}

-- ReadReadiness of the three tags.
abbrev read_of : String → String → String → Readiness
read_of phase ready detail =
    let mounted = is_enrolled phase in
    record { enrolled = parse_bool ready && mounted; operational = mounted; detail = detail }

-- CreateTags, as EC2 documents it: a tag that is written reads as written, any other as before.
abbrev pub Overwrites : (Tags → Tags → Tags) → Type 0
Overwrites create =
    (new old : Tags) (k : String)
    → get_tag k (create new old) ≡ (if has_tag k new then get_tag k new else get_tag k old)

reads_report :
    (create : Tags → Tags → Tags)
    → Overwrites create
    → (r : Report) (old : Tags)
    → readiness_of (create (report_tags r) old) ≡ read_of r.phase (bool_str r.ready) r.detail
unfolding readiness_of report_tags
reads_report create over r old = rw (
  over (report_tags r) old "q0:phase",
  over (report_tags r) old "q0:ready",
  over (report_tags r) old "q0:detail",
)

abbrev pub no_failure : List (String × Option String) → Bool
no_failure [] = true
no_failure ((name, none) ∷ rest) = no_failure rest
no_failure ((name, some e) ∷ rest) = false

abbrev pub told : Bool → String → Readiness
told b detail = record { enrolled = b; operational = b; detail = detail }

report_told :
    (probes : List (String × Option String))
    → (let r = report_of (failures probes) in read_of r.phase (bool_str r.ready) r.detail)
      ≡ told (no_failure probes) (report_of (failures probes)).detail
report_told [] = refl
report_told ((name, none) ∷ rest) = report_told rest
report_told ((name, some e) ∷ rest) = refl

-- Where CreateTags overwrites, and whatever tags an instance had before: what ReadReadiness computes
-- after spored's report is operational and enrolled exactly when no probe failed, with the detail of the
-- report.
pub report_read :
    (create : Tags → Tags → Tags)
    → Overwrites create
    → (probes : List (String × Option String)) (old : Tags)
    → readiness_of (create (report_tags (evaluate probes)) old)
      ≡ told (no_failure probes) (evaluate probes).detail
unfolding evaluate
report_read create over probes old =
    reads_report create over (report_of (failures probes)) old ∙ report_told probes
