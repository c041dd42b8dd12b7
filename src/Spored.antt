-- ===== src/Spored.antt =====
-- internal/spored/reporter.go and internal/tags: one report of the node, and internal/substrate/aws's
-- ReadReadiness, which reads it. A probe is its name with the text of its error, if it failed. A map of
-- tags is the list of its entries, and a key that it has not reads as the empty text. CreateTags of EC2
-- is a parameter of the theorems. Run has Reporter.Run. Identify and the probes themselves are not modelled.
pub mod Converges
pub mod Ready
pub mod Run
pub mod Examples
use queuezero.Prelude.{
  ℕ, String, ◌<>◌, Bool, true, false, ◌||◌, ◌&&◌, Option, none, some, List, [], ◌∷◌, ◌==◌,
  if◌then◌else◌, Result, ok, err,
}
use queuezero.Prelude.Texts.{codes, codes_eq, to_lower}
use queuezero.Cohort.Entity.{Readiness}
use queuezero.Aws.Errors.{GoError}
use queuezero.Aws.Client.{Instance}
use queuezero.Aws.Actuator.{entity_filter}

abbrev pub Tags : Type 0
Tags = List (String × String)

abbrev pub get_tag : String → Tags → String
get_tag k [] = ""
get_tag k ((j, v) ∷ rest) = if j == k then v else get_tag k rest

abbrev pub has_tag : String → Tags → Bool
has_tag k [] = false
has_tag k ((j, v) ∷ rest) = (j == k) || has_tag k rest

-- The failed probes, as `name: error`.
abbrev note : String → Option String → List String → List String
note name none rest = rest
note name (some e) rest = (name <> (": " <> e)) ∷ rest

abbrev pub failures : List (String × Option String) → List String
failures [] = []
failures ((name, e) ∷ rest) = note name e (failures rest)

abbrev join : List String → String
join [] = ""
join (s ∷ []) = s
join (s ∷ t ∷ rest) = s <> ("; " <> join (t ∷ rest))

pub record Report : Type 0 where
  pub phase : String
  pub ready : Bool
  pub detail : String

abbrev pub report_of : List String → Report
report_of [] = record { phase = "enrolled"; ready = true; detail = "all probes ok" }
report_of (f ∷ fs) = record { phase = "booting"; ready = false; detail = join (f ∷ fs) }

-- Reporter.evaluate
pub evaluate : List (String × Option String) → Report
evaluate probes = report_of (failures probes)

abbrev pub bool_str : Bool → String
bool_str true = "true"
bool_str false = "false"

-- The tags that ReportOnce writes.
pub report_tags : Report → Tags
report_tags r =
    ("q0:phase", r.phase) ∷ ("q0:ready", bool_str r.ready) ∷ ("q0:detail", r.detail) ∷ []

-- strconv.ParseBool, with an error read as false.
abbrev pub parse_bool : String → Bool
parse_bool s =
    (s == "1") || (s == "t") || (s == "T") || (s == "TRUE") || (s == "true") || (s == "True")

-- strings.EqualFold with the phase `enrolled`.
abbrev pub is_enrolled : String → Bool
is_enrolled s = codes_eq (to_lower (codes s)) (codes "enrolled")

pub readiness_of : Tags → Readiness
readiness_of tags =
    let mounted = is_enrolled (get_tag "q0:phase" tags) in
    record {
      enrolled = parse_bool (get_tag "q0:ready" tags) && mounted;
      operational = mounted;
      detail = get_tag "q0:detail" tags;
    }

abbrev not_ready : Readiness
not_ready = record { enrolled = false; operational = false; detail = "" }

pub record TagReader (W : Type 0) : Type 0 where
  pub describe_by_tag : Tags → W → Result GoError (List Instance) × W
  pub tags_by_id : String → W → Result GoError Tags × W

abbrev from_tags : {W : Type 0} → Result GoError Tags × W → Readiness × W
from_tags (err e, w) = (not_ready, w)
from_tags (ok tags, w) = (readiness_of tags, w)

abbrev of_first : {W : Type 0} → TagReader W → Result GoError (List Instance) × W → Readiness × W
of_first reader (err e, w) = (not_ready, w)
of_first reader (ok [], w) = (not_ready, w)
of_first reader (ok (i ∷ is), w) = from_tags (reader.tags_by_id i.provider_id w)

-- Observer.ReadReadiness, which returns no error.
pub read_readiness : {W : Type 0} → TagReader W → String → String → W → Readiness × W
unfolding readiness_of
read_readiness reader cluster id w =
    of_first reader (reader.describe_by_tag (entity_filter cluster id) w)
