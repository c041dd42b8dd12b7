-- ===== src/Slurm/Admission.antt =====
-- internal/slurm/admission.go and resume.go: checkAdmission, recordRefusal, finish and writeback, over
-- the ports of the Bridge that they use. A rate is a whole number of a small unit. The reason that is
-- written to a node is the record whose Summary it shows. FinishedAt and StartedAt of a refusal are one time. The lines
-- that are printed are left out.
pub mod Refusal
use queuezero.Prelude.{
  ℕ, String, ◌<>◌, Bool, true, false, not, Option, none, some, List, [], ◌∷◌, ◌==◌, if◌then◌else◌,
  is_some, Result, ok, err,
}
use queuezero.Cohort.State.{Fault, FaultClass, Phase}
use queuezero.Cohort.Entity.{CapacityModel, on_demand, spot, reserved, Rung, EntityIntent}
use queuezero.Cohort.Record.{Record, succeeded}
use queuezero.Cohort.Outcome.{Outcome, put_record}
use queuezero.Spec.{Partition}

pub record AdmissionRequest : Type 0 where
  pub cluster : String
  pub partition : String
  pub account : String
  pub instance_type : String
  pub capacity_model : String
  pub count : ℕ
  pub region : String

pub record AdmissionResult : Type 0 where
  pub allowed : Bool
  pub reason : String
  pub estimated_cost : ℕ
  pub budget_remaining : ℕ
  pub transaction_id : String

-- The ports, and the fields of Config that are read here.
pub record ResumePorts (W : Type 0) : Type 0 where
  pub admit : AdmissionRequest → W → Result String AdmissionResult × W
  pub put_outcome : Option (Outcome → W → Option String × W)
  pub update_node : String → String → Record → W → Option String × W
  pub cluster : String
  pub region : String
  pub fail_mode : String

-- capacityModelString
pub capacity_model_string : CapacityModel → String
capacity_model_string spot = "spot"
capacity_model_string reserved = "reserved"
capacity_model_string on_demand = "ondemand"

-- The verdict: a refusal with its reason, or an admission with its result, which is the zero value
-- after an error of the gate.
pub data Verdict : Type 0 where
  refused : String → Verdict
  admitted : Option AdmissionResult → Verdict

abbrev pub reason_or_default : String → String
reason_or_default s = if s == "" then "budget exhausted" else s

unfoldable pub verdict_of : String → Result String AdmissionResult → Verdict
verdict_of fail_mode (err e) =
    if fail_mode == "strict"
    then refused ("admission check failed (strict): " <> e)
    else admitted none
verdict_of fail_mode (ok r) =
    if not r.allowed then refused (reason_or_default r.reason) else admitted (some r)

-- recordRefusal
abbrev pub budget_exhausted : String → Fault
budget_exhausted reason = record {
  class = FaultClass.terminal;
  code = "BudgetExhausted";
  retryable = false;
  message = reason;
}

abbrev pub refusal : String → ℕ → String → EntityIntent → Record
refusal cohort_id now reason i = record {
  entity = i.id;
  generation = i.generation;
  cohort = cohort_id;
  reached_phase = Phase.launch_acked;
  attempts = [];
  terminal = some (budget_exhausted reason);
  cohort_cancelled = none;
  parent_cancelled = none;
  started_at = now;
  finished_at = now;
}

abbrev pub refusals :
    String → ℕ → String → List EntityIntent → List (String × Record) → List (String × Record)
refusals cohort_id now reason [] m = m
refusals cohort_id now reason (i ∷ is) m =
    refusals cohort_id now reason is (put_record i.id (refusal cohort_id now reason i) m)

pub record_refusal : List EntityIntent → String → ℕ → String → Outcome
record_refusal intents cohort_id now reason = record {
  ready = false;
  records = refusals cohort_id now reason intents [];
  drained = [];
  assembled = [];
}

-- The state that writeback gives to a node, and none where it leaves the node alone.
pub node_state : Record → Option String
node_state r = if succeeded r then none else some (if is_some r.terminal then "down" else "drain")

module _ {W : Type 0} (ports : ResumePorts W) where
  -- Bridge.checkAdmission
  unfoldable pub check_admission : Partition → Rung → ℕ → W → Verdict × W
  unfolding verdict_of capacity_model_string
  check_admission part rung count w =
      let (r, w') =
        ports.admit
          (record {
            cluster = ports.cluster;
            partition = part.name;
            account = part.execution_account;
            instance_type = rung.instance_type;
            capacity_model = capacity_model_string rung.capacity_model;
            count = count;
            region = ports.region;
          })
          w in
      (verdict_of ports.fail_mode r, w')

  -- Bridge.writeback: errors of UpdateNode are dropped.
  update : Record → Option String → W → W
  update r none w = w
  update r (some state) w = (ports.update_node r.entity state r w).1

  pub writeback : List (String × Record) → W → W
  unfolding update node_state
  writeback [] w = w
  writeback ((id, r) ∷ rest) w = writeback rest (update r (node_state r) w)

  -- Bridge.finish: an error of PutOutcome is only printed.
  persist : Option (Outcome → W → Option String × W) → Outcome → W → W
  persist none out w = w
  persist (some put) out w = (put out w).1

  pub finish : Outcome → W → W
  unfolding persist writeback
  finish out w = writeback out.records (persist ports.put_outcome out w)
