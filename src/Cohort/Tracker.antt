-- ===== src/Cohort/Tracker.antt =====
-- internal/cohort/reconcile.go: `entityTracker`, the state of one entity while its cohort is
-- reconciled, and its setters. A tracker's mutex makes each of them atomic. A time is an argument.
use queuezero.Prelude.{
  ℕ, String, ◌<>◌, Bool, true, false, Option, none, some, List, [], ◌∷◌, ◌++◌, is_some,
}
use queuezero.Cohort.State.{Fault, FaultClass, Phase, phase_name, LifecycleState}
use queuezero.Cohort.Entity.{EntityIntent, Rung, Observation, on_demand}
use queuezero.Cohort.Record.{Attempt, CohortCancelInfo, ParentCancelInfo, Record}

pub record Tracker : Type 0 where
  pub intent : EntityIntent
  pub phase : Phase
  pub enrolled : Bool
  pub attempts : List Attempt
  pub terminal : Option Fault
  pub cohort_cancelled : Option CohortCancelInfo
  pub parent_cancelled : Option ParentCancelInfo
  pub obs : Observation
  pub started_at : ℕ

-- The zero values of the two structs.
abbrev zero_rung : Rung
zero_rung = record {
  instance_type = "";
  avail_zone = "";
  capacity_model = on_demand;
  account_id = "";
  warm_start = false;
}

abbrev pub zero_observation : Observation
zero_observation = record {
  id = "";
  generation = "";
  state = LifecycleState.unknown;
  provider_id = "";
  rung = zero_rung;
  address = "";
  observed_at = 0;
}

-- The tracker that Reconcile makes for a member.
abbrev pub new_tracker : ℕ → EntityIntent → Tracker
new_tracker now m = record {
  intent = m;
  phase = Phase.launch_acked;
  enrolled = false;
  attempts = [];
  terminal = none;
  cohort_cancelled = none;
  parent_cancelled = none;
  obs = zero_observation;
  started_at = now;
}

abbrev pub add_attempt : Rung → Phase → Option Fault → ℕ → Tracker → Tracker
add_attempt rung phase f now t = record t {
  attempts = t.attempts ++ record { rung = rung; phase = phase; fault = f; at = now } ∷ [];
}

abbrev pub set_terminal : Phase → Fault → Tracker → Tracker
set_terminal phase f t = record t { phase = phase; terminal = some f }

abbrev pub set_phase : Phase → Tracker → Tracker
set_phase p t = record t { phase = p }

abbrev pub is_terminal : Tracker → Bool
is_terminal t = is_some t.terminal

abbrev pub set_enrolled : Tracker → Tracker
set_enrolled t = record t { enrolled = true }

abbrev pub set_obs : Observation → Tracker → Tracker
set_obs o t = record t { obs = o }

abbrev pub set_cohort_cancelled : CohortCancelInfo → Tracker → Tracker
set_cohort_cancelled info t = record t {
  cohort_cancelled = some (record info { survivor_phase = t.phase });
}

abbrev pub set_parent_cancelled : String → Tracker → Tracker
set_parent_cancelled cause t = record t {
  parent_cancelled = some (record { survivor_phase = t.phase; cause = cause });
}

-- An attempt with a fault, which ends the entity.
abbrev pub fail_attempt : Phase → Fault → ℕ → Tracker → Tracker
fail_attempt phase f now t = set_terminal phase f (add_attempt t.intent.rung phase (some f) now t)

-- Reconciler.recordDeadline
pub deadline_fault : Phase → Fault
deadline_fault phase = record {
  class = FaultClass.terminal;
  code = "PhaseBudgetExceeded";
  retryable = false;
  message = "phase " <> (phase_name phase <> " budget exceeded");
}

abbrev pub record_deadline : Phase → ℕ → Tracker → Tracker
record_deadline phase now t = fail_attempt phase (deadline_fault phase) now t

-- Reconciler.buildRecord
abbrev pub build_record : String → ℕ → Tracker → Record
build_record cohort_id now t = record {
  entity = t.intent.id;
  generation = t.intent.generation;
  cohort = cohort_id;
  reached_phase = t.phase;
  attempts = t.attempts;
  terminal = t.terminal;
  cohort_cancelled = t.cohort_cancelled;
  parent_cancelled = t.parent_cancelled;
  started_at = t.started_at;
  finished_at = now;
}
