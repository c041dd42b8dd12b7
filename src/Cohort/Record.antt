-- ===== src/Cohort/Record.antt =====
-- internal/cohort/explain.go: the record that a reconciled entity carries, and its tests. Times are
-- nanoseconds since a fixed instant. The texts of Summary and Explain are not modelled.
use queuezero.Prelude.{ℕ, String, Bool, true, false, not, ◌&&◌, Option, List, is_some}
use queuezero.Cohort.State.{Fault, Phase}
use queuezero.Cohort.Entity.{Rung}

-- A `Fault` pointer is `none` where it is nil.
pub record Attempt : Type 0 where
  pub rung : Rung
  pub phase : Phase
  pub fault : Option Fault
  pub at : ℕ

pub record CohortCancelInfo : Type 0 where
  pub culprit_id : String
  pub culprit_fault : Fault
  pub culprit_phase : Phase
  pub at : ℕ
  pub survivor_phase : Phase

pub record ParentCancelInfo : Type 0 where
  pub survivor_phase : Phase
  pub cause : String

pub record Record : Type 0 where
  pub entity : String
  pub generation : String
  pub cohort : String
  pub reached_phase : Phase
  pub attempts : List Attempt
  pub terminal : Option Fault
  pub cohort_cancelled : Option CohortCancelInfo
  pub parent_cancelled : Option ParentCancelInfo
  pub started_at : ℕ
  pub finished_at : ℕ

abbrev pub is_ready : Phase → Bool
is_ready Phase.ready = true
is_ready Phase.launch_acked = false
is_ready Phase.running = false
is_ready Phase.enrolled = false
is_ready Phase.cohort_barrier = false
is_ready Phase.cohort_assembly = false

-- Record.Succeeded, WasCohortCancelled and WasParentCancelled
abbrev pub succeeded : Record → Bool
succeeded r =
    not (is_some r.terminal)
    && (not (is_some r.cohort_cancelled)
        && (not (is_some r.parent_cancelled) && is_ready r.reached_phase))

abbrev pub was_cohort_cancelled : Record → Bool
was_cohort_cancelled r = is_some r.cohort_cancelled

abbrev pub was_parent_cancelled : Record → Bool
was_parent_cancelled r = is_some r.parent_cancelled
