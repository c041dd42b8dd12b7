-- ===== src/Cohort/State.antt =====
-- internal/cohort/state.go: lifecycle states, fault classes, faults and phases. An integer outside
-- the constants of an enumeration, which its String method renders by the default case, is not a
-- value here.
use queuezero.Prelude.{String, Bool}

pub data LifecycleState : Type 0 where
  unknown absent launching running stopped hibernated draining failed : LifecycleState

pub lifecycle_name : LifecycleState → String
lifecycle_name LifecycleState.absent = "absent"
lifecycle_name LifecycleState.launching = "launching"
lifecycle_name LifecycleState.running = "running"
lifecycle_name LifecycleState.stopped = "stopped"
lifecycle_name LifecycleState.hibernated = "hibernated"
lifecycle_name LifecycleState.draining = "draining"
lifecycle_name LifecycleState.failed = "failed"
lifecycle_name LifecycleState.unknown = "unknown"

pub data StopMode : Type 0 where
  warm hibernate : StopMode

pub data FaultClass : Type 0 where
  retryable_consistency throttle capacity_exhausted terminal ambiguous : FaultClass

pub class_name : FaultClass → String
class_name FaultClass.retryable_consistency = "retryable-consistency"
class_name FaultClass.throttle = "throttle"
class_name FaultClass.capacity_exhausted = "capacity-exhausted"
class_name FaultClass.terminal = "terminal"
class_name FaultClass.ambiguous = "ambiguous"

pub record Fault : Type 0 where
  pub class : FaultClass
  pub code : String
  pub retryable : Bool
  pub message : String

pub data Phase : Type 0 where
  launch_acked running enrolled cohort_barrier cohort_assembly ready : Phase

pub phase_name : Phase → String
phase_name Phase.launch_acked = "launch-acked"
phase_name Phase.running = "running"
phase_name Phase.enrolled = "enrolled"
phase_name Phase.cohort_barrier = "cohort-barrier"
phase_name Phase.cohort_assembly = "cohort-assembly"
phase_name Phase.ready = "ready"
