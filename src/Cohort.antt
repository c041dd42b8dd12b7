-- ===== src/Cohort.antt =====
-- The reconciliation core, internal/cohort.
pub mod State
pub mod Entity
pub mod Build
pub mod Record
pub mod Tracker
pub mod Backoff
pub mod Launch
pub mod Frame
pub mod Phases
pub mod Race
pub mod Outcome
