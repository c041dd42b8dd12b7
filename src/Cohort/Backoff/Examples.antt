-- ===== src/Cohort/Backoff/Examples.antt =====
-- A wait in the middle of its range.
