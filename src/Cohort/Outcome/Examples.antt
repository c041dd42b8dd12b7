-- ===== src/Cohort/Outcome/Examples.antt =====
-- Outcomes of the two interleavings of the cohort `duo`.
use queuezero.Prelude.{◌≤◌, ◌≡◌, refl, String, false, true, List, none, some, All, Option}
use queuezero.Prelude.Counting.{count_if}
use queuezero.Cohort.Entity.{Observation}
use queuezero.Cohort.Build.Examples.{duo, duo-IsViable}
use queuezero.Cohort.Launch.Examples.{same}
use queuezero.Cohort.Race.{finish, critical, blame, min_viable_of}
use queuezero.Cohort.Race.Examples.{both_done, both_reached, both_up, both_up_reached}
use queuezero.Cohort.Outcome.{
  conclude, gate, on_open_gate, on_assembled, enrolled_count, trackers_of,
}
use queuezero.Cohort.Build.{is_collective}
use queuezero.Cohort.Outcome.Labels.{HasOneStory, records_tell_one}
use queuezero.Cohort.Outcome.Draining.{is_stopped, Drains, conclude-Drains}
use queuezero.Cohort.Outcome.Readiness.{is_sound, ready_is_sound}

-- An assembler that succeeds.
abbrev joins : List Observation → Option String
joins os = none

records_tell_one_example : All HasOneStory (conclude duo 20 (some joins) both_done).records
records_tell_one_example =
    records_tell_one false false same 0 duo both_done duo-IsViable both_reached 20 (some joins)

both_up_is_ready : (conclude duo 20 (some joins) both_up).ready ≡ true
unfolding conclude gate on_open_gate on_assembled enrolled_count is_collective finish critical blame
    min_viable_of
both_up_is_ready = refl

ready_is_sound_example :
    (both_up.fast_failed ≡ false)
    × (both_up.parent ≡ none)
    × (min_viable_of duo ≤ count_if is_sound both_up.members)
ready_is_sound_example =
    ready_is_sound false false same 0 duo both_up duo-IsViable both_up_reached 20 (some joins)
      both_up_is_ready

conclude-Drains_example :
    Drains
      (is_stopped duo both_done)
      (trackers_of both_done)
      (conclude duo 20 (some joins) both_done)
conclude-Drains_example = conclude-Drains duo 20 (some joins) both_done
