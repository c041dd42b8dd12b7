-- ===== src/Cohort/Race/Examples.antt =====
-- Interleavings of the two goroutines of the cohort `duo`.
use queuezero.Prelude.{◌<◌, ◌≡◌, ◌≢◌, refl, false, true, arith}
use queuezero.Prelude.Counting.{count_if}
use queuezero.Cohort.Build.Examples.{duo, duo-IsViable}
use queuezero.Cohort.Launch.Examples.{same, fresh, refused}
use queuezero.Cohort.Phases.Examples.{smooth, rejected, smooth_run, rejected_run, at_work}
use queuezero.Cohort.Race.{Race, finish, critical, blame, min_viable_of, start_race}
use queuezero.Cohort.Race.Steps.{Step, Reach, here, next, end_member}
use queuezero.Cohort.Race.Gate.{enrolled, gate_after_fast_fail, culprit_of_shut_gate}

abbrev pub start : Race
start = start_race 0 duo

-- The member `a` is refused by the provider, and then `b` comes up.
abbrev pub one_down : Race
one_down = finish 2 0 6 (refused (fresh "a")).tracker start

abbrev pub both_done : Race
both_done = finish 2 1 8 (at_work (fresh "b")) one_down

first-Step : Step false false same 2 start one_down
first-Step = end_member 0 6 rejected _ _ refl refl (rejected_run "a") (λ e. absurd cc) refl

second-Step : Step false false same 2 one_down both_done
unfolding finish critical blame
second-Step =
    end_member 1 8 smooth (record { tracker = fresh "b"; done = false }) _ refl refl
      (smooth_run "b") (λ e. absurd cc) refl

pub both_reached : Reach false false same (min_viable_of duo) start both_done
unfolding min_viable_of
both_reached = next (next here first-Step) second-Step

gate_after_fast_fail_example : count_if enrolled both_done.members < min_viable_of duo
unfolding finish critical blame
gate_after_fast_fail_example =
    gate_after_fast_fail false false same 0 duo both_done duo-IsViable both_reached refl

culprit_of_shut_gate_example : (both_done.culprit.id ≢ "") × (both_done.fast_failed ≡ true)
unfolding finish critical blame min_viable_of
culprit_of_shut_gate_example =
    culprit_of_shut_gate false false same 0 duo both_done duo-IsViable both_reached
      (refl, (refl, tt)) refl (omega arith)

-- Both members come up.
abbrev pub one_up : Race
one_up = finish 2 0 6 (at_work (fresh "a")) start

abbrev pub both_up : Race
both_up = finish 2 1 8 (at_work (fresh "b")) one_up

up_first : Step false false same 2 start one_up
up_first = end_member 0 6 smooth _ _ refl refl (smooth_run "a") (λ e. absurd cc) refl

up_second : Step false false same 2 one_up both_up
unfolding finish critical blame
up_second =
    end_member 1 8 smooth (record { tracker = fresh "b"; done = false }) _ refl refl
      (smooth_run "b") (λ e. absurd cc) refl

pub both_up_reached : Reach false false same (min_viable_of duo) start both_up
unfolding min_viable_of
both_up_reached = next (next here up_first) up_second
