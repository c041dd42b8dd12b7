-- ===== src/Spored/Examples.antt =====
-- Runs of a report and its reading.
use queuezero.Prelude.{◌≡◌, refl, String, false, Option, none, some, List, [], ◌∷◌, arith, ok}
use queuezero.Spored.{Tags, evaluate, report_tags, readiness_of}
use queuezero.Aws.Errors.{GoError}
use queuezero.Spored.Run.{Pass, Running, run, reports_of, waits_of, run-reports}
use queuezero.Spored.Converges.{Overwrites, report_read, told}

abbrev put_before : Tags → Tags → Tags
put_before [] old = old
put_before (t ∷ new) old = t ∷ put_before new old

put_before-Overwrites : Overwrites put_before
put_before-Overwrites [] old k = refl
put_before-Overwrites ((j, v) ∷ new) old k = ground (arith, put_before-Overwrites new old k)

abbrev stale : Tags
stale = ("q0:ready", "true") ∷ ("q0:phase", "enrolled") ∷ []

abbrev probes : List (String × Option String)
probes = ("slurmd", none) ∷ ("mount /scratch", some "not mounted") ∷ []

report_read_example :
    readiness_of (put_before (report_tags (evaluate probes)) stale)
    ≡ told false "mount /scratch: not mounted"
unfolding evaluate
report_read_example = report_read put_before put_before-Overwrites probes stale

-- A pass with all probes well.
abbrev well : Pass
well = record { identified = ok "i-1"; probes = ("slurmd", none) ∷ []; tagged = none; done = none }

abbrev ended : Pass
ended = record well { done = some GoError.canceled }

run-reports_example :
    (run 30 (well ∷ []) ≡ none)
    × ((s : Running) × (run 30 (well ∷ ended ∷ []) ≡ some (GoError.canceled, s))
        × (s.tagged ≡ reports_of (well ∷ ended ∷ []))
        × (s.waits ≡ waits_of 30 false (well ∷ ended ∷ [])))
run-reports_example = run-reports 30 (well ∷ []) ended GoError.canceled (refl, tt) refl

slow_after_two : waits_of 30 false (well ∷ well ∷ ended ∷ []) ≡ 30 ∷ 300 ∷ 300 ∷ []
slow_after_two = refl
