-- ===== src/Aws/Actuator/Wiring.antt =====
-- internal/asbx/wire.go gives the Reconciler the Actuator and the Classifier of internal/substrate/aws.
-- The Actuator's errors that come from the Client are *FaultErrors, wrapped by translateFaultErr.
use queuezero.Prelude.{◌≡◌, refl, ◌<>◌, Bool, false, some, List, ◌∷◌, Result, err}
use queuezero.Cohort.State.{Fault, FaultClass, Phase}
use queuezero.Cohort.Entity.{Observation}
use queuezero.Cohort.Tracker.{Tracker, fail_attempt}
use queuezero.Cohort.Launch.{Tick, Launching, live, do_launch}
use queuezero.Cohort.Launch.Stop.{terminal_stops}
use queuezero.Aws.Errors.{GoError}
use queuezero.Aws.Classifier.{classify}
use queuezero.Aws.Classifier.Classes.{classify_forgets}
use queuezero.Aws.Actuator.{translate_fault_err}

-- In this wiring the first fault of a launch ends the entity, whatever its class: a capacity fault
-- does not advance the chain, and a throttle or a consistency lag is not retried. The fault that is
-- stored is Terminal, with the code UnknownError in place of the provider's.
pub wired_launch_gives_up :
    (limited : Bool) (f : Fault) (k : Tick (Result GoError Observation))
    (ks : List (Tick (Result GoError Observation))) (t : Tracker)
    → k.ctx ≡ live
    → k.reply ≡ err (translate_fault_err (GoError.fault f) t.intent.id)
    → (g : Fault) × (l : Launching) × (do_launch limited classify (k ∷ ks) t ≡ some (false, l))
      × (l.tracker ≡ fail_attempt Phase.launch_acked g k.now t)
      × (g.class ≡ FaultClass.terminal)
      × (g.code ≡ "UnknownError")
unfolding translate_fault_err
wired_launch_gives_up limited f k ks t c q =
    let e = GoError.wrapped ("entity " <> t.intent.id) (GoError.fault f) in
    let (class, code) = classify_forgets e f refl refl in
    let (l, r, s) = terminal_stops limited classify k ks t e c q class in
    (classify e, l, r, s, class, code)
