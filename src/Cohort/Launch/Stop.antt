-- ===== src/Cohort/Launch/Stop.antt =====
-- A terminal fault ends doLaunch.
use queuezero.Prelude.{◌≡◌, refl, ap, ◌∙◌, Bool, false, some, List, [], ◌∷◌, Result, err}
use queuezero.Prelude.Loop.{loop}
use queuezero.Cohort.State.{Fault, FaultClass, Phase}
use queuezero.Cohort.Entity.{Observation}
use queuezero.Cohort.Tracker.{Tracker, fail_attempt}
use queuezero.Cohort.Launch.{
  CtxState, Tick, Launching, live, do_launch, launch_turn, on_tick, on_reply, on_fault, give_up,
  call_of, emit,
}

module _ {E : Type 0} (limited : Bool) (classify : E → Fault) where
  turn_stops :
      (k : Tick (Result E Observation)) (l : Launching) (e : E)
      → k.ctx ≡ live
      → k.reply ≡ err e
      → (classify e).class ≡ FaultClass.terminal
      → launch_turn limited classify k l
        ≡ give_up (classify e) k.now (emit (call_of l.tracker.intent) l)
  unfolding launch_turn on_tick on_reply on_fault
  turn_stops k l e c q h =
      let l' = emit (call_of l.tracker.intent) l in
      ap (λ (x : CtxState). on_tick limited classify x k l) c
      ∙ ap (λ (r : Result E Observation). on_reply limited classify r k.now k.draw l') q
      ∙ ap (λ (x : FaultClass). on_fault limited x (classify e) k.now k.draw l') h

  -- The attempt is recorded, the fault stored, and false returned.
  pub terminal_stops :
      (k : Tick (Result E Observation)) (ks : List (Tick (Result E Observation))) (t : Tracker)
      (e : E)
      → k.ctx ≡ live
      → k.reply ≡ err e
      → (classify e).class ≡ FaultClass.terminal
      → (l : Launching) × (do_launch limited classify (k ∷ ks) t ≡ some (false, l))
        × (l.tracker ≡ fail_attempt Phase.launch_acked (classify e) k.now t)
  unfolding do_launch loop give_up emit
  terminal_stops k ks t e c q h = (
    record {
      tracker = fail_attempt Phase.launch_acked (classify e) k.now t;
      consistency_attempt = 0;
      effects = call_of t.intent ∷ [];
    },
    rw (turn_stops k (record { tracker = t; consistency_attempt = 0; effects = [] }) e c q h, loop)
        refl,
    refl,
  )
