-- ===== src/Cohort/Launch/Frame.antt =====
-- doLaunch stores a fault exactly where it gives up on an entity, and touches nothing else that the
-- barrier reads.
use queuezero.Prelude.{
  ◌≡◌, refl, Bool, true, false, some, List, ◌∷◌, arith, ◌⊎◌, Result, ok, err, ℕ, subst,
}
use queuezero.Prelude.Loop.{Turn, again, returned, loop_rule}
use queuezero.Cohort.State.{Fault, FaultClass}
use queuezero.Cohort.Entity.{Observation}
use queuezero.Cohort.Tracker.{Tracker, is_terminal}
use queuezero.Cohort.Frame.{Keeps, is_canceled, saw_cancel, Phased, Phased-after}
use queuezero.Cohort.Launch.{
  CtxState, live, canceled, deadline_exceeded, Tick, Launching, advance_rung, emit, call_of,
  on_fault, on_reply, on_tick, launch_turn, do_launch,
}

abbrev LaunchTurn : Type 0
LaunchTurn = Turn Launching (Bool × Launching)

abbrev after : LaunchTurn → Launching
after (again l) = l
after (returned (b, l)) = l

abbrev gives_up : LaunchTurn → Bool
gives_up (again l) = false
gives_up (returned (true, l)) = false
gives_up (returned (false, l)) = true

-- What a turn shows of the tracker: a fault is stored only where it gives up, and then, unless the
-- context was cancelled, one is stored.
record Shows (cancelled : Bool) (t : Tracker) (r : LaunchTurn) : Type 0 where
  keeps : Keeps t (after r).tracker
  clean : gives_up r ≡ false → (after r).tracker.terminal ≡ t.terminal
  failed :
      gives_up r ≡ true
      → ((cancelled ≡ true) × ((after r).tracker.terminal ≡ t.terminal))
        ⊎ (is_terminal (after r).tracker ≡ true)

on_fault-Shows :
    (limited : Bool) (c : FaultClass) (f : Fault) (now draw : ℕ) (l : Launching)
    → Shows false l.tracker (on_fault limited c f now draw l)
unfolding on_fault advance_rung
on_fault-Shows limited FaultClass.terminal f now draw l = ground arith
on_fault-Shows limited _ f now draw l = ground arith

on_reply-Shows :
    {E : Type 0} (limited : Bool) (classify : E → Fault) (r : Result E Observation) (now draw : ℕ)
    (l : Launching)
    → Shows false l.tracker (on_reply limited classify r now draw l)
unfolding on_reply
on_reply-Shows limited classify (ok obs) now draw l = ground arith
on_reply-Shows limited classify (err e) now draw l =
    on_fault-Shows limited (classify e).class (classify e) now draw l

on_tick-Shows :
    {E : Type 0} (limited : Bool) (classify : E → Fault) (c : CtxState)
    (k : Tick (Result E Observation)) (l : Launching)
    → Shows (is_canceled c) l.tracker (on_tick limited classify c k l)
unfolding on_tick
on_tick-Shows limited classify canceled k l = ground arith
on_tick-Shows limited classify deadline_exceeded k l = ground arith
on_tick-Shows limited classify live k l =
    on_reply-Shows limited classify k.reply k.now k.draw (emit (call_of l.tracker.intent) l)

module _ {E : Type 0} (limited : Bool) (classify : E → Fault) where
  launch_turn-Shows :
      (k : Tick (Result E Observation)) (l : Launching) {r : LaunchTurn}
      → launch_turn limited classify k l ≡ r
      → Shows (is_canceled k.ctx) l.tracker r
  unfolding launch_turn
  launch_turn-Shows k l e =
      subst (Shows (is_canceled k.ctx) l.tracker) e (on_tick-Shows limited classify k.ctx k l)

  stop :
      (k : Tick (Result E Observation)) (ks : List (Tick (Result E Observation))) (t : Tracker)
      (b : Bool) (u : Launching)
      → Shows (is_canceled k.ctx) t (returned (b, u))
      → Phased (saw_cancel (k ∷ ks)) t u.tracker b
  stop k ks t true u h = record { keeps = h.keeps; clean = λ _. h.clean refl; failed = cc }
  stop k ks t false u h = record {
    keeps = h.keeps;
    clean = cc;
    failed = λ _. ground (arith, h.failed refl);
  }

  -- From a tracker with no fault stored, doLaunch returns true with none stored, or false with one
  -- stored, or false with none stored after it found its context cancelled.
  pub do_launch-Phased :
      (ks : List (Tick (Result E Observation))) (t : Tracker) {b : Bool} {u : Launching}
      → do_launch limited classify ks t ≡ some (b, u)
      → Phased (saw_cancel ks) t u.tracker b
  unfolding do_launch
  do_launch-Phased ks t {b} {u} e =
      loop_rule (launch_turn limited classify)
        (λ ks l r. Phased (saw_cancel ks) l.tracker r.1.tracker r.0)
        (λ k ks l r e. stop k ks l.tracker r.0 r.1 (launch_turn-Shows k l e))
        (λ k ks l l' r e h.
          let s : Shows (is_canceled k.ctx) l.tracker (again l') = launch_turn-Shows k l e in
          Phased-after _ _ s.keeps (s.clean refl) h)
        ks _ (b, u) e
