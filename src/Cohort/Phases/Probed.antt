-- ===== src/Cohort/Phases/Probed.antt =====
-- What waitEnrolled shows of a tracker.
use queuezero.Prelude.{
  ◌≡◌, refl, Bool, true, false, ◌||◌, ◌&&◌, List, [], ◌∷◌, some, arith, ◌⊎◌, Result, ok, err, subst,
  ◌∙◌,
}
use queuezero.Prelude.Loop.{Turn, again, returned, loop_rule}
use queuezero.Cohort.Entity.{Readiness, readiness_ok}
use queuezero.Cohort.Tracker.{Tracker, is_terminal}
use queuezero.Cohort.Frame.{Keeps, Keeps-trans, is_canceled, saw_cancel}
use queuezero.Cohort.Launch.{CtxState, live, canceled, deadline_exceeded, Tick}
use queuezero.Cohort.Phases.{
  Waiting, on_readiness, on_enroller, on_enrolled_tick, enrolled_turn, wait_enrolled,
}

abbrev is_live : CtxState → Bool
is_live live = true
is_live canceled = false
is_live deadline_exceeded = false

abbrev ready_reply : {E : Type 0} → Result E Readiness → Bool
ready_reply (ok r) = readiness_ok r
ready_reply (err e) = false

-- The enroller answered OK to a tick with a live context.
abbrev pub has_ready : {E : Type 0} → List (Tick (Result E Readiness)) → Bool
has_ready [] = false
has_ready (k ∷ ks) = (is_live k.ctx && ready_reply k.reply) || has_ready ks

abbrev after : Turn Waiting Waiting → Waiting
after (again w) = w
after (returned w) = w

abbrev ends : Turn Waiting Waiting → Bool
ends (again w) = false
ends (returned w) = true

-- The end of the wait: a fault is stored, or none is and there is a reason for it.
abbrev Ends : Bool → Bool → Bool → Tracker → Tracker → Type 0
Ends enroller cancelled ready t u =
    ((u.terminal ≡ t.terminal) × ((enroller ≡ false) ⊎ ((cancelled ≡ true) ⊎ (ready ≡ true))))
    ⊎ (is_terminal u ≡ true)

record Shows (enroller cancelled ready : Bool) (t : Tracker) (r : Turn Waiting Waiting)
    : Type 0 where
  keeps : Keeps t (after r).tracker
  state : (after r).tracker.obs.state ≡ t.obs.state
  on : ends r ≡ false → (after r).tracker.terminal ≡ t.terminal
  end : ends r ≡ true → Ends enroller cancelled ready t (after r).tracker

on_readiness-Shows :
    {E : Type 0} (r : Result E Readiness) (w : Waiting)
    → Shows true false (ready_reply r) w.tracker (on_readiness r w)
unfolding on_readiness
on_readiness-Shows (err e) w = ground arith
on_readiness-Shows (ok r) w = ground arith

on_enroller-Shows :
    {E : Type 0} (enroller : Bool) (r : Result E Readiness) (w : Waiting)
    → Shows enroller false (ready_reply r) w.tracker (on_enroller enroller r w)
unfolding on_enroller
on_enroller-Shows true r w = on_readiness-Shows r w
on_enroller-Shows false r w = ground arith

on_enrolled_tick-Shows :
    {E : Type 0} (enroller : Bool) (c : CtxState) (k : Tick (Result E Readiness)) (w : Waiting)
    → Shows enroller
        (is_canceled c)
        (is_live c && ready_reply k.reply)
        w.tracker
        (on_enrolled_tick enroller c k w)
unfolding on_enrolled_tick
on_enrolled_tick-Shows enroller canceled k w = ground arith
on_enrolled_tick-Shows enroller deadline_exceeded k w = ground arith
on_enrolled_tick-Shows enroller live k w = on_enroller-Shows enroller k.reply w

-- The result of waitEnrolled.
pub record Probed (enroller cancelled ready : Bool) (t u : Tracker) : Type 0 where
  pub keeps : Keeps t u
  pub state : u.obs.state ≡ t.obs.state
  pub end : Ends enroller cancelled ready t u

module _ (enroller : Bool) where
  stop :
      (c d c' d' : Bool) (t : Tracker) (u : Waiting)
      → Shows enroller c d t (returned u)
      → Probed enroller (c || c') (d || d') t u.tracker
  stop c d c' d' t u h = record {
    keeps = h.keeps;
    state = h.state;
    end = ground (arith, h.end refl);
  }

  go :
      (c d c' d' : Bool) (t u : Tracker) (w : Waiting)
      → Shows enroller c d t (again w)
      → Probed enroller c' d' w.tracker u
      → Probed enroller (c || c') (d || d') t u
  go c d c' d' t u w h p = record {
    keeps = Keeps-trans h.keeps p.keeps;
    state = p.state ∙ h.state;
    end = ground (arith, h.on refl);
  }

module _ {E : Type 0} (enroller : Bool) where
  turn-Shows :
      (k : Tick (Result E Readiness)) (w : Waiting) {r : Turn Waiting Waiting}
      → enrolled_turn enroller k w ≡ r
      → Shows enroller (is_canceled k.ctx) (is_live k.ctx && ready_reply k.reply) w.tracker r
  unfolding enrolled_turn
  turn-Shows k w e =
      subst (Shows enroller (is_canceled k.ctx) (is_live k.ctx && ready_reply k.reply) w.tracker) e
        (on_enrolled_tick-Shows enroller k.ctx k w)

  pub wait_enrolled-Probed :
      (ks : List (Tick (Result E Readiness))) (t : Tracker) {u : Waiting}
      → wait_enrolled enroller ks t ≡ some u
      → Probed enroller (saw_cancel ks) (has_ready ks) t u.tracker
  unfolding wait_enrolled
  wait_enrolled-Probed ks t {u} e =
      loop_rule (enrolled_turn enroller)
        (λ ks w r. Probed enroller (saw_cancel ks) (has_ready ks) w.tracker r.tracker)
        (λ k ks w r e. stop enroller _ _ _ _ w.tracker r (turn-Shows k w e))
        (λ k ks w w' r e h. go enroller _ _ _ _ w.tracker r.tracker w' (turn-Shows k w e) h) ks _ u
        e
