-- ===== src/Cohort/Launch.antt =====
-- internal/cohort/reconcile.go: doLaunch and advanceRung. What one iteration of the loop meets is a
-- `Tick`: what ctx.Err() says, the reply of the port, the time, and a draw of the random source.
-- The loop is a recursion on the list of ticks; `none` means that it runs on after them.
-- The provider's error type and its Classifier are parameters.
pub mod Chain
pub mod Bound
pub mod Frame
pub mod Walk
pub mod Stop
pub mod Examples
use queuezero.Prelude.{
  ℕ, zero, suc, ◌+◌, ◌≡◌, String, Bool, true, false, Option, none, some, List, [], ◌∷◌, ◌++◌,
  if◌then◌else◌, ltb, Result, ok, err,
}
use queuezero.Prelude.Loop.{Turn, again, returned, loop}
use queuezero.Cohort.State.{Fault, FaultClass, Phase}
use queuezero.Cohort.Entity.{Rung, EntityIntent, Observation, rung_eq}
use queuezero.Cohort.Backoff.{default_backoff_policy, duration}
use queuezero.Cohort.Tracker.{
  Tracker, add_attempt, set_terminal, set_obs, fail_attempt, record_deadline,
}

-- ctx.Err(): nil, context.Canceled or context.DeadlineExceeded.
pub data CtxState : Type 0 where
  live canceled deadline_exceeded : CtxState

-- What the loop does to the outside: calls of the actuator and of the limiter, and sleeps.
pub data Effect : Type 0 where
  start : String → Effect
  launch : EntityIntent → Effect
  backoff : ℕ → Effect
  slept : ℕ → Effect

pub record Tick {ℓ} (R : Type ℓ) : Type ℓ where
  pub ctx : CtxState
  pub reply : R
  pub now : ℕ
  pub draw : ℕ

-- The loop's variables, and the effects so far. A turn that returns has the result beside them.
pub record Launching : Type 0 where
  pub tracker : Tracker
  pub consistency_attempt : ℕ
  pub effects : List Effect

-- The search of advanceRung through the chain.
pub next_rung : Rung → List Rung → Option Rung
next_rung r [] = none
next_rung r (x ∷ []) = none
next_rung r (x ∷ y ∷ rest) = if rung_eq x r then some y else next_rung r (y ∷ rest)

abbrev pub moved : EntityIntent → Option Rung → Option EntityIntent
moved intent none = none
moved intent (some r) = some (record intent { rung = r })

-- Reconciler.advanceRung: `none` where it returns false, and the intent is unchanged.
pub advance_rung : EntityIntent → Option EntityIntent
advance_rung intent = moved intent (next_rung intent.rung intent.fallback_chain)

abbrev pub max_consistency_retries : ℕ
max_consistency_retries = 5

-- A recorded attempt with the fault, and the return.
give_up : Fault → ℕ → Launching → Turn Launching (Bool × Launching)
give_up f now l =
    returned (false, record l { tracker = fail_attempt Phase.launch_acked f now l.tracker })

emit : Effect → Launching → Launching
emit e l = record l { effects = l.effects ++ e ∷ [] }

abbrev ambiguous_fault : Fault → Fault
ambiguous_fault f = record f {
  code = "AmbiguousReachedReconciler";
  message = "BUG: FaultAmbiguous escaped substrate.Client — Step 3 regression";
}

on_consistency : Fault → ℕ → ℕ → Launching → Turn Launching (Bool × Launching)
unfolding give_up emit
on_consistency f now draw l =
    let n = l.consistency_attempt + 1 in
    if ltb max_consistency_retries n
    then give_up f now (record l { consistency_attempt = n })
    else again (
        emit (slept (duration default_backoff_policy n draw))
          (record l { consistency_attempt = n }))

-- `limited` says whether a Limiter is configured.
on_throttle : Bool → ℕ → Launching → Turn Launching (Bool × Launching)
unfolding emit
on_throttle limited draw l =
    let d = duration default_backoff_policy 0 draw in
    again (emit (slept d) (if limited then emit (backoff d) l else l))

on_capacity : Fault → ℕ → Launching → Turn Launching (Bool × Launching)
on_capacity f now l =
    let t = add_attempt l.tracker.intent.rung Phase.launch_acked (some f) now l.tracker in
    elim (advance_rung l.tracker.intent) [
      | none ↦ returned (false, record l { tracker = set_terminal Phase.launch_acked f t })
      | some i ↦ again (record l { tracker = record t { intent = i }; consistency_attempt = 0 })
    ]

-- The switch on the class of the fault.
on_fault : Bool → FaultClass → Fault → ℕ → ℕ → Launching → Turn Launching (Bool × Launching)
unfolding give_up on_consistency on_throttle on_capacity
on_fault limited FaultClass.retryable_consistency f now draw l = on_consistency f now draw l
on_fault limited FaultClass.throttle f now draw l = on_throttle limited draw l
on_fault limited FaultClass.capacity_exhausted f now draw l = on_capacity f now l
on_fault limited FaultClass.ambiguous f now draw l = give_up (ambiguous_fault f) now l
on_fault limited FaultClass.terminal f now draw l = give_up f now l

-- The call of the actuator: Start for a warm rung, Launch otherwise.
abbrev call_of : EntityIntent → Effect
call_of i = if i.rung.warm_start then start i.id else launch i

on_reply :
    {E : Type 0}
    → Bool
    → (E → Fault)
    → Result E Observation
    → ℕ
    → ℕ
    → Launching
    → Turn Launching (Bool × Launching)
unfolding on_fault
on_reply limited classify (ok obs) now draw l = returned (
  true,
  record l {
    tracker = add_attempt l.tracker.intent.rung Phase.launch_acked none now (set_obs obs l.tracker);
  },
)
on_reply limited classify (err e) now draw l =
    let f = classify e in on_fault limited f.class f now draw l

-- The check of the context at the head of the loop, and the body.
on_tick :
    {E : Type 0}
    → Bool
    → (E → Fault)
    → CtxState
    → Tick (Result E Observation)
    → Launching
    → Turn Launching (Bool × Launching)
unfolding on_reply emit
on_tick limited classify canceled k l = returned (false, l)
on_tick limited classify deadline_exceeded k l =
    returned (false, record l { tracker = record_deadline Phase.launch_acked k.now l.tracker })
on_tick limited classify live k l =
    on_reply limited classify k.reply k.now k.draw (emit (call_of l.tracker.intent) l)

module _ {E : Type 0} (limited : Bool) (classify : E → Fault) where
  pub launch_turn : Tick (Result E Observation) → Launching → Turn Launching (Bool × Launching)
  unfolding on_tick
  launch_turn k l = on_tick limited classify k.ctx k l

  -- Reconciler.doLaunch
  unfoldable pub do_launch :
      List (Tick (Result E Observation)) → Tracker → Option (Bool × Launching)
  unfolding loop launch_turn
  do_launch ks t =
      loop launch_turn ks (record { tracker = t; consistency_attempt = 0; effects = [] })
