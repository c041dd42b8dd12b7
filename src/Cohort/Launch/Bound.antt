-- ===== src/Cohort/Launch/Bound.antt =====
-- How long doLaunch can run, and how it walks the chain.
use Prim.Native.Nat.{max, pred}
use queuezero.Prelude.{
  ℕ, suc, ◌+◌, ◌-◌, ◌*◌, ◌≤◌, ◌<◌, ◌≡◌, Bool, true, false, not, some, List, [], ◌∷◌, arith, Result,
  ok, err, subst, All, is_some, length, Option-cases, Bool-cases, if◌then◌else◌, inl, inr, sym,
}
use queuezero.Prelude.Counting.{bit, count_if, All-get}
use queuezero.Prelude.Loop.{again, loop_returns}
use queuezero.Cohort.State.{Fault, FaultClass}
use queuezero.Cohort.Entity.{Rung, EntityIntent, Observation, rung_eq}
use queuezero.Cohort.Entity.Equality.{rung_eq_self}
use queuezero.Cohort.Tracker.{Tracker}
use queuezero.Cohort.Launch.{
  CtxState, live, canceled, deadline_exceeded, Tick, Launching, next_rung, advance_rung, emit,
  call_of, on_consistency, on_throttle, on_capacity, on_fault, on_reply, on_tick, launch_turn,
  do_launch,
}
use queuezero.Cohort.Launch.Chain.{next_rung-In}

-- No rung stands twice in the chain.
abbrev pub Distinct : List Rung → Type 0
Distinct [] = Unit
Distinct (x ∷ xs) = All (λ y. rung_eq x y ≡ false) xs × Distinct xs

-- The rungs behind the one that advanceRung goes on from.
left : Rung → List Rung → ℕ
left r [] = 0
left r (x ∷ []) = 0
left r (x ∷ y ∷ rest) = if rung_eq x r then suc (length rest) else left r (y ∷ rest)

left-le : (r : Rung) (rs : List Rung) → left r rs ≤ pred (length rs)
unfolding left
left-le r [] = omega arith
left-le r (x ∷ []) = omega arith
left-le r (x ∷ y ∷ rest) = ground (arith, left-le r (y ∷ rest))

left-first : (y : Rung) (rest : List Rung) → left y (y ∷ rest) ≤ length rest
unfolding left
left-first y [] = omega arith
left-first y (z ∷ rest) = ground (arith, rung_eq_self y)

-- In a chain with no repetition each advance leaves fewer rungs.
left-next :
    (r : Rung) (rs : List Rung) (s : Rung)
    → Distinct rs
    → next_rung r rs ≡ some s
    → left s rs < left r rs
unfolding left next_rung
left-next r [] s d e = ground arith
left-next r (x ∷ []) s d e = ground arith
left-next r (x ∷ y ∷ rest) s d e = elim (Bool-cases (rung_eq x r)) [
  | inl here ↦
      let q : y ≡ s = ground arith in
      subst (λ z. left z (x ∷ y ∷ rest) < left r (x ∷ y ∷ rest)) q
        (rw (here, d.0.0) (omega (arith, left-first y rest)))
  | inr later ↦
      let (k, p) = next_rung-In r (y ∷ rest) {s = s} (rw later at e) in
      rw (later, All-get (λ z. rung_eq x z ≡ false) (y ∷ rest) k d.0 p)
        (left-next r (y ∷ rest) s d.1 (rw later at e))
]

-- What doLaunch may still use: the rungs left, six calls on each, and the retries left on this one.
abbrev room : Launching → ℕ
room l =
    6 * left l.tracker.intent.rung l.tracker.intent.fallback_chain + (6 - l.consistency_attempt)

record IsRunning (l : Launching) : Type 0 where
  distinct : Distinct l.tracker.intent.fallback_chain
  retries : l.consistency_attempt ≤ 5

-- Only a throttled turn can go on with as much room as before.
record Spends (l : Launching) (throttled : Bool) (l' : Launching) : Type 0 where
  running : IsRunning l'
  less : room l' + bit (not throttled) ≤ room l

abbrev is_throttle : FaultClass → Bool
is_throttle FaultClass.throttle = true
is_throttle FaultClass.retryable_consistency = false
is_throttle FaultClass.capacity_exhausted = false
is_throttle FaultClass.terminal = false
is_throttle FaultClass.ambiguous = false

spends :
    (l l' : Launching) (throttled : Bool) (i : EntityIntent)
    → l'.tracker.intent ≡ i
    → Distinct i.fallback_chain
    → l'.consistency_attempt ≤ 5
    → 6 * left i.rung i.fallback_chain + (6 - l'.consistency_attempt) + bit (not throttled) ≤ room l
    → Spends l throttled l'
spends l l' throttled i e d c m = record {
  running = record {
    distinct = subst (λ (j : EntityIntent). Distinct j.fallback_chain) (sym e) d;
    retries = c;
  };
  less =
      subst
        (λ (j : EntityIntent).
          6 * left j.rung j.fallback_chain + (6 - l'.consistency_attempt) + bit (not throttled)
          ≤ room l)
        (sym e) m;
}

on_consistency-Spends :
    (f : Fault) (now draw : ℕ) (l l' : Launching)
    → IsRunning l
    → on_consistency f now draw l ≡ again l'
    → Spends l false l'
unfolding on_consistency
on_consistency-Spends f now draw l l' h e =
    let n : l'.consistency_attempt ≡ l.consistency_attempt + 1 = ground arith in
    let m : l.consistency_attempt + 1 ≤ 5 = ground arith in
    spends l l' false l.tracker.intent (ground arith) h.distinct (omega arith) (omega arith)

on_throttle-Spends :
    (limited : Bool) (draw : ℕ) (l l' : Launching)
    → IsRunning l
    → on_throttle limited draw l ≡ again l'
    → Spends l true l'
unfolding on_throttle
on_throttle-Spends limited draw l l' h e =
    let n : l'.consistency_attempt ≡ l.consistency_attempt = ground arith in
    spends l l' true l.tracker.intent (ground arith) h.distinct (omega (arith, h.retries))
      (omega arith)

on_capacity-Spends :
    (f : Fault) (now : ℕ) (l l' : Launching)
    → IsRunning l
    → on_capacity f now l ≡ again l'
    → Spends l false l'
unfolding on_capacity advance_rung
on_capacity-Spends f now l l' h e =
    elim (Option-cases (next_rung l.tracker.intent.rung l.tracker.intent.fallback_chain)) [
      | inl stuck ↦ absurd (ground arith)
      | inr (r, next) ↦
          let n : l'.consistency_attempt ≡ 0 = ground arith in
          spends l l' false (record l.tracker.intent { rung = r }) (ground arith) h.distinct
            (omega arith)
            (omega (
              arith,
              h.retries,
              left-next l.tracker.intent.rung l.tracker.intent.fallback_chain r h.distinct next,
            ))
    ]

on_fault-Spends :
    (limited : Bool) (c : FaultClass) (f : Fault) (now draw : ℕ) (l l' : Launching)
    → IsRunning l
    → on_fault limited c f now draw l ≡ again l'
    → Spends l (is_throttle c) l'
unfolding on_fault
on_fault-Spends limited FaultClass.retryable_consistency f now draw l l' h e =
    on_consistency-Spends f now draw l l' h e
on_fault-Spends limited FaultClass.throttle f now draw l l' h e =
    on_throttle-Spends limited draw l l' h e
on_fault-Spends limited FaultClass.capacity_exhausted f now draw l l' h e =
    on_capacity-Spends f now l l' h e
on_fault-Spends limited FaultClass.ambiguous f now draw l l' h e = absurd (ground arith)
on_fault-Spends limited FaultClass.terminal f now draw l l' h e = absurd (ground arith)

module _ {E : Type 0} (limited : Bool) (classify : E → Fault) where
  -- The reply of the tick is a fault of the throttle class.
  abbrev pub throttled : Result E Observation → Bool
  throttled (ok obs) = false
  throttled (err e) = is_throttle (classify e).class

  on_reply-Spends :
      (r : Result E Observation) (now draw : ℕ) (l l' : Launching)
      → IsRunning l
      → on_reply limited classify r now draw l ≡ again l'
      → Spends l (throttled r) l'
  unfolding on_reply
  on_reply-Spends (ok obs) now draw l l' h e = absurd (ground arith)
  on_reply-Spends (err e) now draw l l' h q =
      on_fault-Spends limited (classify e).class (classify e) now draw l l' h q

  on_tick-Spends :
      (c : CtxState) (k : Tick (Result E Observation)) (l l' : Launching)
      → IsRunning l
      → on_tick limited classify c k l ≡ again l'
      → Spends l (throttled k.reply) l'
  unfolding on_tick
  on_tick-Spends canceled k l l' h e = absurd (ground arith)
  on_tick-Spends deadline_exceeded k l l' h e = absurd (ground arith)
  on_tick-Spends live k l l' h e =
      let m : Spends (emit (call_of l.tracker.intent) l) (throttled k.reply) l' =
        on_reply-Spends k.reply k.now k.draw (emit (call_of l.tracker.intent) l) l'
          (record { distinct = h.distinct; retries = h.retries }) e in
      record { running = m.running; less = m.less }

  falls :
      (k : Tick (Result E Observation)) (l l' : Launching)
      → IsRunning l
      → launch_turn limited classify k l ≡ again l'
      → IsRunning l' × (room l' + bit (not (throttled k.reply)) ≤ room l)
  unfolding launch_turn
  falls k l l' h e =
      let s : Spends l (throttled k.reply) l' = on_tick-Spends k.ctx k l l' h e in
      (s.running, s.less)

  -- With a chain that names no rung twice, doLaunch returns after at most six calls that are not
  -- throttled on each rung, whatever the provider answers; a chain of none or one counts as one.
  pub do_launch_returns :
      (ks : List (Tick (Result E Observation))) (t : Tracker)
      → Distinct t.intent.fallback_chain
      → 6 * max 1 (length t.intent.fallback_chain) ≤ count_if (λ k. not (throttled k.reply)) ks
      → is_some (do_launch limited classify ks t) ≡ true
  unfolding do_launch
  do_launch_returns ks t d m =
      loop_returns (launch_turn limited classify) IsRunning room (λ k. not (throttled k.reply))
        (λ l h. omega (arith, h.retries)) falls ks _
        (record { distinct = d; retries = omega arith })
        (omega (arith, left-le t.intent.rung t.intent.fallback_chain))
