-- ===== src/Cohort/Launch/Chain.antt =====
-- doLaunch stays in the approved chain, and every call that it makes is for the one entity.
use queuezero.Prelude.{
  ℕ, suc, ◌≡◌, refl, Bool, true, false, some, List, [], ◌∷◌, ◌++◌, sym, arith, ◌⊎◌, inl, inr,
  Result, ok, err, subst, All, In, ltb, ◌+◌, if◌then◌else◌, Option-cases, Bool-cases,
}
use queuezero.Prelude.Counting.{All-snoc}
use queuezero.Prelude.Loop.{Turn, again, returned, loop_rule}
use queuezero.Cohort.State.{Fault, FaultClass}
use queuezero.Cohort.Entity.{Rung, EntityIntent, Observation, rung_eq}
use queuezero.Cohort.Record.{Attempt}
use queuezero.Cohort.Tracker.{Tracker}
use queuezero.Cohort.Launch.{
  CtxState, live, canceled, deadline_exceeded, Effect, start, launch, backoff, slept, Tick,
  Launching, next_rung, advance_rung, emit, on_consistency, on_throttle, on_capacity, on_fault,
  on_reply, on_tick, launch_turn, do_launch,
}

-- A rung that the operator approved for the intent: its first one, or one of its chain.
abbrev pub IsApproved : EntityIntent → Rung → Type 0
IsApproved i r = (r ≡ i.rung) ⊎ In r i.fallback_chain

-- The same entity, with the same token, on an approved rung.
pub record IsSame (i j : EntityIntent) : Type 0 where
  pub id : j.id ≡ i.id
  pub generation : j.generation ≡ i.generation
  pub token : j.idempotency_token ≡ i.idempotency_token
  pub chain : j.fallback_chain ≡ i.fallback_chain
  pub rung : IsApproved i j.rung

abbrev pub IsCall : EntityIntent → Effect → Type 0
IsCall i (start x) = x ≡ i.id
IsCall i (launch j) = IsSame i j
IsCall i (backoff d) = Unit
IsCall i (slept d) = Unit

abbrev pub IsTry : EntityIntent → Attempt → Type 0
IsTry i a = IsApproved i a.rung

pub record Stays (i : EntityIntent) (l : Launching) : Type 0 where
  pub intent : IsSame i l.tracker.intent
  pub calls : All (IsCall i) l.effects
  pub tries : All (IsTry i) l.tracker.attempts

pub next_rung-In : (r : Rung) (rs : List Rung) {s : Rung} → next_rung r rs ≡ some s → In s rs
unfolding next_rung
next_rung-In r [] e = ground arith
next_rung-In r (x ∷ []) e = ground arith
next_rung-In r (x ∷ y ∷ rest) {s} e = elim (Bool-cases (rung_eq x r)) [
  | inl here ↦ (1, ground arith)
  | inr later ↦ let (k, p) = next_rung-In r (y ∷ rest) {s = s} (rw later at e) in (suc k, p)
]

advance_rung-IsSame :
    (i j : EntityIntent) {k : EntityIntent} → IsSame i j → advance_rung j ≡ some k → IsSame i k
unfolding advance_rung
advance_rung-IsSame i j {k} h e = elim (Option-cases (next_rung j.rung j.fallback_chain)) [
  | inl stuck ↦ absurd (ground arith)
  | inr (r, found) ↦
      let place : In r i.fallback_chain =
        subst (In r) h.chain (next_rung-In j.rung j.fallback_chain found) in
      let q : k ≡ record j { rung = r } = ground arith in
      subst (IsSame i) (sym q) (record {
        id = h.id;
        generation = h.generation;
        token = h.token;
        chain = h.chain;
        rung = inr place;
      })
]

abbrev after : Turn Launching (Bool × Launching) → Launching
after (again l) = l
after (returned (b, l)) = l

module _ (i : EntityIntent) where
  emit-Stays : (e : Effect) (l : Launching) → IsCall i e → Stays i l → Stays i (emit e l)
  unfolding emit
  emit-Stays e l c h = record {
    intent = h.intent;
    calls = All-snoc (IsCall i) l.effects e h.calls c;
    tries = h.tries;
  }

  -- A recorded attempt on the current rung, whatever else of the tracker is written.
  tried :
      (l : Launching) (a : Attempt)
      → a.rung ≡ l.tracker.intent.rung
      → Stays i l
      → All (IsTry i) (l.tracker.attempts ++ a ∷ [])
  tried l a e h =
      All-snoc (IsTry i) l.tracker.attempts a h.tries (subst (IsApproved i) (sym e) h.intent.rung)

  on_consistency-Stays :
      (f : Fault) (now draw : ℕ) (l : Launching)
      → Stays i l
      → Stays i (after (on_consistency f now draw l))
  unfolding on_consistency
  on_consistency-Stays f now draw l h = elim (Bool-cases (ltb 5 (l.consistency_attempt + 1))) [
    | inl past ↦ rw past (record { intent = h.intent; calls = h.calls; tries = tried l _ refl h })
    | inr within ↦
        rw within
          (emit-Stays _ _ tt (record { intent = h.intent; calls = h.calls; tries = h.tries }))
  ]

  on_throttle-Stays :
      (limited : Bool) (draw : ℕ) (l : Launching)
      → Stays i l
      → Stays i (after (on_throttle limited draw l))
  unfolding on_throttle
  on_throttle-Stays true draw l h = emit-Stays _ _ tt (emit-Stays _ _ tt h)
  on_throttle-Stays false draw l h = emit-Stays _ _ tt h

  on_capacity-Stays :
      (f : Fault) (now : ℕ) (l : Launching) → Stays i l → Stays i (after (on_capacity f now l))
  unfolding on_capacity
  on_capacity-Stays f now l h = elim (Option-cases (advance_rung l.tracker.intent)) [
    | inl stuck ↦
        rw (stuck, after) (record { intent = h.intent; calls = h.calls; tries = tried l _ refl h })
    | inr (j, next) ↦
        rw (next, after)
          (record {
            intent = advance_rung-IsSame i l.tracker.intent h.intent next;
            calls = h.calls;
            tries = tried l _ refl h;
          })
  ]

  on_fault-Stays :
      (limited : Bool) (c : FaultClass) (f : Fault) (now draw : ℕ) (l : Launching)
      → Stays i l
      → Stays i (after (on_fault limited c f now draw l))
  unfolding on_fault
  on_fault-Stays limited FaultClass.retryable_consistency f now draw l h =
      on_consistency-Stays f now draw l h
  on_fault-Stays limited FaultClass.throttle f now draw l h = on_throttle-Stays limited draw l h
  on_fault-Stays limited FaultClass.capacity_exhausted f now draw l h = on_capacity-Stays f now l h
  on_fault-Stays limited FaultClass.ambiguous f now draw l h = record {
    intent = h.intent;
    calls = h.calls;
    tries = tried l _ refl h;
  }
  on_fault-Stays limited FaultClass.terminal f now draw l h = record {
    intent = h.intent;
    calls = h.calls;
    tries = tried l _ refl h;
  }

  chosen-IsCall :
      (warm : Bool) (j : EntityIntent)
      → IsSame i j
      → IsCall i (if warm then start j.id else launch j)
  chosen-IsCall true j h = h.id
  chosen-IsCall false j h = h

  on_reply-Stays :
      {E : Type 0} (limited : Bool) (classify : E → Fault) (r : Result E Observation) (now draw : ℕ)
      (l : Launching)
      → Stays i l
      → Stays i (after (on_reply limited classify r now draw l))
  unfolding on_reply
  on_reply-Stays limited classify (ok obs) now draw l h = record {
    intent = h.intent;
    calls = h.calls;
    tries = tried l _ refl h;
  }
  on_reply-Stays limited classify (err e) now draw l h =
      on_fault-Stays limited (classify e).class (classify e) now draw l h

  on_tick-Stays :
      {E : Type 0} (limited : Bool) (classify : E → Fault) (c : CtxState)
      (k : Tick (Result E Observation)) (l : Launching)
      → Stays i l
      → Stays i (after (on_tick limited classify c k l))
  unfolding on_tick
  on_tick-Stays limited classify canceled k l h = h
  on_tick-Stays limited classify deadline_exceeded k l h = record {
    intent = h.intent;
    calls = h.calls;
    tries = tried l _ refl h;
  }
  on_tick-Stays limited classify live k l h =
      on_reply-Stays limited classify k.reply k.now k.draw _ (
        emit-Stays _ l (chosen-IsCall l.tracker.intent.rung.warm_start l.tracker.intent h.intent) h)

module _ {E : Type 0} (limited : Bool) (classify : E → Fault) where
  turn-Stays :
      (i : EntityIntent) (k : Tick (Result E Observation)) (l : Launching)
      {r : Turn Launching (Bool × Launching)}
      → launch_turn limited classify k l ≡ r
      → Stays i l
      → Stays i (after r)
  unfolding launch_turn
  turn-Stays i k l e h =
      subst (λ r. Stays i (after r)) e (on_tick-Stays i limited classify k.ctx k l h)

  -- Whatever faults it meets, doLaunch calls the actuator for its one entity alone, always with the
  -- token and the chain of the intent, on the first rung or one of the chain; every attempt that it
  -- records is on such a rung, and so is the intent that it leaves. The tracker is one that
  -- Reconcile made, with no attempts.
  pub do_launch-Stays :
      (ks : List (Tick (Result E Observation))) (t : Tracker) {b : Bool} {u : Launching}
      → t.attempts ≡ []
      → do_launch limited classify ks t ≡ some (b, u)
      → Stays t.intent u
  unfolding do_launch
  do_launch-Stays ks t {b} {u} fresh e =
      loop_rule (launch_turn limited classify) (λ ks l r. Stays t.intent l → Stays t.intent r.1)
        (λ k ks l r e h. turn-Stays t.intent k l e h)
        (λ k ks l l' r e ih h. ih (turn-Stays t.intent k l e h)) ks _ (b, u) e
        (record {
          intent = record {
            id = refl;
            generation = refl;
            token = refl;
            chain = refl;
            rung = inl refl;
          };
          calls = tt;
          tries = subst (All (IsTry t.intent)) (sym fresh) tt;
        })
