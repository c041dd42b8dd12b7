-- ===== src/Cohort/Launch/Walk.antt =====
-- How advanceRung walks an approved chain, with and without a repeated rung.
use queuezero.Prelude.{
  ℕ, zero, suc, ◌≡◌, refl, ap, ◌∙◌, Bool, false, none, some, List, [], ◌∷◌, arith, Result, err,
  subst, All, ◌⊎◌, inl, inr, get_elem?,
}
use queuezero.Prelude.Counting.{All-get}
use queuezero.Prelude.Loop.{again, loop_runs}
use queuezero.Cohort.State.{Fault, FaultClass, Phase}
use queuezero.Cohort.Entity.{Rung, EntityIntent, Observation, rung_eq}
use queuezero.Cohort.Entity.Equality.{rung_eq_self}
use queuezero.Cohort.Tracker.{Tracker, add_attempt}
use queuezero.Cohort.Launch.{
  live, Tick, Launching, next_rung, advance_rung, moved, emit, call_of, on_capacity, on_fault,
  on_reply, on_tick, launch_turn, do_launch,
}
use queuezero.Cohort.Launch.Bound.{Distinct}

-- In a chain with no repetition, the rung after the one at place `k` is the one at place `k + 1`, and
-- after the last there is none.
pub next_rung-get_elem? :
    (rs : List Rung) (k : ℕ) {r : Rung}
    → Distinct rs
    → get_elem? rs k ≡ some r
    → next_rung r rs ≡ get_elem? rs (suc k)
unfolding next_rung
next_rung-get_elem? [] k d e = ground arith
next_rung-get_elem? (x ∷ []) zero d e = refl
next_rung-get_elem? (x ∷ []) (suc k) d e = ground arith
next_rung-get_elem? (x ∷ y ∷ rest) zero {r} d e =
    let q : x ≡ r = cc in subst (λ z. next_rung z (x ∷ y ∷ rest) ≡ some y) q (rw (rung_eq_self x))
next_rung-get_elem? (x ∷ y ∷ rest) (suc k) d e =
    rw (All-get (λ z. rung_eq x z ≡ false) (y ∷ rest) k d.0 e)
      (next_rung-get_elem? (y ∷ rest) k d.1 e)

-- From the k-th rung of a chain that names no rung twice, advanceRung moves the intent to the next
-- one, changing nothing else, and refuses at the last.
pub advance_rung_walks :
    (i : EntityIntent) (k : ℕ)
    → Distinct i.fallback_chain
    → get_elem? i.fallback_chain k ≡ some i.rung
    → advance_rung i ≡ moved i (get_elem? i.fallback_chain (suc k))
unfolding advance_rung
advance_rung_walks i k d e = ap (moved i) (next_rung-get_elem? i.fallback_chain k d e)

module _ {E : Type 0} (classify : E → Fault) where
  -- The context is live and the provider has no capacity.
  pub record HasNoCapacity (k : Tick (Result E Observation)) : Type 0 where
    pub live_ctx : k.ctx ≡ live
    pub error : E
    pub reply : k.reply ≡ err error
    pub class : (classify error).class ≡ FaultClass.capacity_exhausted

module _ {E : Type 0} (limited : Bool) (classify : E → Fault) (a b : Rung) (rest : List Rung)
    (differ : rung_eq a b ≡ false) where
  -- Between the two rungs, on a chain that names the first one again behind the second.
  record IsCaught (l : Launching) : Type 0 where
    chain : l.tracker.intent.fallback_chain ≡ a ∷ b ∷ a ∷ rest
    rung : (l.tracker.intent.rung ≡ a) ⊎ (l.tracker.intent.rung ≡ b)

  next_of_caught :
      (l : Launching)
      → IsCaught l
      → (s : Rung) × (next_rung l.tracker.intent.rung l.tracker.intent.fallback_chain ≡ some s)
        × ((s ≡ a) ⊎ (s ≡ b))
  unfolding next_rung
  next_of_caught l h = elim h.rung [
    | inl at_a ↦ (b, rw (h.chain, at_a, rung_eq_self a) refl, inr refl)
    | inr at_b ↦ (a, rw (h.chain, at_b, differ, rung_eq_self b) refl, inl refl)
  ]

  -- The loop's variables after the advance to `s`.
  abbrev advanced : Fault → ℕ → Rung → Launching → Launching
  advanced f now s l = record l {
    tracker = record (add_attempt l.tracker.intent.rung Phase.launch_acked (some f) now l.tracker) {
      intent = record l.tracker.intent { rung = s };
    };
    consistency_attempt = 0;
  }

  on_capacity-again :
      (f : Fault) (now : ℕ) (l : Launching) (s : Rung)
      → next_rung l.tracker.intent.rung l.tracker.intent.fallback_chain ≡ some s
      → on_capacity f now l ≡ again (advanced f now s l)
  unfolding on_capacity advance_rung
  on_capacity-again f now l s e = ground arith

  turn-on_capacity :
      (k : Tick (Result E Observation)) (l : Launching) (m : HasNoCapacity classify k)
      → launch_turn limited classify k l
        ≡ on_capacity (classify m.error) k.now (emit (call_of l.tracker.intent) l)
  unfolding launch_turn
  turn-on_capacity k l m =
      rw (m.live_ctx, on_tick) (rw (m.reply, on_reply) (rw (m.class, on_fault) refl))

  capacity_turn :
      (k : Tick (Result E Observation)) (l : Launching)
      → HasNoCapacity classify k
      → IsCaught l
      → (l' : Launching) × (launch_turn limited classify k l ≡ again l') × IsCaught l'
  unfolding emit
  capacity_turn k l m h =
      let (s, next, at) = next_of_caught l h in
      let l₁ : Launching = emit (call_of l.tracker.intent) l in
      (
        advanced (classify m.error) k.now s l₁,
        turn-on_capacity k l m ∙ on_capacity-again (classify m.error) k.now l₁ s next,
        record { chain = h.chain; rung = at },
      )

  -- On a chain that names its first rung again as the third, capacity faults alone never end
  -- doLaunch: however many there are, it runs on between the first two rungs, and the rungs behind
  -- are never tried. Only its context can stop it.
  pub do_launch_cycles :
      (ks : List (Tick (Result E Observation))) (t : Tracker)
      → t.intent.fallback_chain ≡ a ∷ b ∷ a ∷ rest
      → t.intent.rung ≡ a
      → All (HasNoCapacity classify) ks
      → do_launch limited classify ks t ≡ none
  unfolding do_launch
  do_launch_cycles ks t c r m =
      loop_runs (launch_turn limited classify) IsCaught (HasNoCapacity classify) capacity_turn ks _
        m (record { chain = c; rung = inl r })
