-- ===== src/Limiter/Recovery.antt =====
-- How the rate recovers.
use queuezero.Prelude.{ℕ, zero, suc, ◌+◌, ◌<◌, ◌≤◌, ◌≡◌, refl, ap, ◌∙◌, false, arith, List, [], ◌∷◌}
use queuezero.Limiter.Numbers.{Float, IsNumber}
use queuezero.Limiter.Pause.{not_paused}
use queuezero.Limiter.{
  Limiter, intervals, refill, apply_recovery, take_token, Call, attempt, call, run,
}

abbrev pub repeat : ℕ → Call → List Call
repeat zero c = []
repeat (suc n) c = c ∷ repeat n c

module _ {ℓ} {F : Type ℓ} ⦃f : Float F⦄ where
  -- What one attempt at the time `now` adds.
  abbrev pub gain : ℕ → Limiter F → F
  gain now l = f.mul (f.of_nat (intervals now l)) l.recovery_step

  -- The rate after `n` gains, with the last on top.
  abbrev pub grown : ℕ → F → F → F
  grown zero g r = r
  grown (suc n) g r = grown n g (f.add r g)

  -- No rate on the way reaches the base rate.
  abbrev pub StaysBelow : ℕ → F → F → F → Type 0
  StaysBelow zero g r base = f.le base r ≡ false
  StaysBelow (suc n) g r base = (f.le base r ≡ false) × StaysBelow n g (f.add r g) base

  -- The limiter can recover at this time, and one interval has passed at least.
  pub record Recovers (now : ℕ) (l : Limiter F) : Type 0 where
    pub unpaused : l.pause_until ≤ now
    pub eligible : l.last_backoff_end + l.recovery_cooldown ≤ now
    pub passed : 0 < intervals now l

  -- The fields that the recovery reads.
  pub record SameRecovery (l m : Limiter F) : Type ℓ where
    pub base : m.base_rate ≡ l.base_rate
    pub step : m.recovery_step ≡ l.recovery_step
    pub pause : m.pause_until ≡ l.pause_until
    pub ended : m.last_backoff_end ≡ l.last_backoff_end
    pub cooldown : m.recovery_cooldown ≡ l.recovery_cooldown
    pub interval : m.recovery_interval ≡ l.recovery_interval

  refill-SameRecovery : (now : ℕ) (l : Limiter F) → SameRecovery l (refill now l)
  unfolding refill
  refill-SameRecovery now l = ground arith

  apply_recovery-SameRecovery : (now : ℕ) (l : Limiter F) → SameRecovery l (apply_recovery now l)
  unfolding apply_recovery
  apply_recovery-SameRecovery now l = ground arith

  take_token-SameRecovery : (l : Limiter F) → SameRecovery l (take_token l).1
  take_token-SameRecovery l = ground arith

  SameRecovery-trans : (k l m : Limiter F) → SameRecovery k l → SameRecovery l m → SameRecovery k m
  SameRecovery-trans k l m h j = record {
    base = j.base ∙ h.base;
    step = j.step ∙ h.step;
    pause = j.pause ∙ h.pause;
    ended = j.ended ∙ h.ended;
    cooldown = j.cooldown ∙ h.cooldown;
    interval = j.interval ∙ h.interval;
  }

  attempt-SameRecovery :
      (now : ℕ) (l : Limiter F) → SameRecovery l (take_token (apply_recovery now (refill now l))).1
  attempt-SameRecovery now l =
      let m = refill now l in
      SameRecovery-trans l m _ (refill-SameRecovery now l) (
        SameRecovery-trans m (apply_recovery now m) _ (apply_recovery-SameRecovery now m)
          (take_token-SameRecovery (apply_recovery now m)))

  refill-rate : (now : ℕ) (l : Limiter F) → (refill now l).rate ≡ l.rate
  unfolding refill
  refill-rate now l = ground arith

  take_token-rate : (l : Limiter F) → (take_token l).1.rate ≡ l.rate
  take_token-rate l = ground arith

  gain-SameRecovery : (now : ℕ) (l m : Limiter F) → SameRecovery l m → gain now m ≡ gain now l
  gain-SameRecovery now l m h = rw (h.step, h.ended, h.cooldown, h.interval) refl

  Recovers-SameRecovery :
      (now : ℕ) (l m : Limiter F) → SameRecovery l m → Recovers now l → Recovers now m
  Recovers-SameRecovery now l m h r = record {
    unpaused = rw h.pause r.unpaused;
    eligible = rw (h.ended, h.cooldown) r.eligible;
    passed = rw (h.ended, h.cooldown, h.interval) r.passed;
  }

  apply_recovery-rate :
      (laws : IsNumber F) (now : ℕ) (l : Limiter F)
      → Recovers now l
      → f.le l.base_rate l.rate ≡ false
      → f.le l.base_rate (f.add l.rate (gain now l)) ≡ false
      → (apply_recovery now l).rate ≡ f.add l.rate (gain now l)
  unfolding apply_recovery
  apply_recovery-rate laws now l h slow next =
      ground (arith, laws.le_total l.base_rate (f.add l.rate (gain now l)))

  attempt_rate :
      (laws : IsNumber F) (now : ℕ) (l : Limiter F)
      → Recovers now l
      → f.le l.base_rate l.rate ≡ false
      → f.le l.base_rate (f.add l.rate (gain now l)) ≡ false
      → (take_token (apply_recovery now (refill now l))).1.rate ≡ f.add l.rate (gain now l)
  attempt_rate laws now l h slow next =
      let m = refill now l in
      let s = refill-SameRecovery now l in
      let g = gain-SameRecovery now l m s in
      take_token-rate (apply_recovery now m)
      ∙ apply_recovery-rate laws now m (Recovers-SameRecovery now l m s h)
          (rw (s.base, refill-rate now l) slow) (rw (s.base, refill-rate now l, g) next)
      ∙ rw (refill-rate now l, g) refl

  StaysBelow-head : (n : ℕ) (g r base : F) → StaysBelow n g r base → f.le base r ≡ false
  StaysBelow-head zero g r base h = h
  StaysBelow-head (suc n) g r base h = h.0

  -- The recovery is not driven by time alone: at one reading of the clock, each further attempt adds the
  -- whole gain since the cooldown ended once more, as long as the base rate is not reached.
  pub attempts_repeat-gain :
      (laws : IsNumber F) (now n : ℕ) (l : Limiter F)
      → Recovers now l
      → StaysBelow n (gain now l) l.rate l.base_rate
      → (run (repeat n (attempt now)) l).rate ≡ grown n (gain now l) l.rate
  unfolding run call
  attempts_repeat-gain laws now zero l h below_base = refl
  attempts_repeat-gain laws now (suc n) l h below_base =
      let m = (take_token (apply_recovery now (refill now l))).1 in
      let s = attempt-SameRecovery now l in
      let r =
        attempt_rate laws now l h below_base.0
          (StaysBelow-head n (gain now l) (f.add l.rate (gain now l)) l.base_rate below_base.1) in
      let g = gain-SameRecovery now l m s in
      let ih : (run (repeat n (attempt now)) m).rate ≡ grown n (gain now m) m.rate =
        attempts_repeat-gain laws now n m (Recovers-SameRecovery now l m s h)
          (rw (g, r, s.base) below_base.1) in
      ap (λ (t : ℕ × Limiter F). (run (repeat n (attempt now)) t.1).rate)
        (not_paused now l h.unpaused)
      ∙ ih
      ∙ rw (g, r) refl
