-- ===== src/Limiter/Bounds.antt =====
-- The rate and the tokens stay within their bounds.
use queuezero.Prelude.{ℕ, ◌-◌, List, [], ◌∷◌, arith, Bool-cases, inl, inr, ltb}
use queuezero.Limiter.Numbers.{Float, ◌≼◌, IsNumber}
use queuezero.Limiter.{
  Limiter, LimiterConfig, capped, floored, new_limiter, backoff, refill, apply_recovery, take_token,
  try_acquire, intervals, or_default, Call, attempt, throttled, call, run,
}

module _ {ℓ} {F : Type ℓ} ⦃f : Float F⦄ where
  pub record IsBounded (l : Limiter F) : Type ℓ where
    pub floor : f.nought ≼ l.min_rate
    pub slowest : l.min_rate ≼ l.rate
    pub fastest : l.rate ≼ l.base_rate
    pub burst : l.tokens ≼ l.max_tokens
    pub step : f.nought ≼ l.recovery_step

  module _ (laws : IsNumber F) where
    capped-le : (x b : F) → capped x b ≼ b
    capped-le x b = ground (arith, laws.le_refl b)

    le-capped : (a x b : F) → a ≼ x → a ≼ b → a ≼ capped x b
    le-capped a x b h k = ground arith

    -- A limit that is not above the bound.
    capped-le_of_le : (x c b : F) → x ≼ b → capped x c ≼ b
    capped-le_of_le x c b h =
        ground (arith, laws.le_total b c, laws.le_total c x, laws.le_total x c, laws.le_trans c x b)

    le-floored : (x b : F) → b ≼ floored x b
    le-floored x b = ground (arith, laws.le_refl b)

    floored-le : (x b c : F) → x ≼ c → b ≼ c → floored x b ≼ c
    floored-le x b c h k = ground arith

    pub backoff-IsBounded : (d now : ℕ) (l : Limiter F) → IsBounded l → IsBounded (backoff d now l)
    unfolding backoff
    backoff-IsBounded d now l h = record {
      floor = h.floor;
      slowest = le-floored (f.div l.rate (f.of_nat 2)) l.min_rate;
      fastest =
          floored-le (f.div l.rate (f.of_nat 2)) l.min_rate l.base_rate
            (laws.le_trans _ _ _ (laws.half_down l.rate (laws.le_trans _ _ _ h.floor h.slowest))
              h.fastest)
            (laws.le_trans _ _ _ h.slowest h.fastest);
      burst = capped-le_of_le l.tokens f.one l.max_tokens h.burst;
      step = h.step;
    }

    refill-IsBounded : (now : ℕ) (l : Limiter F) → IsBounded l → IsBounded (refill now l)
    unfolding refill
    refill-IsBounded now l h = ground (
      arith,
      capped-le (f.add l.tokens (f.mul (f.seconds (now - l.last_refill)) l.rate)) l.max_tokens,
    )

    apply_recovery-IsBounded :
        (now : ℕ) (l : Limiter F) → IsBounded l → IsBounded (apply_recovery now l)
    unfolding apply_recovery
    apply_recovery-IsBounded now l h =
        let gain = f.mul (f.of_nat (intervals now l)) l.recovery_step in
        let faster : l.min_rate ≼ capped (f.add l.rate gain) l.base_rate =
          le-capped l.min_rate (f.add l.rate gain) l.base_rate
            (laws.le_trans _ _ _ h.slowest
              (laws.add_up l.rate gain (laws.mul_up _ _ (laws.of_nat_up (intervals now l)) h.step)))
            (laws.le_trans _ _ _ h.slowest h.fastest) in
        let slower : capped (f.add l.rate gain) l.base_rate ≼ l.base_rate =
          capped-le (f.add l.rate gain) l.base_rate in
        ground arith

    take_token-IsBounded : (l : Limiter F) → IsBounded l → IsBounded (take_token l).1
    take_token-IsBounded l h =
        let less : f.sub l.tokens f.one ≼ l.max_tokens =
          laws.le_trans _ _ _ (laws.sub_down l.tokens f.one laws.one_up) h.burst in
        ground arith

    try_acquire-IsBounded :
        (now : ℕ) (l : Limiter F) → IsBounded l → IsBounded (try_acquire now l).1
    unfolding try_acquire
    try_acquire-IsBounded now l h = elim (Bool-cases (ltb now l.pause_until)) [
      | inl e ↦ rw e h
      | inr e ↦ rw e (
          take_token-IsBounded (apply_recovery now (refill now l))
            (apply_recovery-IsBounded now (refill now l) (refill-IsBounded now l h)))
    ]

    run-IsBounded : (cs : List Call) (l : Limiter F) → IsBounded l → IsBounded (run cs l)
    unfolding run call
    run-IsBounded [] l h = h
    run-IsBounded (attempt now ∷ cs) l h =
        run-IsBounded cs (try_acquire now l).1 (try_acquire-IsBounded now l h)
    run-IsBounded (throttled d now ∷ cs) l h =
        run-IsBounded cs (backoff d now l) (backoff-IsBounded d now l h)

    or_default-up : (x d : F) → f.nought ≼ d → f.nought ≼ or_default x d
    or_default-up x d h = ground (arith, laws.le_total x f.nought)

    -- From NewLimiter on, whatever calls of tryAcquire and Backoff follow and whatever the clock shows:
    -- the rate stays between the floor and the base rate, and the tokens at or below the burst, if the
    -- floor that the configuration asks for is not above the base rate.
    pub run-bounds :
        (cfg : LimiterConfig F) (now : ℕ) (cs : List Call)
        → (new_limiter cfg now).min_rate ≼ (new_limiter cfg now).base_rate
        → IsBounded (run cs (new_limiter cfg now))
    unfolding new_limiter
    run-bounds cfg now cs h =
        let base_up = or_default-up cfg.base_rate (f.of_nat 20) (laws.of_nat_up 20) in
        run-IsBounded cs (new_limiter cfg now) (record {
          floor =
              laws.mul_up _ _ base_up (or_default-up cfg.min_rate_fraction f.tenth laws.tenth_up);
          slowest = h;
          fastest = laws.le_refl _;
          burst = laws.le_refl _;
          step = or_default-up cfg.recovery_step f.one laws.one_up;
        })
