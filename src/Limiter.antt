-- ===== src/Limiter.antt =====
-- internal/substrate/ratelimit.go: the token bucket that all cohorts of an account share. A float64 is any
-- type with the operations of Limiter.Numbers. Times and durations are nanoseconds, 0 is the zero time, and
-- the clock's reading is an argument. The mutex makes each call one step; the division of two durations
-- is exact.
pub mod Numbers
pub mod Bounds
pub mod Pause
pub mod Recovery
pub mod Examples
use queuezero.Prelude.{
  ℕ, ◌+◌, ◌-◌, ◌*◌, ◌/◌, Bool, true, false, ltb, leb, nat_beq, if◌then◌else◌, Option, List, [], ◌∷◌,
}
use queuezero.Prelude.Loop.{Turn, again, returned, loop}
use queuezero.Limiter.Numbers.{Float, below}

module _ {ℓ} (F : Type ℓ) where
  pub record LimiterConfig : Type ℓ where
    pub base_rate : F
    pub min_rate_fraction : F
    pub max_burst : F
    pub recovery_cooldown : ℕ
    pub recovery_step : F
    pub recovery_interval : ℕ

  pub record Limiter : Type ℓ where
    pub tokens : F
    pub max_tokens : F
    pub rate : F
    pub base_rate : F
    pub min_rate : F
    pub pause_until : ℕ
    pub last_backoff_end : ℕ
    pub recovery_cooldown : ℕ
    pub recovery_step : F
    pub recovery_interval : ℕ
    pub last_refill : ℕ

abbrev pub second : ℕ
second = 1000000000

abbrev pub millisecond : ℕ
millisecond = 1000000

abbrev pub or_duration : ℕ → ℕ → ℕ
or_duration n d = if nat_beq n 0 then d else n

abbrev pub later : ℕ → ℕ → ℕ
later a b = if ltb b a then a else b

-- A turn of the loop of Acquire: the clock's reading, and whether the context is done before the timer.
pub record Wake : Type 0 where
  pub now : ℕ
  pub done : Bool

-- A call of the limiter, with the clock's reading.
pub data Call : Type 0 where
  attempt : ℕ → Call
  throttled : ℕ → ℕ → Call

module _ {ℓ} {F : Type ℓ} ⦃f : Float F⦄ where
  -- The default of a setting that is not above zero.
  abbrev pub or_default : F → F → F
  or_default x d = if f.le x f.nought then d else x

  -- NewLimiter
  pub new_limiter : LimiterConfig F → ℕ → Limiter F
  new_limiter cfg now =
      let base = or_default cfg.base_rate (f.of_nat 20) in
      let burst = or_default cfg.max_burst base in
      record {
        tokens = burst;
        max_tokens = burst;
        rate = base;
        base_rate = base;
        min_rate = f.mul base (or_default cfg.min_rate_fraction f.tenth);
        pause_until = 0;
        last_backoff_end = 0;
        recovery_cooldown = or_duration cfg.recovery_cooldown (5 * second);
        recovery_step = or_default cfg.recovery_step f.one;
        recovery_interval = or_duration cfg.recovery_interval (2 * second);
        last_refill = now;
      }

  -- The smaller and the larger of a value and a bound.
  abbrev pub capped : F → F → F
  capped x bound = if below bound x then bound else x

  abbrev pub floored : F → F → F
  floored x bound = if below x bound then bound else x

  -- Limiter.Backoff, for `d`, at the time `now`.
  pub backoff : ℕ → ℕ → Limiter F → Limiter F
  backoff d now l = record l {
    rate = floored (f.div l.rate (f.of_nat 2)) l.min_rate;
    tokens = capped l.tokens f.one;
    pause_until = later (now + d) l.pause_until;
    last_backoff_end = later (now + d) l.last_backoff_end;
  }

  -- Limiter.refill
  pub refill : ℕ → Limiter F → Limiter F
  refill now l = if leb now l.last_refill then record l { last_refill = now } else record l {
    tokens = capped (f.add l.tokens (f.mul (f.seconds (now - l.last_refill)) l.rate)) l.max_tokens;
    last_refill = now;
  }

  -- The whole intervals since the recovery became possible.
  abbrev pub intervals : ℕ → Limiter F → ℕ
  intervals now l = (now - (l.last_backoff_end + l.recovery_cooldown)) / l.recovery_interval

  -- Limiter.applyRecovery
  pub apply_recovery : ℕ → Limiter F → Limiter F
  apply_recovery now l =
      if f.le l.base_rate l.rate
      then l
      else if ltb now (l.last_backoff_end + l.recovery_cooldown)
      then l
      else if nat_beq (intervals now l) 0
      then l
      else record l {
        rate =
            capped (f.add l.rate (f.mul (f.of_nat (intervals now l)) l.recovery_step)) l.base_rate;
      }

  -- How long to sleep until the bucket holds a token.
  abbrev pub shortfall : Limiter F → ℕ
  shortfall l =
      let wait = f.nanoseconds (f.mul (f.div (f.sub f.one l.tokens) l.rate) (f.of_nat second)) in
      if ltb wait millisecond then millisecond else wait

  abbrev pub take_token : Limiter F → ℕ × Limiter F
  take_token l =
      if f.le f.one l.tokens
      then (0, record l { tokens = f.sub l.tokens f.one })
      else (shortfall l, l)

  -- Limiter.tryAcquire: 0 for a token, or how long to sleep.
  pub try_acquire : ℕ → Limiter F → ℕ × Limiter F
  unfolding refill apply_recovery
  try_acquire now l =
      if ltb now l.pause_until
      then (l.pause_until - now, l)
      else take_token (apply_recovery now (refill now l))

  abbrev after_try : Wake → ℕ × Limiter F → Turn (Limiter F) (Bool × Limiter F)
  after_try k (wait, l) =
      if nat_beq wait 0 then returned (true, l) else if k.done then returned (false, l) else again l

  -- Limiter.Acquire: whether a permit was granted, and none where the loop runs on.
  pub acquire : List Wake → Limiter F → Option (Bool × Limiter F)
  unfolding try_acquire
  acquire = loop (λ k l. after_try k (try_acquire k.now l))

  pub call : Call → Limiter F → Limiter F
  unfolding backoff try_acquire
  call (attempt now) l = (try_acquire now l).1
  call (throttled d now) l = backoff d now l

  -- The calls of all goroutines, in the order in which they took the mutex.
  pub run : List Call → Limiter F → Limiter F
  unfolding call
  run [] l = l
  run (c ∷ cs) l = run cs (call c l)
