-- ===== src/Limiter/Examples.antt =====
-- A limiter that counts in whole numbers.
use queuezero.Prelude.{ℕ, ◌+◌, ◌-◌, ◌*◌, ◌/◌, ◌<◌, ◌≤◌, ◌≡◌, refl, leb, arith, [], ◌∷◌}
use queuezero.Limiter.Numbers.{Float, ◌≼◌, IsNumber}
use queuezero.Limiter.{
  Limiter, LimiterConfig, new_limiter, backoff, try_acquire, attempt, throttled, run,
}
use queuezero.Limiter.Bounds.{IsBounded, run-bounds}
use queuezero.Limiter.Pause.{paused_grants_nothing}
use queuezero.Limiter.Recovery.{Recovers}

-- A second is one nanosecond here.
instance abbrev whole : Float ℕ
whole = record {
  nought = 0;
  one = 1;
  tenth = 1;
  le = leb;
  add = λ a b. a + b;
  sub = λ a b. a - b;
  mul = λ a b. a * b;
  div = λ a b. a / b;
  of_nat = λ n. n;
  seconds = λ n. n;
  nanoseconds = λ n. n;
}

half : (a : ℕ) → a / 2 ≤ a
half a = omega arith

whole-IsNumber : IsNumber ℕ
whole-IsNumber = record {
  le_refl = λ x. ground arith;
  le_trans = λ x y z p q. ground arith;
  le_total = λ x y p. ground arith;
  add_up = λ x y p. ground arith;
  sub_down = λ x y p. ground arith;
  half_down = λ x p. ground (arith, half x);
  mul_up = λ x y p q. ground arith;
  one_up = refl;
  tenth_up = refl;
  of_nat_up = λ n. ground arith;
  seconds_up = λ n. ground arith;
}

abbrev cfg : LimiterConfig ℕ
cfg = record {
  base_rate = 10;
  min_rate_fraction = 1;
  max_burst = 20;
  recovery_cooldown = 5;
  recovery_step = 1;
  recovery_interval = 2;
}

slow_floor : (new_limiter cfg 5).min_rate ≼ (new_limiter cfg 5).base_rate
unfolding new_limiter
slow_floor = refl

run-bounds_example :
    IsBounded (run (attempt 7 ∷ throttled 3 8 ∷ attempt 9 ∷ []) (new_limiter cfg 5))
run-bounds_example =
    run-bounds whole-IsNumber cfg 5 (attempt 7 ∷ throttled 3 8 ∷ attempt 9 ∷ []) slow_floor

-- One token is left of 20, at 8 a second.
abbrev drained : Limiter ℕ
drained = record {
  tokens = 1;
  max_tokens = 20;
  rate = 8;
  base_rate = 300;
  min_rate = 1;
  pause_until = 0;
  last_backoff_end = 0;
  recovery_cooldown = 5;
  recovery_step = 3;
  recovery_interval = 2;
  last_refill = 50;
}

paused_grants_nothing_example :
    (60 ≤ 57 + (try_acquire 57 (run (attempt 53 ∷ []) (backoff 10 50 drained))).0)
    × (0 < (try_acquire 57 (run (attempt 53 ∷ []) (backoff 10 50 drained))).0)
    × ((try_acquire 57 (run (attempt 53 ∷ []) (backoff 10 50 drained))).1
        ≡ run (attempt 53 ∷ []) (backoff 10 50 drained))
paused_grants_nothing_example =
    paused_grants_nothing 10 50 57 (attempt 53 ∷ []) drained (omega arith)

can_recover : Recovers 50 drained
can_recover = record { unpaused = omega arith; eligible = omega arith; passed = omega arith }
