-- ===== src/Aws/Retry/Exhausted.antt =====
-- A provider that throttles every call.
use queuezero.Prelude.{
  ℕ, zero, suc, ◌+◌, ◌≤◌, ◌≡◌, refl, none, some, List, [], ◌∷◌, ◌++◌, arith, err, length, ltb,
  length-append, map, if◌then◌else◌,
}
use queuezero.Prelude.Loop.{again, returned, loop}
use queuezero.Cohort.State.{FaultClass}
use queuezero.Cohort.Backoff.{duration}
use queuezero.Aws.Errors.{GoError}
use queuezero.Aws.Classifier.{classify}
use queuezero.Aws.Retry.{
  Attempted, Calling, stop, on_throttle, unless_cancelled, on_class, on_result, on_acquired,
  call_turn, call_with_retry, throttle_backoff,
}

-- A turn whose call is throttled, in a live context.
abbrev pub throttled_turn : {R : Type 0} → GoError → ℕ → Attempted R
throttled_turn e draw = record { acquired = none; reply = err e; ctx = none; draw = draw }

-- The state after it.
abbrev bump : {I : Type 0} → I → ℕ → Calling I → Calling I
bump input draw s = record {
  throttle_attempt = s.throttle_attempt + 1;
  ambiguous_attempt = 0;
  sent = s.sent ++ input ∷ [];
  backoffs = s.backoffs ++ duration throttle_backoff s.throttle_attempt draw ∷ [];
}

module _ {I : Type 0} (R : Type 0) (e : GoError)
    (throttles : (classify e).class ≡ FaultClass.throttle) where
  turn_eq :
      (input : I) (draw : ℕ) (s : Calling I)
      → call_turn {R = R} input (throttled_turn e draw) s ≡ (
          if ltb 5 (s.throttle_attempt + 1)
          then returned (err (classify e), bump input draw s)
          else again (bump input draw s))
  unfolding call_turn on_acquired on_result on_class on_throttle unless_cancelled stop
  turn_eq input draw s = rw throttles refl

  exhausts :
      (input : I) (draws : List ℕ) (n : ℕ) (s : Calling I)
      → s.throttle_attempt + n ≡ 5
      → suc n ≤ length draws
      → (s' : Calling I) × (loop (call_turn {R = R} input) (map (throttled_turn e) draws) s
          ≡ some (err (classify e), s'))
        × (length s'.sent ≡ length s.sent + suc n)
        × (length s'.backoffs ≡ length s.backoffs + suc n)
  unfolding loop
  exhausts input [] n s h m = absurd (omega arith)
  exhausts input (d ∷ ds) zero s h m = (
    bump input d s,
    rw (turn_eq input d s, loop) (ground arith),
    omega (arith, length-append s.sent (input ∷ [])),
    omega (arith, length-append s.backoffs (duration throttle_backoff s.throttle_attempt d ∷ [])),
  )
  exhausts input (d ∷ ds) (suc n) s h m =
      let (s', q, sent, backoffs) =
        exhausts input ds n (bump input d s) (omega arith) (omega arith) in
      (
        s',
        rw (turn_eq input d s, loop) (ground (arith, q)),
        omega (arith, sent, length-append s.sent (input ∷ [])),
        omega (
          arith,
          backoffs,
          length-append s.backoffs (duration throttle_backoff s.throttle_attempt d ∷ []),
        ),
      )

  -- When EC2 throttles six calls in a row, and the context stays live, callWithRetry hands the
  -- throttle to its caller, after six requests and six calls of the limiter's Backoff.
  pub throttle_surfaces :
      (input : I) (draws : List ℕ)
      → 6 ≤ length draws
      → (s : Calling I) × (call_with_retry {R = R} input (map (throttled_turn e) draws)
          ≡ some (err (classify e), s))
        × (length s.sent ≡ 6)
        × (length s.backoffs ≡ 6)
  unfolding call_with_retry
  throttle_surfaces input draws m =
      let (s, q, sent, backoffs) =
        exhausts input draws 5
          (record { throttle_attempt = 0; ambiguous_attempt = 0; sent = []; backoffs = [] }) refl
          m in
      (s, q, omega (arith, sent), omega (arith, backoffs))
