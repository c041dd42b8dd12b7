-- ===== src/Aws/Retry/Bound.antt =====
-- How often callWithRetry calls EC2.
use queuezero.Prelude.{
  ℕ, ◌+◌, ◌-◌, ◌*◌, ◌≤◌, ◌≡◌, refl, true, Option, none, some, List, [], ◌∷◌, arith, is_some, Result,
  ok, err, length,
}
use queuezero.Prelude.Counting.{count_if}
use queuezero.Prelude.Loop.{again, loop_returns}
use queuezero.Cohort.State.{Fault, FaultClass}
use queuezero.Aws.Errors.{GoError}
use queuezero.Aws.Classifier.{classify}
use queuezero.Aws.Retry.{
  Attempted, Calling, on_throttle, unless_cancelled, on_ambiguous, on_class, on_result, on_acquired,
  call_turn, call_with_retry,
}

module _ {I : Type 0} where
  -- Four calls before each throttle, and four after the last one that is answered by a retry.
  abbrev room : Calling I → ℕ
  room s = 4 * (5 - s.throttle_attempt) + (3 - s.ambiguous_attempt) + 1

  record IsCounting (s : Calling I) : Type 0 where
    throttles : s.throttle_attempt ≤ 5
    ambiguities : s.ambiguous_attempt ≤ 3

  abbrev Falls : Calling I → Calling I → Type 0
  Falls s s' = IsCounting s' × (room s' + 1 ≤ room s)

module _ {R : Type 0} where
  abbrev every : List (Attempted R) → ℕ
  every ks = count_if (λ k. true) ks

  every-length : (ks : List (Attempted R)) → every ks ≡ length ks
  every-length [] = refl
  every-length (k ∷ ks) = omega (arith, every-length ks)

module _ {I R : Type 0} where
  on_throttle-Falls :
      (f : Fault) (ctx : Option GoError) (draw : ℕ) (s s' : Calling I)
      → IsCounting s
      → on_throttle {I = I} {R = R} f ctx draw s ≡ again s'
      → Falls s s'
  unfolding on_throttle unless_cancelled
  on_throttle-Falls f ctx draw s s' h e =
      let t : s'.throttle_attempt ≡ s.throttle_attempt + 1 = ground arith in
      let a : s'.ambiguous_attempt ≡ 0 = ground arith in
      let b : s.throttle_attempt + 1 ≤ 5 = ground arith in
      (record { throttles = omega arith; ambiguities = omega arith }, omega (arith, h.ambiguities))

  on_ambiguous-Falls :
      (f : Fault) (s s' : Calling I)
      → IsCounting s
      → on_ambiguous {I = I} {R = R} f s ≡ again s'
      → Falls s s'
  unfolding on_ambiguous
  on_ambiguous-Falls f s s' h e =
      let t : s'.throttle_attempt ≡ s.throttle_attempt = ground arith in
      let a : s'.ambiguous_attempt ≡ s.ambiguous_attempt + 1 = ground arith in
      let b : s.ambiguous_attempt + 1 ≤ 3 = ground arith in
      (record { throttles = omega (arith, h.throttles); ambiguities = omega arith }, omega arith)

  on_class-Falls :
      (c : FaultClass) (f : Fault) (ctx : Option GoError) (draw : ℕ) (s s' : Calling I)
      → IsCounting s
      → on_class {I = I} {R = R} c f ctx draw s ≡ again s'
      → Falls s s'
  unfolding on_class
  on_class-Falls FaultClass.throttle f ctx draw s s' h e = on_throttle-Falls f ctx draw s s' h e
  on_class-Falls FaultClass.ambiguous f ctx draw s s' h e = on_ambiguous-Falls f s s' h e
  on_class-Falls FaultClass.retryable_consistency f ctx draw s s' h e = absurd (ground arith)
  on_class-Falls FaultClass.capacity_exhausted f ctx draw s s' h e = absurd (ground arith)
  on_class-Falls FaultClass.terminal f ctx draw s s' h e = absurd (ground arith)

  on_result-Falls :
      (r : Result GoError R) (ctx : Option GoError) (draw : ℕ) (s s' : Calling I)
      → IsCounting s
      → on_result r ctx draw s ≡ again s'
      → Falls s s'
  unfolding on_result
  on_result-Falls (ok out) ctx draw s s' h e = absurd (ground arith)
  on_result-Falls (err x) ctx draw s s' h e =
      on_class-Falls (classify x).class (classify x) ctx draw s s' h e

  on_acquired-Falls :
      (input : I) (a : Option GoError) (k : Attempted R) (s s' : Calling I)
      → IsCounting s
      → on_acquired input a k s ≡ again s'
      → Falls s s'
  unfolding on_acquired
  on_acquired-Falls input (some x) k s s' h e = on_result-Falls (err x) k.ctx k.draw s s' h e
  on_acquired-Falls input none k s s' h e =
      on_result-Falls k.reply k.ctx k.draw _ s'
        (record { throttles = h.throttles; ambiguities = h.ambiguities }) e

  -- callWithRetry returns by its 24th call of the closure, whatever the provider answers: three
  -- re-issues after an ambiguous fault and five retries after a throttle are all that it makes.
  pub call_with_retry_returns :
      (input : I) (ks : List (Attempted R))
      → 24 ≤ length ks
      → is_some (call_with_retry input ks) ≡ true
  unfolding call_with_retry call_turn
  call_with_retry_returns input ks m =
      loop_returns (call_turn input) IsCounting room (λ k. true) (λ s h. omega arith)
        (λ k s s' h e. on_acquired-Falls input k.acquired k s s' h e) ks _
        (record { throttles = omega arith; ambiguities = omega arith })
        (omega (arith, m, every-length ks))
