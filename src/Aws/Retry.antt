-- ===== src/Aws/Retry.antt =====
-- internal/substrate/aws/client.go: callWithRetry, with the closure that its callers pass: Acquire of
-- the limiter and then one call of EC2 on a request built once. What one turn of the loop meets is an
-- `Attempted`; the loop is a recursion on the list of those, and `none` says that it runs on.
-- The jitter of throttleBackoff is 0.2.
pub mod Bound
pub mod Surface
pub mod Exhausted
pub mod Examples
use queuezero.Prelude.{
  ℕ, ◌+◌, String, ◌<>◌, Bool, true, false, Option, none, some, List, [], ◌∷◌, ◌++◌, leb, ltb,
  if◌then◌else◌, Result, ok, err,
}
use queuezero.Prelude.Loop.{Turn, again, returned, loop}
use queuezero.Cohort.State.{Fault, FaultClass}
use queuezero.Cohort.Backoff.{BackoffPolicy, duration}
use queuezero.Aws.Errors.{GoError, text_of}
use queuezero.Aws.Classifier.{classify}

abbrev pub max_ambiguous_retries : ℕ
max_ambiguous_retries = 3

abbrev pub max_throttle_retries : ℕ
max_throttle_retries = 5

abbrev pub throttle_backoff : BackoffPolicy
throttle_backoff = record { base = 500_000_000; cap = 60_000_000_000; jitter = 20 }

-- The error of Acquire, the reply of the call, ctx.Err() after it, and a draw of the random source.
pub record Attempted {ℓ} (R : Type ℓ) : Type ℓ where
  pub acquired : Option GoError
  pub reply : Result GoError R
  pub ctx : Option GoError
  pub draw : ℕ

-- The counters, the requests sent to EC2, and the calls of limiter.Backoff.
pub record Calling {ℓ} (I : Type ℓ) : Type ℓ where
  pub throttle_attempt : ℕ
  pub ambiguous_attempt : ℕ
  pub sent : List I
  pub backoffs : List ℕ

-- A return: the output, or the fault that faultErr wraps.
abbrev pub Answer : Type 0 → Type 0 → Type 0
Answer I R = Turn (Calling I) (Result Fault R × Calling I)

abbrev cancelled_fault : GoError → Fault
cancelled_fault e = record {
  class = FaultClass.terminal;
  code = "ContextCanceled";
  retryable = false;
  message = "context cancelled during throttle retry: " <> text_of e;
}

abbrev unresolved_fault : Fault → Fault
unresolved_fault f = record {
  class = FaultClass.terminal;
  code = f.code;
  retryable = false;
  message = "ambiguous fault unresolved after 3 retries: " <> f.message;
}

module _ {I R : Type 0} where
  stop : Fault → Calling I → Answer I R
  stop f s = returned (err f, s)

  unless_cancelled : Option GoError → Calling I → Answer I R
  unfolding stop
  unless_cancelled none s = again s
  unless_cancelled (some e) s = stop (cancelled_fault e) s

  on_throttle : Fault → Option GoError → ℕ → Calling I → Answer I R
  unfolding stop unless_cancelled
  on_throttle f ctx draw s =
      let s' = record s {
        throttle_attempt = s.throttle_attempt + 1;
        ambiguous_attempt = 0;
        backoffs = s.backoffs ++ duration throttle_backoff s.throttle_attempt draw ∷ [];
      } in
      if ltb max_throttle_retries s'.throttle_attempt then stop f s' else unless_cancelled ctx s'

  on_ambiguous : Fault → Calling I → Answer I R
  unfolding stop
  on_ambiguous f s =
      if leb max_ambiguous_retries s.ambiguous_attempt
      then stop (unresolved_fault f) s
      else again (record s { ambiguous_attempt = s.ambiguous_attempt + 1 })

  -- The switch on the class.
  on_class : FaultClass → Fault → Option GoError → ℕ → Calling I → Answer I R
  unfolding on_throttle on_ambiguous stop
  on_class FaultClass.throttle f ctx draw s = on_throttle f ctx draw s
  on_class FaultClass.ambiguous f ctx draw s = on_ambiguous f s
  on_class FaultClass.retryable_consistency f ctx draw s = stop f s
  on_class FaultClass.capacity_exhausted f ctx draw s = stop f s
  on_class FaultClass.terminal f ctx draw s = stop f s

  on_result : Result GoError R → Option GoError → ℕ → Calling I → Answer I R
  unfolding on_class
  on_result (ok out) ctx draw s = returned (ok out, s)
  on_result (err e) ctx draw s = let f = classify e in on_class f.class f ctx draw s

  -- The closure: with no permit there is no call.
  on_acquired : I → Option GoError → Attempted R → Calling I → Answer I R
  unfolding on_result
  on_acquired input (some e) k s = on_result (err e) k.ctx k.draw s
  on_acquired input none k s =
      on_result k.reply k.ctx k.draw (record s { sent = s.sent ++ input ∷ [] })

  pub call_turn : I → Attempted R → Calling I → Answer I R
  unfolding on_acquired
  call_turn input k s = on_acquired input k.acquired k s

  -- Client.callWithRetry
  unfoldable pub call_with_retry : I → List (Attempted R) → Option (Result Fault R × Calling I)
  unfolding loop call_turn
  call_with_retry input ks =
      loop (call_turn input) ks
        (record { throttle_attempt = 0; ambiguous_attempt = 0; sent = []; backoffs = [] })
