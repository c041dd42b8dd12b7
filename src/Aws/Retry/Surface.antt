-- ===== src/Aws/Retry/Surface.antt =====
-- What callWithRetry hands to its caller, and what it sends to EC2.
use queuezero.Prelude.{
  ℕ, ◌+◌, ◌≤◌, ◌≡◌, refl, Bool, true, false, Option, none, some, List, [], ◌∷◌, ◌++◌, arith, Result,
  ok, err, All, Bool-cases, ltb, leb, subst, inl, inr,
}
use queuezero.Prelude.Counting.{bit, count_if, All-snoc}
use queuezero.Prelude.Loop.{again, returned, loop_rule}
use queuezero.Cohort.State.{Fault, FaultClass}
use queuezero.Aws.Errors.{GoError}
use queuezero.Aws.Classifier.{classify}
use queuezero.Aws.Classifier.Classes.{is_ambiguous}
use queuezero.Aws.Retry.{
  Answer, Attempted, Calling, stop, on_throttle, unless_cancelled, on_ambiguous, on_class,
  on_result, on_acquired, call_turn, call_with_retry,
}

abbrev pub is_throttle : FaultClass → Bool
is_throttle FaultClass.throttle = true
is_throttle FaultClass.retryable_consistency = false
is_throttle FaultClass.capacity_exhausted = false
is_throttle FaultClass.terminal = false
is_throttle FaultClass.ambiguous = false

-- The error that the closure returned was throttled: Acquire's, or else the reply's.
abbrev throttled_reply : {R : Type 0} → Result GoError R → Bool
throttled_reply (ok out) = false
throttled_reply (err e) = is_throttle (classify e).class

abbrev closure_result : {R : Type 0} → Option GoError → Result GoError R → Result GoError R
closure_result none r = r
closure_result (some e) r = err e

abbrev pub throttled : {R : Type 0} → Attempted R → Bool
throttled k = throttled_reply (closure_result k.acquired k.reply)

module _ {I : Type 0} where
  -- The requests so far are all `input`.
  abbrev Same : I → Calling I → Type 0
  Same input s = All (λ x. x ≡ input) s.sent

module _ {R : Type 0} where
  -- An error that a caller may see, where `n` replies were throttled.
  abbrev pub Surfaced : ℕ → Result Fault R → Type 0
  Surfaced n (ok out) = Unit
  Surfaced n (err f) = (is_ambiguous f.class ≡ false) × (is_throttle f.class ≡ true → 6 ≤ n)

  more : (n m : ℕ) (r : Result Fault R) → n ≤ m → Surfaced n r → Surfaced m r
  more n m (ok out) h p = tt
  more n m (err f) h p = (p.0, λ t. omega (arith, p.1 t))

module _ {I R : Type 0} where
  -- What a turn shows, where `b` says that its reply was throttled.
  abbrev Shows : I → Bool → Calling I → Answer I R → Type 0
  Shows input b s (again s') =
      (s'.throttle_attempt ≡ s.throttle_attempt + bit b) × (Same input s → Same input s')
  Shows input b s (returned (r, s')) =
      Surfaced (s.throttle_attempt + bit b) r × (Same input s → Same input s')

module _ {I : Type 0} (R : Type 0) where
  on_throttle-Shows :
      (input : I) (f : Fault) (ctx : Option GoError) (draw : ℕ) (s : Calling I)
      → is_ambiguous f.class ≡ false
      → Shows input true s (on_throttle {R = R} f ctx draw s)
  unfolding on_throttle unless_cancelled stop
  on_throttle-Shows input f none draw s a = elim (Bool-cases (ltb 5 (s.throttle_attempt + 1))) [
    | inl over ↦ rw (over, on_throttle) ((a, λ _. ground arith), λ h. h)
    | inr under ↦ rw (under, on_throttle) (refl, λ h. h)
  ]
  on_throttle-Shows input f (some e) draw s a = elim (Bool-cases (ltb 5 (s.throttle_attempt + 1))) [
    | inl over ↦ rw (over, on_throttle) ((a, λ _. ground arith), λ h. h)
    | inr under ↦ rw (under, on_throttle) ((refl, λ t. absurd cc), λ h. h)
  ]

  on_ambiguous-Shows :
      (input : I) (f : Fault) (s : Calling I) → Shows input false s (on_ambiguous {R = R} f s)
  unfolding on_ambiguous stop
  on_ambiguous-Shows input f s = elim (Bool-cases (leb 3 s.ambiguous_attempt)) [
    | inl over ↦ rw (over, on_ambiguous) ((refl, λ t. absurd cc), λ h. h)
    | inr under ↦ rw (under, on_ambiguous) (omega arith, λ h. h)
  ]

  on_class-Shows :
      (input : I) (c : FaultClass) (f : Fault) (ctx : Option GoError) (draw : ℕ) (s : Calling I)
      → f.class ≡ c
      → Shows input (is_throttle c) s (on_class {R = R} c f ctx draw s)
  unfolding on_class stop
  on_class-Shows input FaultClass.throttle f ctx draw s e =
      on_throttle-Shows input f ctx draw s (rw e refl)
  on_class-Shows input FaultClass.ambiguous f ctx draw s e = on_ambiguous-Shows input f s
  on_class-Shows input FaultClass.retryable_consistency f ctx draw s e =
      ((rw e refl, λ t. absurd (ground arith)), λ h. h)
  on_class-Shows input FaultClass.capacity_exhausted f ctx draw s e =
      ((rw e refl, λ t. absurd (ground arith)), λ h. h)
  on_class-Shows input FaultClass.terminal f ctx draw s e =
      ((rw e refl, λ t. absurd (ground arith)), λ h. h)

module _ {I R : Type 0} where
  on_result-Shows :
      (input : I) (r : Result GoError R) (ctx : Option GoError) (draw : ℕ) (s : Calling I)
      → Shows input (throttled_reply r) s (on_result r ctx draw s)
  unfolding on_result
  on_result-Shows input (ok out) ctx draw s = (tt, λ h. h)
  on_result-Shows input (err e) ctx draw s =
      on_class-Shows R input (classify e).class (classify e) ctx draw s refl

  sent_before :
      (input : I) (b : Bool) (s : Calling I) (a : Answer I R)
      → Shows input b (record s { sent = s.sent ++ input ∷ [] }) a
      → Shows input b s a
  sent_before input b s (again s') h = (h.0, λ p. h.1 (All-snoc _ s.sent input p refl))
  sent_before input b s (returned (r, s')) h = (h.0, λ p. h.1 (All-snoc _ s.sent input p refl))

  on_acquired-Shows :
      (input : I) (a : Option GoError) (k : Attempted R) (s : Calling I)
      → Shows input (throttled_reply (closure_result a k.reply)) s (on_acquired input a k s)
  unfolding on_acquired
  on_acquired-Shows input none k s =
      sent_before input _ s _
        (on_result-Shows input k.reply k.ctx k.draw (record s { sent = s.sent ++ input ∷ [] }))
  on_acquired-Shows input (some e) k s = on_result-Shows input (err e) k.ctx k.draw s

  -- The result of callWithRetry.
  abbrev pub ResultOf : I → List (Attempted R) → Calling I → Result Fault R × Calling I → Type 0
  ResultOf input ks s (r, s') =
      Surfaced (s.throttle_attempt + count_if throttled ks) r × (Same input s → Same input s')

  at_stop :
      (input : I) (b : Bool) (n : ℕ) (s s' : Calling I) (r : Result Fault R)
      → Shows input b s (returned (r, s'))
      → Surfaced (s.throttle_attempt + (bit b + n)) r × (Same input s → Same input s')
  at_stop input b n s s' r h = (more (s.throttle_attempt + bit b) _ r (omega arith) h.0, h.1)

  at_go :
      (input : I) (b : Bool) (n : ℕ) (s u s' : Calling I) (r : Result Fault R)
      → Shows {R = R} input b s (again u)
      → Surfaced (u.throttle_attempt + n) r × (Same input u → Same input s')
      → Surfaced (s.throttle_attempt + (bit b + n)) r × (Same input s → Same input s')
  at_go input b n s u s' r h k =
      (more (u.throttle_attempt + n) _ r (omega (arith, h.0)) k.0, λ p. k.1 (h.1 p))

  turn-Shows :
      (input : I) (k : Attempted R) (s : Calling I) {a : Answer I R}
      → call_turn input k s ≡ a
      → Shows input (throttled k) s a
  unfolding call_turn
  turn-Shows input k s e =
      subst (Shows input (throttled k) s) e (on_acquired-Shows input k.acquired k s)

  -- An error of callWithRetry is never ambiguous, and is a throttle only after six throttled replies;
  -- and every request that was sent to EC2 is the one that was built, so all carry its token.
  pub call_with_retry_surfaces :
      (input : I) (ks : List (Attempted R)) (r : Result Fault R) (s : Calling I)
      → call_with_retry input ks ≡ some (r, s)
      → Surfaced (count_if throttled ks) r × All (λ x. x ≡ input) s.sent
  unfolding call_with_retry
  call_with_retry_surfaces input ks r s e =
      let start : Calling I = record {
        throttle_attempt = 0;
        ambiguous_attempt = 0;
        sent = [];
        backoffs = [];
      } in
      let p : ResultOf input ks start (r, s) =
        loop_rule (call_turn input) (ResultOf input)
          (λ k ks s (r, s') e. at_stop input (throttled k) _ s s' r (turn-Shows input k s e))
          (λ k ks s u (r, s') e h. at_go input (throttled k) _ s u s' r (turn-Shows input k s e) h)
          ks start (r, s) e in
      (more (0 + count_if throttled ks) _ r (omega arith) p.0, p.1 tt)
