-- ===== src/Limiter/Pause.antt =====
-- The pause that a Backoff sets, and what becomes of the bucket at its end.
use queuezero.Prelude.{ℕ, ◌+◌, ◌-◌, ◌<◌, ◌≤◌, ◌≡◌, ap, ◌∙◌, false, arith, ltb, List, [], ◌∷◌}
use queuezero.Limiter.Numbers.{Float, ◌≼◌}
use queuezero.Limiter.{
  Limiter, capped, floored, backoff, refill, apply_recovery, take_token, try_acquire, Call, attempt,
  throttled, call, run,
}

le→ltb-false : (a b : ℕ) → b ≤ a → ltb a b ≡ false
le→ltb-false a b h = ground arith

module _ {ℓ} {F : Type ℓ} ⦃f : Float F⦄ where
  apply_recovery-same :
      (now : ℕ) (l : Limiter F)
      → ((apply_recovery now l).pause_until ≡ l.pause_until)
        × ((apply_recovery now l).tokens ≡ l.tokens)
  unfolding apply_recovery
  apply_recovery-same now l = ground arith

  refill-same : (now : ℕ) (l : Limiter F) → (refill now l).pause_until ≡ l.pause_until
  unfolding refill
  refill-same now l = ground arith

  take_token-same : (l : Limiter F) → (take_token l).1.pause_until ≡ l.pause_until
  take_token-same l = ground arith

  try_acquire-same : (now : ℕ) (l : Limiter F) → (try_acquire now l).1.pause_until ≡ l.pause_until
  unfolding try_acquire
  try_acquire-same now l = ground (
    arith,
    take_token-same (apply_recovery now (refill now l)),
    apply_recovery-same now (refill now l),
    refill-same now l,
  )

  call-keeps_pause : (c : Call) (l : Limiter F) → l.pause_until ≤ (call c l).pause_until
  unfolding call backoff
  call-keeps_pause (attempt now) l = omega (arith, try_acquire-same now l)
  call-keeps_pause (throttled d now) l = ground arith

  run-keeps_pause : (cs : List Call) (l : Limiter F) → l.pause_until ≤ (run cs l).pause_until
  unfolding run
  run-keeps_pause [] l = omega arith
  run-keeps_pause (c ∷ cs) l = omega (arith, call-keeps_pause c l, run-keeps_pause cs (call c l))

  backoff-sets : (d t : ℕ) (l : Limiter F) → t + d ≤ (backoff d t l).pause_until
  unfolding backoff
  backoff-sets d t l = ground arith

  -- After a Backoff of `d` at the time `t`, whatever calls follow, tryAcquire grants no permit before the
  -- time t + d: it says to sleep, until then at least, and leaves the limiter as it is.
  pub paused_grants_nothing :
      (d t now : ℕ) (cs : List Call) (l : Limiter F)
      → now < t + d
      → (t + d ≤ now + (try_acquire now (run cs (backoff d t l))).0)
        × (0 < (try_acquire now (run cs (backoff d t l))).0)
        × ((try_acquire now (run cs (backoff d t l))).1 ≡ run cs (backoff d t l))
  unfolding try_acquire
  paused_grants_nothing d t now cs l h =
      ground (arith, backoff-sets d t l, run-keeps_pause cs (backoff d t l))

  pub not_paused :
      (now : ℕ) (l : Limiter F)
      → l.pause_until ≤ now
      → try_acquire now l ≡ take_token (apply_recovery now (refill now l))
  unfolding try_acquire
  not_paused now l h = rw (le→ltb-false now l.pause_until h)

  refill-full :
      (now : ℕ) (l : Limiter F)
      → l.last_refill < now
      → f.le (f.add l.tokens (f.mul (f.seconds (now - l.last_refill)) l.rate)) l.max_tokens ≡ false
      → (refill now l).tokens ≡ l.max_tokens
  unfolding refill
  refill-full now l h k = ground arith

  take_token-full :
      (l : Limiter F) (m : F)
      → l.tokens ≡ m
      → f.one ≼ m
      → ((take_token l).0 ≡ 0) × ((take_token l).1.tokens ≡ f.sub m f.one)
  take_token-full l m e h = ground arith

  -- The rate that a Backoff leaves.
  abbrev pub halved : Limiter F → F
  halved l = floored (f.div l.rate (f.of_nat 2)) l.min_rate

  -- The pause does not suspend the refill: where the bucket was refilled at the time of the Backoff, and
  -- what accrues at the halved rate over the pause fills the bucket, it is full at the end of the pause.
  pub full_after_pause :
      (d t : ℕ) (l : Limiter F)
      → 0 < d
      → l.pause_until ≤ t + d
      → l.last_refill ≡ t
      → f.one ≼ l.max_tokens
      → f.le (f.add (capped l.tokens f.one) (f.mul (f.seconds d) (halved l))) l.max_tokens ≡ false
      → ((try_acquire (t + d) (backoff d t l)).0 ≡ 0)
        × ((try_acquire (t + d) (backoff d t l)).1.tokens ≡ f.sub l.max_tokens f.one)
  unfolding backoff
  full_after_pause d t l d_pos over at_t burst fills =
      let l' = backoff d t l in
      let ready : l'.pause_until ≤ t + d = ground arith in
      let lapse : t + d - l'.last_refill ≡ d = omega arith in
      let full : (refill (t + d) l').tokens ≡ l.max_tokens = refill-full (t + d) l' (omega arith) (
        ap (λ (n : ℕ). f.le (f.add l'.tokens (f.mul (f.seconds n) l'.rate)) l.max_tokens) lapse
        ∙ fills) in
      rw (not_paused (t + d) l' ready) (
        take_token-full (apply_recovery (t + d) (refill (t + d) l')) l.max_tokens
          ((apply_recovery-same (t + d) (refill (t + d) l')).1 ∙ full) burst)
