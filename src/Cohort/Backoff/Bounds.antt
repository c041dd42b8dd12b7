-- ===== src/Cohort/Backoff/Bounds.antt =====
-- The bounds that the comment on BackoffPolicy.Duration promises.
use Prim.Native.Nat.{min}
use queuezero.Prelude.{
  ℕ, ◌+◌, ◌*◌, ◌/◌, ◌^◌, ◌≤◌, ◌<◌, ◌≡◌, arith, inl, inr, leb, leb→le, leb-false→lt, Bool-cases,
}
use queuezero.Cohort.Backoff.{BackoffPolicy, draws, jitter_of, duration}

jitter_of-le :
    (p : BackoffPolicy) (d draw : ℕ) → draw < draws → jitter_of p d draw ≤ d * p.jitter / 100
unfolding jitter_of
jitter_of-le p d draw h =
    let x : ℕ = d * p.jitter in let m : x * draw ≤ x * draws = grind arith in omega arith

-- The wait before an attempt is at least the exponential value or the cap, whichever is less, and
-- exceeds it by at most the jitter fraction, for any draw. So it never passes the cap by more.
pub duration_bounds :
    (p : BackoffPolicy) (attempt draw : ℕ)
    → draw < draws
    → let capped = min (p.base * 2 ^ attempt) p.cap in
      (capped ≤ duration p attempt draw)
      × (duration p attempt draw ≤ capped + capped * p.jitter / 100)
unfolding duration
duration_bounds p attempt draw h = elim (Bool-cases (leb p.cap (p.base * 2 ^ attempt))) [
  | inl past ↦
      let e : min (p.base * 2 ^ attempt) p.cap ≡ p.cap =
        omega (arith, leb→le p.cap (p.base * 2 ^ attempt) past) in
      rw (past, e) (omega arith, omega (arith, jitter_of-le p p.cap draw h))
  | inr below ↦
      let e : min (p.base * 2 ^ attempt) p.cap ≡ p.base * 2 ^ attempt =
        omega (arith, leb-false→lt p.cap (p.base * 2 ^ attempt) below) in
      rw (below, e) (omega arith, omega (arith, jitter_of-le p (p.base * 2 ^ attempt) draw h))
]
