-- ===== src/Cohort/Backoff.antt =====
-- internal/cohort/backoff.go: exponential backoff with a cap and jitter, in exact arithmetic on
-- nanoseconds. The jitter fraction is in hundredths, and a draw of rand.Float64 is `draw / 2 ^ 53`
-- with `draw` below `2 ^ 53`. A float64 holds `base * 2 ^ attempt` exactly, or as +Inf, which takes
-- the branch of the cap. A negative attempt, read as 0, is not a value here.
pub mod Bounds
pub mod Examples
use queuezero.Prelude.{ℕ, ◌+◌, ◌*◌, ◌/◌, ◌^◌, leb, if◌then◌else◌}

pub record BackoffPolicy : Type 0 where
  pub base : ℕ
  pub cap : ℕ
  pub jitter : ℕ

-- DefaultBackoffPolicy
abbrev pub default_backoff_policy : BackoffPolicy
default_backoff_policy = record { base = 100_000_000; cap = 30_000_000_000; jitter = 25 }

abbrev pub draws : ℕ
draws = 9_007_199_254_740_992

jitter_of : BackoffPolicy → ℕ → ℕ → ℕ
jitter_of p d draw = d * p.jitter * draw / draws / 100

-- BackoffPolicy.Duration
pub duration : BackoffPolicy → ℕ → ℕ → ℕ
unfolding jitter_of
duration p attempt draw =
    let raw = p.base * 2 ^ attempt in
    if leb p.cap raw then p.cap + jitter_of p p.cap draw else raw + jitter_of p raw draw
