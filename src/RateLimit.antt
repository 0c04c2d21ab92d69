-- ===== src/RateLimit.antt =====
-- src/rate_limit.rs: the fixed-window counter for each client address. Times and durations are
-- nanoseconds; an address is a number. The lock makes each call one step.
pub mod Window
use yunova.Base.{
  ℕ, suc, ◌+◌, ◌-◌, ◌*◌, ◌^◌, min, Bool, true, false, Option, none, some, if◌then◌else◌, ◌==◌, ltb,
  leb,
}

pub record Bucket : Type 0 where
  pub count : ℕ
  pub window_start : ℕ

pub record RateLimiter : Type 0 where
  pub inner : ℕ → Option Bucket
  pub max_attempts : ℕ
  pub window : ℕ

unfoldable pub new : ℕ → ℕ → RateLimiter
new max_attempts window = record {
  inner = λ ip. none;
  max_attempts = max_attempts;
  window = window;
}

unfoldable pub put : ℕ → Bucket → RateLimiter → RateLimiter
put ip b l = record l { inner = λ j. if j == ip then some b else l.inner j }

-- `entry(ip).or_insert`
or_insert : ℕ → Option Bucket → Bucket
or_insert now none = record { count = 0; window_start = now }
or_insert now (some b) = b

-- A bucket whose window has passed starts again. `duration_since` stops at 0.
restart : ℕ → ℕ → Bucket → Bucket
restart now window b =
    if ltb window (now - b.window_start) then record { count = 0; window_start = now } else b

admit : ℕ → Bucket → RateLimiter → Bool × RateLimiter
unfolding put
admit ip b l =
    if leb l.max_attempts b.count
    then (false, put ip b l)
    else (true, put ip (record b { count = b.count + 1 }) l)

unfoldable pub allow : ℕ → ℕ → RateLimiter → Bool × RateLimiter
unfolding or_insert restart admit
allow now ip l = admit ip (restart now l.window (or_insert now (l.inner ip))) l

-- `Duration::MAX`
abbrev pub max_duration : ℕ
max_duration = 2 ^ 64 * 1_000_000_000 - 1

keep : ℕ → ℕ → Option Bucket → Option Bucket
keep now cutoff none = none
keep now cutoff (some b) = if ltb (now - b.window_start) cutoff then some b else none

unfoldable pub prune : ℕ → RateLimiter → RateLimiter
unfolding keep
prune now l = record l { inner = λ ip. keep now (min (l.window * 2) max_duration) (l.inner ip) }
