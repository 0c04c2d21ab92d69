-- ===== src/Tests/RateLimit.antt =====
-- Examples of the limiter.
use yunova.Base.{◌≡◌, refl, [], ◌∷◌, arith}
use yunova.RateLimit.{RateLimiter, new, put, allow, prune}
use yunova.RateLimit.Window.{allowed, allowed_within, allow-prune}

-- Three attempts in a window of 60, one made at 100.
abbrev limiter : RateLimiter
limiter = (allow 100 7 (new 3 60)).1

allowed_within_example : allowed 7 (110 ∷ 120 ∷ 130 ∷ []) limiter ≡ 2
unfolding new allow put
allowed_within_example =
    allowed_within 7 (110 ∷ 120 ∷ 130 ∷ []) limiter (record { count = 1; window_start = 100 }) refl
      (omega arith, (omega arith, (omega arith, tt)))

allow-prune_example :
    ((allow 500 7 (prune 400 limiter)).0 ≡ (allow 500 7 limiter).0)
    × ((allow 500 7 (prune 400 limiter)).1.inner 7 ≡ (allow 500 7 limiter).1.inner 7)
unfolding new allow put
allow-prune_example = allow-prune 400 500 7 limiter (omega arith) (omega arith) (omega arith)
