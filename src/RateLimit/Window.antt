-- ===== src/RateLimit/Window.antt =====
-- What the limiter lets through in one window, and why pruning does not show.
use yunova.Base.{
  ℕ, suc, ◌+◌, ◌-◌, ◌≤◌, ◌<◌, ◌≡◌, ◌≢◌, min, some, List, [], ◌∷◌, arith, if◌then◌else◌, ltb, length,
}
use yunova.RateLimit.{Bucket, RateLimiter, put, allow, prune, max_duration}

-- The attempts of one address at these times: how many are let through.
abbrev pub allowed : ℕ → List ℕ → RateLimiter → ℕ
allowed ip [] l = 0
allowed ip (t ∷ ts) l =
    let rest = allowed ip ts (allow t ip l).1 in if (allow t ip l).0 then suc rest else rest

-- All these times lie in the window that starts at `start`.
abbrev pub AllWithin : ℕ → ℕ → List ℕ → Type 0
AllWithin start window [] = Unit
AllWithin start window (t ∷ ts) = (t - start ≤ window) × AllWithin start window ts

-- Inside its window a bucket only counts up to the limit.
allow_within :
    (t ip : ℕ) (l : RateLimiter) (b : Bucket)
    → l.inner ip ≡ some b
    → t - b.window_start ≤ l.window
    → ((allow t ip l).0 ≡ ltb b.count l.max_attempts)
      × ((allow t ip l).1.inner ip
          ≡ some (record b { count = if ltb b.count l.max_attempts then b.count + 1 else b.count }))
      × ((allow t ip l).1.window ≡ l.window)
      × ((allow t ip l).1.max_attempts ≡ l.max_attempts)
unfolding allow put
allow_within t ip l b known within = ground arith

-- Of the attempts of an address with a bucket, made within the bucket's window, exactly as many are let
-- through as the limit leaves after those that the bucket has counted.
pub allowed_within :
    (ip : ℕ) (ts : List ℕ) (l : RateLimiter) (b : Bucket)
    → l.inner ip ≡ some b
    → AllWithin b.window_start l.window ts
    → allowed ip ts l ≡ min (length ts) (l.max_attempts - b.count)
allowed_within ip [] l b known h = omega arith
allowed_within ip (t ∷ ts) l b known h =
    let (a, i, w, m) = allow_within t ip l b known h.0 in
    let b' : Bucket = record b {
      count = if ltb b.count l.max_attempts then b.count + 1 else b.count;
    } in
    let rest = allowed_within ip ts (allow t ip l).1 b' i in ground (arith, rest)

-- Where the window is positive and below the maximum of a duration, whether an attempt after a `prune`
-- is let through, and what is then stored for its address, is the same as without the `prune`.
pub allow-prune :
    (now later ip : ℕ) (l : RateLimiter)
    → now ≤ later
    → 0 < l.window
    → l.window < max_duration
    → ((allow later ip (prune now l)).0 ≡ (allow later ip l).0)
      × ((allow later ip (prune now l)).1.inner ip ≡ (allow later ip l).1.inner ip)
unfolding allow prune put
allow-prune now later ip l h w m = ground arith

-- An attempt leaves the bucket of every other address as it is.
pub allow_others :
    (t ip other : ℕ) (l : RateLimiter) → other ≢ ip → (allow t ip l).1.inner other ≡ l.inner other
unfolding allow put
allow_others t ip other l h = ground arith
