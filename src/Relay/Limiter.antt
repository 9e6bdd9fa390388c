-- ===== src/Relay/Limiter.antt =====
-- noknowledge/server/ratelimit.py: the sliding-window limiter. Times are ticks of the monotonic
-- clock. The lock makes each call one step.
pub mod Window
use noknowledge.Base.{
  ℕ, zero, suc, ◌+◌, String, Bool, true, false, List, [], ◌∷◌, ◌++◌, ◌==◌, eq_String, eq_ℕ, ltb,
  leb, if◌then◌else◌, length,
}
use noknowledge.Base.Int.{ℤ, pos, negsuc}

-- `events` is the `defaultdict` of deques.
pub record Limiter : Type 0 where
  pub limit : ℕ
  pub window : ℕ
  pub events : String → List ℕ

unfoldable pub new_limiter : ℤ → ℕ → Limiter
new_limiter (pos limit) window = record { limit = limit; window = window; events = λ _. [] }
new_limiter (negsuc _) window = record { limit = 0; window = window; events = λ _. [] }

-- `while events and events[0] < current - window: events.popleft()`
unfoldable pub expire : ℕ → ℕ → List ℕ → List ℕ
expire window current [] = []
expire window current (t ∷ ts) =
    let rest = expire window current ts in if ltb (t + window) current then rest else t ∷ ts

abbrev pub put_events : String → List ℕ → Limiter → Limiter
put_events key ts l = record l { events = λ k. if k == key then ts else l.events k }

unfoldable pub allow : String → ℕ → Limiter → Bool × Limiter
unfolding expire
allow key current l =
    if l.limit == 0
    then (true, l)
    else let ts = expire l.window current (l.events key) in
      if leb l.limit (length ts)
      then (false, put_events key ts l)
      else (true, put_events key (ts ++ current ∷ []) l)

unfoldable pub reset : Limiter → Limiter
reset l = record l { events = λ _. [] }

-- The limits of a relay, and `RateLimiters.reset`.
pub record RateLimiters : Type 0 where
  pub create : Limiter
  pub write : Limiter
  pub bundle : Limiter

unfoldable pub new_limiters : ℤ → ℤ → ℤ → RateLimiters
unfolding new_limiter
new_limiters creates_per_hour writes_per_minute bundles_per_hour = record {
  create = new_limiter creates_per_hour 3600;
  write = new_limiter writes_per_minute 60;
  bundle = new_limiter bundles_per_hour 3600;
}

unfoldable pub reset_all : RateLimiters → RateLimiters
unfolding reset
reset_all ls = record { create = reset ls.create; write = reset ls.write; bundle = reset ls.bundle }

-- The answers to calls in a row.
unfoldable pub answers : List (String × ℕ) → Limiter → List Bool
unfolding allow
answers [] l = []
answers ((key, current) ∷ calls) l =
    let (granted, l') = allow key current l in granted ∷ answers calls l'
