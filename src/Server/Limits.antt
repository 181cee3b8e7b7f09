-- ===== src/Server/Limits.antt =====
-- The rate limiters of pkg/server/handlers.go. golang.org/x/time/rate is an interface: its limiters,
-- and what its documentation says of the rate and of the rate Inf.
use single_proxy.Base.{ℕ, zero, suc, Str, Bool, true, none, some, Map, lookup, insert, str_key, ◌≡◌}
use single_proxy.Base.Int.{ℤ, pos, negsuc, doubled}

pub data Rate : Type 0 where
  inf : Rate
  per_second : ℕ → Rate

pub record RateLimiter : Type 1 where
  pub Limiter : Type 0
  -- rate.NewLimiter(r, b)
  pub new_limiter : Rate → ℤ → Limiter
  -- Allow at a time: the answer, and the limiter after it
  pub allow : ℕ → Limiter → Bool × Limiter
  -- Limit
  pub limit : Limiter → Rate
  pub limit-new : (r : Rate) (b : ℤ) → limit (new_limiter r b) ≡ r
  pub limit-allow : (now : ℕ) (l : Limiter) → limit (allow now l).1 ≡ limit l
  -- Inf "allows all events (even if burst is zero)"
  pub allow-inf : (now : ℕ) (l : Limiter) → limit l ≡ inf → (allow now l).0 ≡ true

module _ (lib : RateLimiter) where
  open lib use {Limiter, new_limiter, allow}

  -- A limit that is not positive gives a limiter that allows all.
  unfoldable pub limiter_of : ℤ → Limiter
  limiter_of (pos zero) = new_limiter inf (pos 0)
  limiter_of (pos (suc n)) = new_limiter (per_second (suc n)) (doubled (suc n))
  limiter_of (negsuc n) = new_limiter inf (pos 0)

  -- getKeyLimiter and getIPLimiter, which differ in the map and the setting that they use.
  unfoldable pub get_limiter : ℤ → Str → Map Str Limiter → Limiter × Map Str Limiter
  get_limiter setting key m = elim (lookup key m) [
    | some l ↦ (l, m)
    | none ↦ (limiter_of setting, insert key (limiter_of setting) m)
  ]

  -- The call of Allow on the limiter that the map holds.
  unfoldable pub allowed : ℕ → ℤ → Str → Map Str Limiter → Bool × Map Str Limiter
  unfolding get_limiter
  allowed now setting key m =
      let found = get_limiter setting key m in
      ((allow now found.0).0, insert key (allow now found.0).1 found.1)
