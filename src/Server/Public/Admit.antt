-- ===== src/Server/Public/Admit.antt =====
-- The rate limits of public requests.
use single_proxy.Base.{
  ℕ, zero, suc, Str, true, some, lookup, str_key, ◌≡◌, inl, inr, refl, arith, lookup-insert,
  Option-cases, Map,
}
use single_proxy.Base.Int.{ℤ, pos, negsuc, non_positive}
use single_proxy.Http.Address.{split_host_port}
use single_proxy.Protocol.Http.{Request}
use single_proxy.Server.Limits.{RateLimiter, inf, limiter_of, get_limiter, allowed}
use single_proxy.Server.State.{Server, HttpTunnelClient}
use single_proxy.Server.Public.{admitted, admit, key_of}

module _ (lib : RateLimiter) where
  open lib use {Limiter, new_limiter, allow, limit, limit-new, limit-allow, allow-inf}

  -- All limiters of a map have no limit.
  abbrev pub Unlimited : Map Str Limiter → Type 0
  Unlimited m = (key : Str) (l : Limiter) → lookup key m ≡ some l → limit l ≡ inf

  limiter_of-inf :
      (setting : ℤ) → non_positive setting ≡ true → limit (limiter_of lib setting) ≡ inf
  unfolding limiter_of
  limiter_of-inf (pos zero) h = limit-new inf (pos 0)
  limiter_of-inf (pos (suc n)) h = cc
  limiter_of-inf (negsuc n) h = limit-new inf (pos 0)

  get_limiter-inf :
      (setting : ℤ) (key : Str) (m : Map Str Limiter)
      → non_positive setting ≡ true
      → Unlimited m
      → (limit (get_limiter lib setting key m).0 ≡ inf)
        × Unlimited (get_limiter lib setting key m).1
  unfolding get_limiter
  get_limiter-inf setting key m h u = elim (Option-cases (lookup key m)) [
    | inl fresh ↦
        rw (fresh, get_limiter)
          (
            limiter_of-inf setting h,
            λ j l e. grind (
              arith,
              lookup-insert key j (limiter_of lib setting) m,
              limiter_of-inf setting h,
              u j l,
            ),
          )
    | inr (l, e) ↦ rw (e, get_limiter) (u key l e, u)
  ]

  allowed-inf :
      (now : ℕ) (setting : ℤ) (key : Str) (m : Map Str Limiter)
      → non_positive setting ≡ true
      → Unlimited m
      → ((allowed lib now setting key m).0 ≡ true) × Unlimited (allowed lib now setting key m).1
  unfolding allowed
  allowed-inf now setting key m h u =
      let (free, u') = get_limiter-inf setting key m h u in
      let l : Limiter = (get_limiter lib setting key m).0 in
      (
        allow-inf now l free,
        λ j k e. grind (
          arith,
          lookup-insert key j (allow now l).1 (get_limiter lib setting key m).1,
          limit-allow now l,
          u' j k,
        ),
      )

  -- Where both settings are zero or negative and no limiter in use has a limit, every request with a
  -- parsable address is admitted with its key, at any time, and the limiters still have no limit.
  pub admit-Unlimited :
      (now : ℕ) (r : Request) (s : Server Limiter) (ip port : Str)
      → non_positive s.config.ip_rate_limit ≡ true
      → non_positive s.config.key_rate_limit ≡ true
      → Unlimited s.ip_limiters
      → Unlimited s.key_limiters
      → split_host_port r.remote_addr ≡ some (ip, port)
      → ((admit lib now r s).0 ≡ admitted (key_of r))
        × Unlimited (admit lib now r s).1.ip_limiters
        × Unlimited (admit lib now r s).1.key_limiters
  unfolding admit
  admit-Unlimited now r s ip port hi hk ui uk e =
      let (ok_ip, ui') = allowed-inf now s.config.ip_rate_limit ip s.ip_limiters hi ui in
      let (ok_key, uk') = allowed-inf now s.config.key_rate_limit (key_of r) s.key_limiters hk uk in
      rw (e, admit) (rw (ok_ip, ok_key) (refl, ui', uk'))

  -- The rate limits touch the limiters alone.
  pub admit-only_limiters :
      (now : ℕ) (r : Request) (s : Server Limiter)
      → (admit lib now r s).1 ≡ record s {
        ip_limiters = (admit lib now r s).1.ip_limiters;
        key_limiters = (admit lib now r s).1.key_limiters;
      }
  unfolding admit
  admit-only_limiters now r s = ground arith

  -- They do not look at the polling clients.
  pub admit-clients :
      (now : ℕ) (r : Request) (s : Server Limiter) (clients : Map Str ℕ)
      (tunnels : ℕ → HttpTunnelClient) (next : ℕ)
      → (admit lib now r
          (record s { tunnel_clients = clients; tunnels = tunnels; next_tunnel = next })).0
        ≡ (admit lib now r s).0
  unfolding admit
  admit-clients now r s clients tunnels next = ground arith
