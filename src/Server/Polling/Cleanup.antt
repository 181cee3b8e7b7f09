-- ===== src/Server/Polling/Cleanup.antt =====
-- The goroutine cleanupHTTPTunnelClient of pkg/server/handlers.go and its end.
use mathlib.Core.Path.{subst}
use single_proxy.Base.{
  delete, lookup-delete_self, ℕ, zero, suc, ◌+◌, ◌-◌, ◌*◌, ◌≤◌, ◌<◌, Str, Bool, true, false, Option,
  none, some, lookup, str_key, ltb, ◌≡◌, ◌⊎◌, inl, inr, refl, ap, ◌∙◌, sym, arith, Bool-cases,
}
use single_proxy.Server.State.{Server, Outcome, ok, panic, ◌>>=◌}
use single_proxy.Server.Polling.{minute, cleanup_tick}
use single_proxy.Server.Polling.Channels.{IsPolled, shut, close_channels_lem, cleanup_tick-IsPolled}

module _ {Limiter : Type 0} where
  -- The loop of cleanupHTTPTunnelClient, from a tick on, for a number of ticks; `meanwhile` is what
  -- the other goroutines do before the next tick. `none` says that the goroutine still runs.
  unfoldable pub cleanup_loop :
      (ℕ → Server Limiter → Server Limiter)
      → ℕ
      → ℕ
      → Str
      → Server Limiter
      → Outcome (Option (Server Limiter))
  unfolding cleanup_tick
  cleanup_loop meanwhile zero now key s = ok none
  cleanup_loop meanwhile (suc n) now key s = cleanup_tick now key s >>= λ (goes_on, s').
      elim goes_on [
        | true ↦ cleanup_loop meanwhile n (now + minute) key (meanwhile now s')
        | false ↦ ok (some s')
      ]

  -- A tick in the five minutes after the client was seen, and a tick for a client that is gone.
  cleanup_tick-goes_on :
      (now : ℕ) (key : Str) (a : ℕ) (s : Server Limiter)
      → lookup key s.tunnel_clients ≡ some a
      → now - (s.tunnels a).last_seen ≤ 5 * minute
      → cleanup_tick now key s ≡ ok (true, s)
  unfolding cleanup_tick
  cleanup_tick-goes_on now key a s e seen =
      let early : ltb (5 * minute) (now - (s.tunnels a).last_seen) ≡ false = ground (arith, seen) in
      rw (e, cleanup_tick) (rw (early))

  cleanup_tick-gone :
      (now : ℕ) (key : Str) (s : Server Limiter)
      → lookup key s.tunnel_clients ≡ none
      → cleanup_tick now key s ≡ ok (false, s)
  unfolding cleanup_tick
  cleanup_tick-gone now key s e = rw (e, cleanup_tick)

  -- What the other goroutines do while no call for the key arrives: they keep the registered clients
  -- open, and the client of the key as it was seen last, or remove it.
  pub record Spares (meanwhile : ℕ → Server Limiter → Server Limiter) (key : Str) (a : ℕ)
      : Type 0 where
    pub keeps : (now : ℕ) (s : Server Limiter) → IsPolled s → IsPolled (meanwhile now s)
    pub unseen :
        (now : ℕ) (s : Server Limiter)
        → lookup key s.tunnel_clients ≡ some a
        → (lookup key (meanwhile now s).tunnel_clients ≡ none)
          ⊎ ((lookup key (meanwhile now s).tunnel_clients ≡ some a)
              × (((meanwhile now s).tunnels a).last_seen ≡ (s.tunnels a).last_seen))

  -- How a loop ends: the clients that are left are open, and the key is listed no more.
  abbrev pub IsCleaned : Str → Outcome (Option (Server Limiter)) → Type 0
  IsCleaned key r =
      (s' : Server Limiter) × (r ≡ ok (some s'))
      × IsPolled s'
      × (lookup key s'.tunnel_clients ≡ none)

  loop_step :
      (meanwhile : ℕ → Server Limiter → Server Limiter) (n now : ℕ) (key : Str) (goes_on : Bool)
      (s s' : Server Limiter)
      → cleanup_tick now key s ≡ ok (goes_on, s')
      → cleanup_loop meanwhile (suc n) now key s ≡ elim goes_on [
        | true ↦ cleanup_loop meanwhile n (now + minute) key (meanwhile now s')
        | false ↦ ok (some s')
      ]
  unfolding cleanup_loop
  loop_step meanwhile n now key goes_on s s' e = rw (e)

  -- The state that a tick leaves.
  abbrev left_by : Server Limiter → Outcome (Bool × Server Limiter) → Server Limiter
  left_by s (ok (goes_on, s')) = s'
  left_by s (panic p) = s

  -- A tick that is too late.
  cleanup_tick-late :
      (now : ℕ) (key : Str) (a : ℕ) (s : Server Limiter)
      → IsPolled s
      → lookup key s.tunnel_clients ≡ some a
      → 5 * minute < now - (s.tunnels a).last_seen
      → (s' : Server Limiter) × (cleanup_tick now key s ≡ ok (false, s'))
        × IsPolled s'
        × (lookup key s'.tunnel_clients ≡ none)
  unfolding cleanup_tick
  cleanup_tick-late now key a s v e late =
      let (goes_on, s₁, ticks, v₁, on_iff, listed_iff, others) =
        cleanup_tick-IsPolled now key a s v e in
      let t : Server Limiter = record (shut a s) { tunnel_clients = delete key s.tunnel_clients } in
      let over : ltb (5 * minute) (now - (s.tunnels a).last_seen) ≡ true = ground (arith, late) in
      let here : cleanup_tick now key s ≡ ok (false, t) =
        rw (e, cleanup_tick) (rw (over) (rw (close_channels_lem a s (v.is_up key a e)) refl)) in
      (
        t,
        here,
        subst IsPolled (ap (left_by s) (sym ticks ∙ here)) v₁,
        lookup-delete_self key s.tunnel_clients,
      )

  last_round :
      (meanwhile : ℕ → Server Limiter → Server Limiter) (n now : ℕ) (key : Str) (a : ℕ)
      (s : Server Limiter)
      → IsPolled s
      → lookup key s.tunnel_clients ≡ some a
      → 5 * minute < now - (s.tunnels a).last_seen
      → IsCleaned key (cleanup_loop meanwhile (suc n) now key s)
  last_round meanwhile n now key a s v e late =
      let (s', ticks, v', gone) = cleanup_tick-late now key a s v e late in
      (s', loop_step meanwhile n now key false s s' ticks, v', gone)

  cleanup_loop-cleans :
      (n : ℕ) (meanwhile : ℕ → Server Limiter → Server Limiter) (now : ℕ) (key : Str) (a : ℕ)
      (s : Server Limiter)
      → IsPolled s
      → lookup key s.tunnel_clients ≡ some a
      → Spares meanwhile key a
      → (s.tunnels a).last_seen + 5 * minute < now + n * minute
      → IsCleaned key (cleanup_loop meanwhile (suc n) now key s)
  cleanup_loop-cleans zero meanwhile now key a s v e spares enough =
      last_round meanwhile zero now key a s v e (omega arith)
  cleanup_loop-cleans (suc n) meanwhile now key a s v e spares enough =
      elim (Bool-cases (ltb (5 * minute) (now - (s.tunnels a).last_seen))) [
        | inl late ↦ last_round meanwhile (suc n) now key a s v e (ground (arith, late))
        | inr early ↦
            let seen : now - (s.tunnels a).last_seen ≤ 5 * minute = ground (arith, early) in
            let stays =
              loop_step meanwhile (suc n) now key true s s
                (cleanup_tick-goes_on now key a s e seen) in
            let s₁ = meanwhile now s in
            let v₁ = spares.keeps now s v in
            elim (spares.unseen now s e) [
              | inl gone ↦ (
                s₁,
                stays
                    ∙ loop_step meanwhile n (now + minute) key false s₁ s₁
                        (cleanup_tick-gone (now + minute) key s₁ gone),
                v₁,
                gone,
              )
              | inr (e₁, same) ↦ subst (IsCleaned key) (sym stays) (
                  cleanup_loop-cleans n meanwhile (now + minute) key a s₁ v₁ e₁ spares
                    (ground (arith, enough, same)))
            ]
      ]

  -- If the registered polling clients have open channels of their own with at most ten messages, and
  -- from a tick on that is later than the client of a key was seen no call for the key arrives, then
  -- the goroutine returns at the sixth tick at the latest, whatever the other goroutines do in
  -- between that keeps the registered clients open, without a panic; the key is listed no more, and
  -- the other clients still have open channels.
  pub cleanup_loop-ends :
      (meanwhile : ℕ → Server Limiter → Server Limiter) (now : ℕ) (key : Str) (a : ℕ)
      (s : Server Limiter)
      → IsPolled s
      → lookup key s.tunnel_clients ≡ some a
      → Spares meanwhile key a
      → (s.tunnels a).last_seen < now
      → IsCleaned key (cleanup_loop meanwhile 6 now key s)
  cleanup_loop-ends meanwhile now key a s v e spares later =
      cleanup_loop-cleans 5 meanwhile now key a s v e spares (omega arith)
