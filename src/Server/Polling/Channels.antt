-- ===== src/Server/Polling/Channels.antt =====
-- The channels of polling clients: those that are registered are open, each client has its own, and
-- no queue is longer than its buffer.
use single_proxy.Base.{
  ℕ, ◌+◌, ◌-◌, ◌*◌, ◌≤◌, ◌<◌, Str, Bool, true, false, none, some, lookup, insert, delete, nat_key,
  str_key, ◌≡◌, refl, arith, ltb, length, Option-cases, Bool-cases, lookup-insert,
  lookup-insert_self, lookup-delete, lookup-delete_self, inl, inr, ◌⊎◌, ◌≢◌, ◌↔◌, nat_beq_iff,
  str_beq_iff,
}
use single_proxy.Server.State.{Server, ok, new_chan, close, set_tunnel, update}
use single_proxy.Server.Polling.{minute, close_channels, register_client, cleanup_tick}

module _ {Limiter : Type 0} where
  -- The client at an address can be sent to.
  abbrev pub IsUp : Server Limiter → ℕ → Type 0
  IsUp s a =
      ((s.tunnels a).poll_chan.closed ≡ false)
      × ((s.tunnels a).response_chan.closed ≡ false)
      × (length (s.tunnels a).poll_chan.queue ≤ 10)

  pub record IsPolled (s : Server Limiter) : Type 0 where
    pub is_up : (key : Str) (a : ℕ) → lookup key s.tunnel_clients ≡ some a → IsUp s a
    pub apart :
        (i j : Str) (a : ℕ)
        → lookup i s.tunnel_clients ≡ some a
        → lookup j s.tunnel_clients ≡ some a
        → i ≡ j
    pub used : (key : Str) (a : ℕ) → lookup key s.tunnel_clients ≡ some a → a < s.next_tunnel

  -- The state with the channels of the client at `a` closed.
  abbrev pub shut : ℕ → Server Limiter → Server Limiter
  shut a s =
      set_tunnel a
        (record (s.tunnels a) {
          poll_chan = record (s.tunnels a).poll_chan { closed = true };
          response_chan = record (s.tunnels a).response_chan { closed = true };
        })
        s

  pub close_channels_lem :
      (a : ℕ) (s : Server Limiter) → IsUp s a → close_channels a s ≡ ok (shut a s)
  unfolding close_channels close
  close_channels_lem a s u = rw (u.0, u.1) refl

  -- The state with a new client for a key.
  abbrev pub added : ℕ → Str → Str → Server Limiter → Server Limiter
  added now key remote_addr s = record s {
    tunnels = update s.tunnels s.next_tunnel (record {
      key = key;
      remote_addr = remote_addr;
      last_seen = now;
      poll_chan = new_chan;
      response_chan = new_chan;
    });
    next_tunnel = s.next_tunnel + 1;
    tunnel_clients = insert key s.next_tunnel s.tunnel_clients;
  }

  -- What the new client needs of the others.
  added-IsPolled :
      (now : ℕ) (key remote_addr : Str) (s : Server Limiter)
      → ((j : Str) (a : ℕ)
          → key ≢ j
          → lookup j s.tunnel_clients ≡ some a
          → IsUp s a × (a < s.next_tunnel))
      → ((i j : Str) (a : ℕ)
          → lookup i s.tunnel_clients ≡ some a
          → lookup j s.tunnel_clients ≡ some a
          → i ≡ j)
      → IsPolled (added now key remote_addr s)
  added-IsPolled now key remote_addr s others apart = record {
    is_up = λ j a e. grind (
      arith,
      lookup-insert key j s.next_tunnel s.tunnel_clients,
      str_beq_iff key j,
      others j a,
      nat_beq_iff s.next_tunnel a,
    );
    apart = λ i j a p q. grind (
      arith,
      lookup-insert key i s.next_tunnel s.tunnel_clients,
      lookup-insert key j s.next_tunnel s.tunnel_clients,
      str_beq_iff key i,
      str_beq_iff key j,
      others i a,
      others j a,
      apart i j a,
    );
    used = λ j a e.
        grind (
          arith,
          lookup-insert key j s.next_tunnel s.tunnel_clients,
          str_beq_iff key j,
          others j a,
        );
  }

  -- A registration for a key that has no client.
  pub register_client-added :
      (now : ℕ) (key remote_addr : Str) (s : Server Limiter)
      → IsPolled s
      → lookup key s.tunnel_clients ≡ none
      → (register_client now key remote_addr s ≡ ok (added now key remote_addr s))
        × IsPolled (added now key remote_addr s)
  unfolding register_client
  register_client-added now key remote_addr s v fresh = (
    rw (fresh, register_client),
    added-IsPolled now key remote_addr s (λ j a n e. (v.is_up j a e, v.used j a e)) v.apart,
  )

  -- If the registered polling clients have open channels of their own with at most ten messages, a
  -- registration does not panic, keeps this, and lists the new client under its key.
  pub register_client-IsPolled :
      (now : ℕ) (key remote_addr : Str) (s : Server Limiter)
      → IsPolled s
      → (s' : Server Limiter) × (register_client now key remote_addr s ≡ ok s')
        × IsPolled s'
        × (lookup key s'.tunnel_clients ≡ some s.next_tunnel)
  unfolding register_client
  register_client-IsPolled now key remote_addr s v =
      elim (Option-cases (lookup key s.tunnel_clients)) [
        | inl fresh ↦ (
          added now key remote_addr s,
          rw (fresh, register_client),
          added-IsPolled now key remote_addr s (λ j a n e. (v.is_up j a e, v.used j a e)) v.apart,
          lookup-insert_self key s.next_tunnel s.tunnel_clients,
        )
        | inr (old, e) ↦ (
          added now key remote_addr (shut old s),
          rw (e, register_client) (rw (close_channels_lem old s (v.is_up key old e)) refl),
          added-IsPolled now key remote_addr (shut old s)
              (λ j a n h.
                grind (arith, v.is_up j a h, v.used j a h, v.apart key j a, e, nat_beq_iff old a))
              v.apart,
          lookup-insert_self key s.next_tunnel s.tunnel_clients,
        )
      ]

  -- Under the same condition a tick of the cleanup for a registered client does not panic and keeps
  -- it; the client stays listed, and the goroutine goes on, exactly when it was seen in the last five
  -- minutes; and no other key is touched.
  pub cleanup_tick-IsPolled :
      (now : ℕ) (key : Str) (a : ℕ) (s : Server Limiter)
      → IsPolled s
      → lookup key s.tunnel_clients ≡ some a
      → (goes_on : Bool) × (s' : Server Limiter) × (cleanup_tick now key s ≡ ok (goes_on, s'))
        × IsPolled s'
        × ((goes_on ≡ true) ↔ (now - (s.tunnels a).last_seen ≤ 5 * minute))
        × ((goes_on ≡ true) ↔ (lookup key s'.tunnel_clients ≡ some a))
        × ((j : Str) → (key ≡ j) ⊎ (lookup j s'.tunnel_clients ≡ lookup j s.tunnel_clients))
  unfolding cleanup_tick
  cleanup_tick-IsPolled now key a s v e =
      elim (Bool-cases (ltb (5 * minute) (now - (s.tunnels a).last_seen))) [
        | inl late ↦ (
          false,
          record (shut a s) { tunnel_clients = delete key s.tunnel_clients },
          rw (e, cleanup_tick) (rw (late) (rw (close_channels_lem a s (v.is_up key a e)) refl)),
          record {
            is_up = λ j b h. grind (
              arith,
              lookup-delete key j s.tunnel_clients,
              v.is_up j b,
              v.apart key j b,
              e,
              nat_beq_iff a b,
              str_beq_iff key j,
            );
            apart = λ i j b p q. grind (
              arith,
              lookup-delete key i s.tunnel_clients,
              lookup-delete key j s.tunnel_clients,
              v.apart i j b,
            );
            used = λ j b h. grind (arith, lookup-delete key j s.tunnel_clients, v.used j b);
          },
          ground (arith, late),
          ground (arith, lookup-delete_self key s.tunnel_clients),
          λ j. ground (arith, lookup-delete key j s.tunnel_clients, str_beq_iff key j),
        )
        | inr seen ↦ (
          true,
          s,
          rw (e, cleanup_tick) (rw (seen)),
          v,
          ground (arith, seen),
          ground (arith, e),
          λ j. inr refl,
        )
      ]
