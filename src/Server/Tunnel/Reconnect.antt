-- ===== src/Server/Tunnel/Reconnect.antt =====
-- What happens to tunnels and pending streams when a WebSocket client registers.
use mathlib.Core.Path.{subst}
use single_proxy.Base.{
  ℕ, Str, List, [], ◌∷◌, true, none, some, lookup, delete, ◌==◌, nat_key, str_key, nat_beq_iff, ◌≡◌,
  ◌≢◌, refl, ap, arith, lookup-delete, lookup-delete_self, lookup-insert_self, Bool-cases, inl, inr,
  KeysApart, HasNo, Agrees, Agrees-self, Agrees-weaken,
}
use single_proxy.Server.State.{Server, Socket}
use single_proxy.Server.Tunnel.{
  cleanup, end_stream, close_socket, replace_conn, register_tunnel, read_loop_exit,
}
use single_proxy.Server.Tunnel.Live.{IsLive, end_stream-IsLive}

lookup-HasNo : (k : ℕ) (m : List (ℕ × ℕ)) → HasNo k m → lookup k m ≡ none
unfolding lookup
lookup-HasNo k [] h = refl
lookup-HasNo k ((j, v) ∷ m) h = ground (arith, lookup-HasNo k m h.1)

module _ {Limiter : Type 0} where
  cleanup-done_kept :
      (handlers : List (ℕ × ℕ)) (s : Server Limiter) (a : ℕ)
      → (s.streams a).done ≡ true
      → ((cleanup handlers s).streams a).done ≡ true
  unfolding cleanup
  cleanup-done_kept [] s a h = h
  cleanup-done_kept ((id, b) ∷ handlers) s a h = elim (Bool-cases (s.streams b).done) [
    | inl over ↦ rw (over, cleanup) (cleanup-done_kept handlers s a h)
    | inr pending ↦ rw (pending, cleanup) (cleanup-done_kept handlers _ a (ground arith))
  ]

  cleanup-conns :
      (handlers : List (ℕ × ℕ)) (s : Server Limiter)
      → ((cleanup handlers s).client_conns ≡ s.client_conns)
        × ((cleanup handlers s).sockets ≡ s.sockets)
  unfolding cleanup
  cleanup-conns [] s = (refl, refl)
  cleanup-conns ((id, b) ∷ handlers) s = elim (Bool-cases (s.streams b).done) [
    | inl over ↦ rw (over, cleanup) (cleanup-conns handlers s)
    | inr pending ↦ rw (pending, cleanup) (cleanup-conns handlers _)
  ]

  -- The list of handlers stands for the rest of the map.
  record Covers (s : Server Limiter) (handlers : List (ℕ × ℕ)) : Type 0 where
    live : IsLive s
    apart : KeysApart handlers
    agrees : Agrees s.stream_handlers handlers
    same : (i : ℕ) → lookup i s.stream_handlers ≡ lookup i handlers

  end_stream-Covers :
      (id b : ℕ) (handlers : List (ℕ × ℕ)) (s : Server Limiter)
      → Covers s ((id, b) ∷ handlers)
      → Covers (end_stream id b s) handlers
  unfolding lookup
  end_stream-Covers id b handlers s c = record {
    live = end_stream-IsLive id b s c.live c.agrees.0;
    apart = c.apart.1;
    agrees =
        Agrees-weaken s.stream_handlers (delete id s.stream_handlers) handlers id c.apart.0
          (λ j ne. ground (arith, lookup-delete id j s.stream_handlers, nat_beq_iff id j))
          c.agrees.1;
    same = λ j. ground (
      arith,
      lookup-delete id j s.stream_handlers,
      c.same j,
      lookup-HasNo id handlers c.apart.0,
      nat_beq_iff id j,
    );
  }

  -- The stream of a request is registered no more, and has ended if it was registered.
  abbrev Ended : List (ℕ × ℕ) → Server Limiter → ℕ → Type 0
  Ended handlers s i =
      (lookup i s.stream_handlers ≡ none)
      × ((a : ℕ) → lookup i handlers ≡ some a → (s.streams a).done ≡ true)

  cleanup-ends :
      (handlers : List (ℕ × ℕ)) (s : Server Limiter)
      → Covers s handlers
      → (i : ℕ) → Ended handlers (cleanup handlers s) i
  unfolding cleanup lookup
  cleanup-ends [] s c i = (c.same i, λ a e. cc)
  cleanup-ends ((id, b) ∷ handlers) s c i =
      let later =
        cleanup-ends handlers (end_stream id b s) (end_stream-Covers id b handlers s c) i in
      let over = cleanup-done_kept handlers (end_stream id b s) b in
      rw (c.live.is_open id b c.agrees.0, cleanup)
        (
          later.0,
          λ a e. elim (Bool-cases (id == i)) [
            | inl here ↦
                let same_stream : b ≡ a = ground arith in
                subst (λ (x : ℕ). ((cleanup handlers (end_stream id b s)).streams x).done ≡ true)
                  same_stream (over (ground arith))
            | inr there ↦ later.1 a (rw there at e)
          ],
        )

  module _ (key : Str) (conn old : ℕ) (s : Server Limiter) (live : IsLive s)
      (taken : lookup key s.client_conns ≡ some old) where
    -- A client that registers again for its key ends the pending streams of every key: no request
    -- is registered afterwards, and every stream that was registered is closed.
    pub register_tunnel-ends_all :
        (i : ℕ)
        → (lookup i (register_tunnel key conn s).stream_handlers ≡ none)
          × ((a : ℕ)
              → lookup i s.stream_handlers ≡ some a
              → ((register_tunnel key conn s).streams a).done ≡ true)
    unfolding register_tunnel replace_conn close_socket
    register_tunnel-ends_all i = rw taken (
        cleanup-ends s.stream_handlers (close_socket old s)
          (record {
            live = record {
              is_open = live.is_open;
              distinct = live.distinct;
              unique = live.unique;
            };
            apart = live.unique;
            agrees = Agrees-self s.stream_handlers live.unique;
            same = λ j. refl;
          })
          i)

  -- When the read loop of the replaced connection ends, which its closing causes, the new
  -- connection is taken out of the map, though it is not closed by this.
  pub read_loop_exit-drops_new :
      (key : Str) (conn old : ℕ) (s : Server Limiter)
      → lookup key s.client_conns ≡ some old
      → conn ≢ old
      → ((((register_tunnel key conn s).sockets old).closed ≡ true)
          × (lookup key (register_tunnel key conn s).client_conns ≡ some conn))
        × (lookup key (read_loop_exit old key (register_tunnel key conn s)).client_conns ≡ none)
        × (((read_loop_exit old key (register_tunnel key conn s)).sockets conn).closed
            ≡ (s.sockets conn).closed)
  unfolding register_tunnel read_loop_exit replace_conn close_socket
  read_loop_exit-drops_new key conn old s taken other =
      let (conns, sockets) = cleanup-conns s.stream_handlers (close_socket old s) in
      let at_old = ap (λ (f : ℕ → Socket). (f old).closed) sockets in
      let at_conn = ap (λ (f : ℕ → Socket). (f conn).closed) sockets in
      rw taken (
        (ground (arith, at_old, nat_beq_iff old old), lookup-insert_self key conn _),
        lookup-delete_self key _,
        ground (arith, at_conn, nat_beq_iff old conn),
      )
