-- ===== src/Server/System/Overlap.antt =====
-- handlePublicHTTPRequest of pkg/server/handlers.go in two parts: up to the message for the tunnel,
-- and the call that sends it. No lock is held between the two, nor while WriteMessage runs.
use single_proxy.Base.{
  ℕ, ◌+◌, ◌^◌, ◌<◌, Str, codes, [], ◌∷◌, ◌++◌, Bool, true, false, Map, none, some, lookup, str_key,
  nat_key, nat_beq_iff, ◌≡◌, refl, ap, ◌∙◌, arith, Option-cases, inl, inr, lookup-insert_self,
  lookup-insert, append_assoc,
}
use single_proxy.Http.Status.{status_internal_server_error, status_bad_gateway}
use single_proxy.Protocol.Http.{Request, serialize_http_request}
use single_proxy.Protocol.Wire.{wire_of, serialize-wire_of}
use single_proxy.Server.Writer.{Writer}
use single_proxy.Server.Limits.{RateLimiter}
use single_proxy.Server.State.{Server, Outcome, ok, Socket, update, set_socket}
use single_proxy.Server.Public.{
  Progress, answered, waiting, Admission, refused, admitted, Tunnel, no_tunnel, ws_tunnel,
  http_tunnel, refuse, admit, tunnel_for, next_id, open_stream, forward_ws, forward, dispatch,
  after_admission, public_request,
}
use single_proxy.Server.Public.Admit.{admit-only_limiters}
use single_proxy.Server.Public.Open.{request_message}

-- Before anything is sent the request is answered, or it has a tunnel, an ID, a stream and bytes.
pub data Prepared : Type 0 where
  replied : Writer → Prepared
  to_forward : Tunnel → ℕ → ℕ → Str → Prepared

abbrev written_to : ℕ → Str → (ℕ → Socket) → ℕ → Socket
written_to conn m f = update f conn (record (f conn) { written = (f conn).written ++ m ∷ [] })

written_twice :
    (conn : ℕ) (m n : Str) (f : ℕ → Socket)
    → (written_to conn n (written_to conn m f) conn).written ≡ (f conn).written ++ m ∷ n ∷ []
written_twice conn m n f =
    ground (arith, nat_beq_iff conn conn, append_assoc (f conn).written (m ∷ []) (n ∷ []))

-- Two streams that are registered one after the other.
record Apart (id₁ a₁ id₂ a₂ : ℕ) (handlers : Map ℕ ℕ) : Type 0 where
  later_id : id₁ < id₂
  later_stream : a₁ < a₂
  first : lookup id₁ handlers ≡ some a₁
  second : lookup id₂ handlers ≡ some a₂

module _ {Limiter : Type 0} where
  -- The tunnel is chosen, the request serialised, the stream registered.
  unfoldable pub prepare_dispatch :
      Tunnel → Request → Writer → Server Limiter → Prepared × Server Limiter
  prepare_dispatch no_tunnel r w s = (
    replied
        (refuse (record { message = codes "Service unavailable"; code = status_bad_gateway }) w),
    s,
  )
  prepare_dispatch tunnel r w s = elim (serialize_http_request r) [
    | none ↦ (
      replied (
          refuse
            (record {
              message = codes "Internal server error";
              code = status_internal_server_error;
            })
            w),
      s,
    )
    | some bytes ↦ (to_forward tunnel (next_id s) s.next_stream bytes, open_stream w s)
  ]

  -- The call that sends the message.
  abbrev pub send : Bool → Prepared × Server Limiter → Outcome (Progress × Server Limiter)
  send delivers (replied w, s) = ok (answered w, s)
  send delivers (to_forward tunnel id a bytes, s) = forward delivers tunnel id a bytes s

  send-prepare_dispatch :
      (delivers : Bool) (tunnel : Tunnel) (r : Request) (w : Writer) (s : Server Limiter)
      → send delivers (prepare_dispatch tunnel r w s) ≡ dispatch delivers tunnel r w s
  unfolding prepare_dispatch dispatch
  send-prepare_dispatch delivers no_tunnel r w s = refl
  send-prepare_dispatch delivers (ws_tunnel conn) r w s =
      elim (Option-cases (serialize_http_request r)) [
        | inl broken ↦ rw (broken, prepare_dispatch, dispatch) refl
        | inr (bytes, e) ↦ rw (e, prepare_dispatch, dispatch) refl
      ]
  send-prepare_dispatch delivers (http_tunnel client) r w s =
      elim (Option-cases (serialize_http_request r)) [
        | inl broken ↦ rw (broken, prepare_dispatch, dispatch) refl
        | inr (bytes, e) ↦ rw (e, prepare_dispatch, dispatch) refl
      ]

  -- The message for an open connection is written.
  send-ws :
      (bytes : Str) (conn id a : ℕ) (s : Server Limiter)
      → (s.sockets conn).closed ≡ false
      → send true (to_forward (ws_tunnel conn) id a bytes, s)
        ≡ ok (
          waiting id a,
          set_socket conn
              (record (s.sockets conn) {
                written = (s.sockets conn).written ++ wire_of (request_message id bytes) ∷ [];
              })
              s,
        )
  unfolding forward
  send-ws bytes conn id a s alive =
      ap (λ m. ok (forward_ws true m conn id a s)) (serialize-wire_of (request_message id bytes))
      ∙ rw (alive, forward_ws) refl

  -- What the rate limits leave as it is.
  record Kept (s t : Server Limiter) : Type 0 where
    sockets : t.sockets ≡ s.sockets
    conns : t.client_conns ≡ s.client_conns
    handlers : t.stream_handlers ≡ s.stream_handlers
    ids : t.next_request_id ≡ s.next_request_id
    count : t.next_stream ≡ s.next_stream

  opened_twice :
      (s t u : Server Limiter) (w₁ w₂ : Writer)
      → s.next_request_id + 2 < 2 ^ 64
      → Kept s t
      → Kept (open_stream w₁ t) u
      → Apart
          (next_id s)
          s.next_stream
          (next_id (open_stream w₁ t))
          (open_stream w₁ t).next_stream
          (open_stream w₂ u).stream_handlers
  unfolding open_stream
  opened_twice s t u w₁ w₂ room k l = record {
    later_id = ground (arith, room, k.ids);
    later_stream = ground (arith, k.count);
    first = ground (
      arith,
      room,
      k.ids,
      k.count,
      l.ids,
      l.count,
      l.handlers,
      lookup-insert (next_id u) (next_id s) u.next_stream u.stream_handlers,
      lookup-insert_self (next_id t) t.next_stream t.stream_handlers,
    );
    second = ground (
      arith,
      room,
      k.ids,
      k.count,
      l.ids,
      l.count,
      lookup-insert_self (next_id u) u.next_stream u.stream_handlers,
    );
  }

module _ (lib : RateLimiter) where
  open lib use {Limiter}

  admit-Kept : (now : ℕ) (r : Request) (s : Server Limiter) → Kept s (admit lib now r s).1
  admit-Kept now r s =
      let only = admit-only_limiters lib now r s in
      record {
        sockets = ap (λ x. x.sockets) only;
        conns = ap (λ x. x.client_conns) only;
        handlers = ap (λ x. x.stream_handlers) only;
        ids = ap (λ x. x.next_request_id) only;
        count = ap (λ x. x.next_stream) only;
      }

  abbrev pub prepare_after :
      Request → Writer → Admission × Server Limiter → Prepared × Server Limiter
  prepare_after r w (refused f, s) = (replied (refuse f w), s)
  prepare_after r w (admitted key, s) = prepare_dispatch (tunnel_for key s) r w s

  -- handlePublicHTTPRequest up to the call that sends the message.
  unfoldable pub prepare : ℕ → Request → Writer → Server Limiter → Prepared × Server Limiter
  unfolding prepare_dispatch
  prepare now r w s = prepare_after r w (admit lib now r s)

  send-prepare_after :
      (delivers : Bool) (r : Request) (w : Writer) (a : Admission) (s : Server Limiter)
      → send delivers (prepare_after r w (a, s)) ≡ after_admission lib delivers r w (a, s)
  send-prepare_after delivers r w (refused f) s = refl
  send-prepare_after delivers r w (admitted key) s =
      send-prepare_dispatch delivers (tunnel_for key s) r w s

  -- The two parts one after the other are the whole.
  pub send-prepare :
      (now : ℕ) (delivers : Bool) (r : Request) (w : Writer) (s : Server Limiter)
      → send delivers (prepare now r w s) ≡ public_request lib now delivers r w s
  unfolding prepare public_request
  send-prepare now delivers r w s =
      send-prepare_after delivers r w (admit lib now r s).0 (admit lib now r s).1

  prepare_after-ws :
      (r : Request) (w : Writer) (key bytes : Str) (conn : ℕ) (a : Admission) (s : Server Limiter)
      → a ≡ admitted key
      → lookup key s.client_conns ≡ some conn
      → serialize_http_request r ≡ some bytes
      → prepare_after r w (a, s)
        ≡ (to_forward (ws_tunnel conn) (next_id s) s.next_stream bytes, open_stream w s)
  unfolding prepare_dispatch tunnel_for
  prepare_after-ws r w key bytes conn a s passes up e =
      rw (passes) (rw (up, tunnel_for) (rw (e, prepare_dispatch) refl))

  -- A request that has passed the rate limits and has a WebSocket tunnel.
  prepare-ws :
      (now : ℕ) (r : Request) (w : Writer) (s : Server Limiter) (key bytes : Str) (conn : ℕ)
      → (admit lib now r s).0 ≡ admitted key
      → lookup key s.client_conns ≡ some conn
      → serialize_http_request r ≡ some bytes
      → prepare now r w s ≡ (
        to_forward (ws_tunnel conn) (next_id s) s.next_stream bytes,
        open_stream w (admit lib now r s).1,
      )
  unfolding prepare
  prepare-ws now r w s key bytes conn passes up e =
      let t : Server Limiter = (admit lib now r s).1 in
      let only = admit-only_limiters lib now r s in
      prepare_after-ws r w key bytes conn (admit lib now r s).0 t passes
        (ap (λ (x : Server Limiter). lookup key x.client_conns) only ∙ up) e
      ∙ ap
          (λ (x : Server Limiter).
            (to_forward (ws_tunnel conn) (next_id x) x.next_stream bytes, open_stream w t))
          only

  -- Two requests for the key of one connection, which is open: both pass the rate limits, are
  -- serialised and have a new ID, while nothing has been sent. Then both are at the call of
  -- WriteMessage on that connection in one state, registered under different IDs for different
  -- streams. And the second may send its message first, so that messages leave in another order than
  -- their IDs.
  pub prepare-overlap :
      (now₁ now₂ : ℕ) (r₁ r₂ : Request) (w₁ w₂ : Writer) (s : Server Limiter)
      (key bytes₁ bytes₂ : Str) (conn : ℕ)
      → s.next_request_id + 2 < 2 ^ 64
      → lookup key s.client_conns ≡ some conn
      → (s.sockets conn).closed ≡ false
      → (admit lib now₁ r₁ s).0 ≡ admitted key
      → (admit lib now₂ r₂ (open_stream w₁ (admit lib now₁ r₁ s).1)).0 ≡ admitted key
      → serialize_http_request r₁ ≡ some bytes₁
      → serialize_http_request r₂ ≡ some bytes₂
      → (id₁ id₂ a₁ a₂ : ℕ) × (s₁ s₂ t₂ t₁ : Server Limiter) × (prepare now₁ r₁ w₁ s
          ≡ (to_forward (ws_tunnel conn) id₁ a₁ bytes₁, s₁))
        × (prepare now₂ r₂ w₂ s₁ ≡ (to_forward (ws_tunnel conn) id₂ a₂ bytes₂, s₂))
        × (id₁ < id₂)
        × (a₁ < a₂)
        × (lookup id₁ s₂.stream_handlers ≡ some a₁)
        × (lookup id₂ s₂.stream_handlers ≡ some a₂)
        × (s₂.sockets conn ≡ s.sockets conn)
        × (send true (to_forward (ws_tunnel conn) id₂ a₂ bytes₂, s₂) ≡ ok (waiting id₂ a₂, t₂))
        × (send true (to_forward (ws_tunnel conn) id₁ a₁ bytes₁, t₂) ≡ ok (waiting id₁ a₁, t₁))
        × ((t₁.sockets conn).written
            ≡ (s.sockets conn).written
              ++ wire_of (request_message id₂ bytes₂) ∷ wire_of (request_message id₁ bytes₁) ∷ [])
  unfolding open_stream
  prepare-overlap now₁ now₂ r₁ r₂ w₁ w₂ s key bytes₁ bytes₂ conn room up alive passes₁ passes₂ e₁
        e₂ =
      let s₁ : Server Limiter = open_stream w₁ (admit lib now₁ r₁ s).1 in
      let k₁ = admit-Kept now₁ r₁ s in
      let k₂ = admit-Kept now₂ r₂ s₁ in
      let s₂ : Server Limiter = open_stream w₂ (admit lib now₂ r₂ s₁).1 in
      let same : s₂.sockets conn ≡ s.sockets conn = ap (λ x. x conn) (k₂.sockets ∙ k₁.sockets) in
      let up₁ : lookup key s₁.client_conns ≡ some conn = ap (λ m. lookup key m) k₁.conns ∙ up in
      let last : Str = wire_of (request_message (next_id s₁) bytes₂) in
      let soon : Str = wire_of (request_message (next_id s) bytes₁) in
      let apart =
        opened_twice s (admit lib now₁ r₁ s).1 (admit lib now₂ r₂ s₁).1 w₁ w₂ room k₁ k₂ in
      let sent_second = send-ws bytes₂ conn (next_id s₁) s₁.next_stream s₂ (rw (same) alive) in
      (
        next_id s,
        next_id s₁,
        s.next_stream,
        s₁.next_stream,
        s₁,
        s₂,
        _,
        _,
        prepare-ws now₁ r₁ w₁ s key bytes₁ conn passes₁ up e₁,
        prepare-ws now₂ r₂ w₂ s₁ key bytes₂ conn passes₂ up₁ e₂,
        apart.later_id,
        apart.later_stream,
        apart.first,
        apart.second,
        same,
        sent_second,
        send-ws bytes₁ conn (next_id s) s.next_stream _
            (ground (arith, nat_beq_iff conn conn, same, alive)),
        written_twice conn last soon s₂.sockets ∙ ap (λ x. x.written ++ (last ∷ soon ∷ [])) same,
      )
