-- ===== src/Server/Public/Open.antt =====
-- Opening the stream of a request, and sending the request over a WebSocket.
use single_proxy.Protocol.Wire.{wire_of}
use single_proxy.Base.{
  ℕ, ◌+◌, ◌^◌, ◌≤◌, ◌<◌, Str, codes, [], ◌∷◌, ◌++◌, Bool, true, false, Option, none, some, lookup,
  delete, nat_key, str_key, nat_beq_iff, ◌≡◌, ◌⊎◌, ◌||◌, not, inl, inr, refl, ◌∙◌, arith,
  lookup-insert, lookup-insert_self, lookup-delete, KeysApart-insert, KeysApart-delete, Bool-cases,
  Option-cases,
}
use single_proxy.Http.Status.{status_internal_server_error}
use single_proxy.Protocol.Http.{Request, serialize_http_request}
use single_proxy.Protocol.Message.{TunnelMessage, serialize_tunnel_message, msg_type_http_req}
use single_proxy.Server.Writer.{Writer}
use single_proxy.Server.State.{Server, ok, set_socket, update}
use single_proxy.Server.Tunnel.Live.{IsLive, write-IsLive}
use single_proxy.Server.Public.Relay.{IsOpen}
use single_proxy.Server.Public.{
  Progress, answered, waiting, ws_tunnel, next_id, open_stream, forward_ws, forward, dispatch,
  finish_timeout, give_up, Refusal, refuse,
}

-- The message of a request.
abbrev pub request_message : ℕ → Str → TunnelMessage
request_message id bytes = record { id = id; type = msg_type_http_req; payload = bytes }

module _ {Limiter : Type 0} where
  -- Registered streams are open and distinct; IDs and streams that are in use were handed out.
  pub record IsWf (s : Server Limiter) : Type 0 where
    pub live : IsLive s
    pub used_ids : (id a : ℕ) → lookup id s.stream_handlers ≡ some a → id ≤ s.next_request_id
    pub used_streams : (id a : ℕ) → lookup id s.stream_handlers ≡ some a → a < s.next_stream

  -- The IDs have not run out.
  abbrev pub HasIds : Server Limiter → Type 0
  HasIds s = s.next_request_id + 1 < 2 ^ 64

  next_id_lem : (s : Server Limiter) → HasIds s → next_id s ≡ s.next_request_id + 1
  next_id_lem s h = omega arith

  pub open_stream-IsWf :
      (w : Writer) (s : Server Limiter) → HasIds s → IsWf s → IsWf (open_stream w s)
  unfolding open_stream
  open_stream-IsWf w s h v =
      let fresh = next_id_lem s h in
      record {
        live = record {
          is_open = λ id a e. grind (
            arith,
            lookup-insert (next_id s) id s.next_stream s.stream_handlers,
            v.live.is_open id a,
            v.used_streams id a,
            nat_beq_iff s.next_stream a,
          );
          distinct = λ i j a p q. grind (
            arith,
            lookup-insert (next_id s) i s.next_stream s.stream_handlers,
            lookup-insert (next_id s) j s.next_stream s.stream_handlers,
            v.live.distinct i j a,
            v.used_streams i a,
            v.used_streams j a,
            nat_beq_iff (next_id s) i,
            nat_beq_iff (next_id s) j,
          );
          unique = KeysApart-insert (next_id s) s.next_stream s.stream_handlers v.live.unique;
        };
        used_ids = λ id a e. grind (
          arith,
          fresh,
          lookup-insert (next_id s) id s.next_stream s.stream_handlers,
          v.used_ids id a,
          nat_beq_iff (next_id s) id,
        );
        used_streams = λ id a e. grind (
          arith,
          lookup-insert (next_id s) id s.next_stream s.stream_handlers,
          v.used_streams id a,
        );
      }

  -- The new stream is registered under the new ID, which no other request has.
  pub open_stream-IsOpen :
      (w : Writer) (s : Server Limiter)
      → w.alive ≡ true
      → IsOpen (next_id s) s.next_stream (open_stream w s)
  unfolding open_stream
  open_stream-IsOpen w s up = record {
    registered = lookup-insert_self (next_id s) s.next_stream s.stream_handlers;
    pending = ground (arith, nat_beq_iff s.next_stream s.next_stream);
    up = ground (arith, nat_beq_iff s.next_stream s.next_stream);
  }

  -- Removing a request, and writing to a stream.
  remove-IsWf :
      (id : ℕ) (s : Server Limiter)
      → IsWf s
      → IsWf (record s { stream_handlers = delete id s.stream_handlers })
  remove-IsWf id s v = record {
    live = record {
      is_open = λ i a e. ground (arith, lookup-delete id i s.stream_handlers, v.live.is_open i a);
      distinct = λ i j a p q. ground (
        arith,
        lookup-delete id i s.stream_handlers,
        lookup-delete id j s.stream_handlers,
        v.live.distinct i j a,
      );
      unique = KeysApart-delete id s.stream_handlers v.live.unique;
    };
    used_ids = λ i a e. ground (arith, lookup-delete id i s.stream_handlers, v.used_ids i a);
    used_streams =
        λ i a e. ground (arith, lookup-delete id i s.stream_handlers, v.used_streams i a);
  }

  write-IsWf :
      (a : ℕ) (w : Writer) (s : Server Limiter)
      → IsWf s
      → IsWf (record s { streams = update s.streams a (record (s.streams a) { writer = w }) })
  write-IsWf a w s v = record {
    live = write-IsLive a (record (s.streams a) { writer = w }) s refl v.live;
    used_ids = v.used_ids;
    used_streams = v.used_streams;
  }

  give_up-IsWf : (id a : ℕ) (f : Refusal) (s : Server Limiter) → IsWf s → IsWf (give_up id a f s).1
  give_up-IsWf id a f s v = write-IsWf a _ _ (remove-IsWf id s v)

  pub finish_timeout-IsWf :
      (id a : ℕ) (s : Server Limiter) → IsWf s → IsWf (finish_timeout id a s).1
  unfolding finish_timeout
  finish_timeout-IsWf id a s v = give_up-IsWf id a _ s v

  pub forward_ws-IsWf :
      (delivers : Bool) (bytes : Option Str) (conn id a : ℕ) (s : Server Limiter)
      → IsWf s
      → IsWf (forward_ws delivers bytes conn id a s).1
  unfolding forward_ws
  forward_ws-IsWf delivers none conn id a s v = v
  forward_ws-IsWf delivers (some bytes) conn id a s v =
      elim (Bool-cases ((s.sockets conn).closed || not delivers)) [
        | inl failed ↦ rw (failed, forward_ws) (give_up-IsWf id a _ s v)
        | inr sent ↦
            rw (sent, forward_ws)
              (record {
                live = record {
                  is_open = v.live.is_open;
                  distinct = v.live.distinct;
                  unique = v.live.unique;
                };
                used_ids = v.used_ids;
                used_streams = v.used_streams;
              })
      ]

  pub dispatch_ws :
      (delivers : Bool) (conn : ℕ) (r : Request) (bytes : Str) (w : Writer) (s : Server Limiter)
      → serialize_http_request r ≡ some bytes
      → dispatch delivers (ws_tunnel conn) r w s
        ≡ ok (
            forward_ws delivers
              (serialize_tunnel_message (request_message (next_id s) bytes))
              conn
              (next_id s)
              s.next_stream
              (open_stream w s))
  unfolding dispatch forward
  dispatch_ws delivers conn r bytes w s e = rw (e, dispatch)

  pub dispatch_ws-none :
      (delivers : Bool) (conn : ℕ) (r : Request) (w : Writer) (s : Server Limiter)
      → serialize_http_request r ≡ none
      → (w' : Writer) × (dispatch delivers (ws_tunnel conn) r w s ≡ ok (answered w', s))
  unfolding dispatch
  dispatch_ws-none delivers conn r w s e = (
    refuse (record { message = codes "Internal server error"; code = status_internal_server_error })
        w,
    rw (e, dispatch),
  )

  -- A request for a WebSocket tunnel does not panic, and keeps the state well formed.
  pub dispatch_ws-Keeps :
      (delivers : Bool) (conn : ℕ) (r : Request) (w : Writer) (s : Server Limiter)
      → HasIds s
      → IsWf s
      → (p : Progress × Server Limiter) × (dispatch delivers (ws_tunnel conn) r w s ≡ ok p)
        × IsWf p.1
  dispatch_ws-Keeps delivers conn r w s h v = elim (Option-cases (serialize_http_request r)) [
    | inl broken ↦
        let (w', e) = dispatch_ws-none delivers conn r w s broken in ((answered w', s), e, v)
    | inr (bytes, e) ↦ (
      forward_ws delivers (serialize_tunnel_message (request_message (next_id s) bytes)) conn
          (next_id s) s.next_stream (open_stream w s),
      dispatch_ws delivers conn r bytes w s e,
      forward_ws-IsWf delivers _ conn (next_id s) s.next_stream (open_stream w s)
          (open_stream-IsWf w s h v),
    )
  ]

  -- What a delivered request changes: a stream is registered for the new ID and is open with the
  -- writer that was given; the connection has been sent one more frame, the message of the request;
  -- all other connections, streams and requests are as before.
  pub record IsForwarded (conn : ℕ) (bytes : Str) (w : Writer) (s s' : Server Limiter)
      : Type 0 where
    pub stream : IsOpen (next_id s) s.next_stream s'
    pub writer : (s'.streams s.next_stream).writer ≡ w
    pub frame :
        (wire : Str) × (serialize_tunnel_message
            (record { id = next_id s; type = msg_type_http_req; payload = bytes })
          ≡ some wire)
        × ((s'.sockets conn).written ≡ (s.sockets conn).written ++ wire ∷ [])
    pub sockets : (c : ℕ) → (conn ≡ c) ⊎ (s'.sockets c ≡ s.sockets c)
    pub streams : (b : ℕ) → (s.next_stream ≡ b) ⊎ (s'.streams b ≡ s.streams b)
    pub requests :
        (j : ℕ) → (next_id s ≡ j) ⊎ (lookup j s'.stream_handlers ≡ lookup j s.stream_handlers)

  pub dispatch_ws-IsForwarded :
      (conn : ℕ) (r : Request) (bytes : Str) (w : Writer) (s : Server Limiter)
      → serialize_http_request r ≡ some bytes
      → (s.sockets conn).closed ≡ false
      → w.alive ≡ true
      → (s' : Server Limiter) × (dispatch true (ws_tunnel conn) r w s
          ≡ ok (waiting (next_id s) s.next_stream, s'))
        × IsForwarded conn bytes w s s'
  unfolding forward_ws serialize_tunnel_message open_stream
  dispatch_ws-IsForwarded conn r bytes w s e up alive =
      let opened = open_stream-IsOpen w s alive in
      (
        set_socket conn
            (record (s.sockets conn) {
              written =
                  (s.sockets conn).written ++ wire_of (request_message (next_id s) bytes) ∷ [];
            })
            (open_stream w s),
        dispatch_ws true conn r bytes w s e ∙ rw (up, forward_ws),
        record {
          stream = record {
            registered = opened.registered;
            pending = opened.pending;
            up = opened.up;
          };
          writer = ground (arith, nat_beq_iff s.next_stream s.next_stream);
          frame = (
            wire_of (request_message (next_id s) bytes),
            refl,
            ground (arith, nat_beq_iff conn conn),
          );
          sockets = λ c. ground (arith, nat_beq_iff conn c);
          streams = λ b. ground (arith, nat_beq_iff s.next_stream b);
          requests = λ j. ground (
            arith,
            lookup-insert (next_id s) j s.next_stream s.stream_handlers,
            nat_beq_iff (next_id s) j,
          );
        },
      )
