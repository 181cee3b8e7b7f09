-- ===== src/Server/Public.antt =====
-- handlePublicHTTPRequest of pkg/server/handlers.go: a request from outside goes to the tunnel of
-- its key, and waits for the stream to end. It is cut where it waits: `public_request` runs up to
-- the select, `finish_done` and `finish_timeout` are its two cases. Whether WriteMessage succeeds on
-- an open connection is an argument.
pub mod Relay
pub mod Admit
pub mod Open
pub mod Prefix
use single_proxy.Base.{
  ℕ, zero, suc, ◌+◌, ◌%◌, ◌^◌, Str, codes, List, [], ◌∷◌, ◌++◌, Bool, true, false, not, ◌&&◌, ◌||◌,
  Option, none, some, lookup, insert, delete, ◌==◌, str_key, nat_key, if◌then◌else◌,
}
use single_proxy.Http.Header.{get}
use single_proxy.Http.Address.{split_host_port}
use single_proxy.Http.Status.{
  status_too_many_requests, status_internal_server_error, status_bad_gateway,
  status_service_unavailable, status_gateway_timeout,
}
use single_proxy.Protocol.Http.{Request, serialize_http_request}
use single_proxy.Protocol.Message.{TunnelMessage, serialize_tunnel_message, msg_type_http_req}
use single_proxy.Server.Writer.{Writer, error}
use single_proxy.Server.Limits.{RateLimiter, allowed}
use single_proxy.Server.State.{
  Server, Outcome, ok, ◌>>=◌, Stream, Socket, HttpTunnelClient, try_send, set_socket, set_stream,
  set_tunnel, update,
}

-- The X-Tunnel-Key header, or the key "default".
unfoldable pub key_of : Request → Str
key_of r =
    let key = get (codes "X-Tunnel-Key") r.header in if key == [] then codes "default" else key

-- A refusal: the status and the text that http.Error is called with.
pub record Refusal : Type 0 where
  pub message : Str
  pub code : ℕ

abbrev pub refuse : Refusal → Writer → Writer
refuse f w = error f.message f.code w

abbrev pub gateway_timeout : Refusal
gateway_timeout = record { message = codes "Gateway Timeout"; code = status_gateway_timeout }

pub data Admission : Type 0 where
  refused : Refusal → Admission
  admitted : Str → Admission

-- The tunnels that serve a key.
pub data Tunnel : Type 0 where
  no_tunnel : Tunnel
  ws_tunnel http_tunnel : ℕ → Tunnel

-- Up to the select the request is answered, or it waits for the stream of its ID.
pub data Progress : Type 0 where
  answered : Writer → Progress
  waiting : ℕ → ℕ → Progress

module _ (lib : RateLimiter) where
  open lib use {Limiter}

  -- The limit of the key, once that of the address is passed.
  admit_key : ℕ → Str → Server Limiter → Admission × Server Limiter
  unfolding allowed
  admit_key now key s =
      let answer = allowed lib now s.config.key_rate_limit key s.key_limiters in
      let s' = record s { key_limiters = answer.1 } in
      if answer.0 then (admitted key, s') else (
        refused (record {
          message = codes "Too many requests for this service";
          code = status_too_many_requests;
        }),
        s',
      )

  -- The two rate limits; the address comes first.
  unfoldable pub admit : ℕ → Request → Server Limiter → Admission × Server Limiter
  unfolding admit_key
  admit now r s = elim (split_host_port r.remote_addr) [
    | none ↦ (
      refused
          (record { message = codes "Internal server error"; code = status_internal_server_error }),
      s,
    )
    | some (ip, port) ↦
        let answer = allowed lib now s.config.ip_rate_limit ip s.ip_limiters in
        let s' = record s { ip_limiters = answer.1 } in
        let next = admit_key now (key_of r) s' in
        if answer.0 then next else (
          refused (record {
            message = codes "Too many requests from your IP";
            code = status_too_many_requests;
          }),
          s',
        )
  ]

module _ {Limiter : Type 0} where
  -- A WebSocket tunnel comes before an HTTP tunnel.
  unfoldable pub tunnel_for : Str → Server Limiter → Tunnel
  tunnel_for key s = elim (lookup key s.client_conns) [
    | some conn ↦ ws_tunnel conn
    | none ↦ elim (lookup key s.tunnel_clients) [
      | some client ↦ http_tunnel client
      | none ↦ no_tunnel
    ]
  ]

  -- atomic.AddUint64(&p.nextRequestID, 1)
  abbrev pub next_id : Server Limiter → ℕ
  next_id s = (s.next_request_id + 1) % 2 ^ 64

  -- A new request ID, and a handler registered for it.
  unfoldable pub open_stream : Writer → Server Limiter → Server Limiter
  open_stream w s = record s {
    next_request_id = next_id s;
    streams = update s.streams s.next_stream (record { writer = w; done = false });
    next_stream = s.next_stream + 1;
    stream_handlers = insert (next_id s) s.next_stream s.stream_handlers;
  }

  -- http.Error on the stream's writer.
  abbrev pub refuse_stream : ℕ → Refusal → Server Limiter → Server Limiter
  refuse_stream a f s =
      set_stream a (record (s.streams a) { writer = refuse f (s.streams a).writer }) s

  -- The handler is removed and the request is refused.
  abbrev pub give_up : ℕ → ℕ → Refusal → Server Limiter → Progress × Server Limiter
  give_up id a f s = (
    answered (refuse f (s.streams a).writer),
    refuse_stream a f (record s { stream_handlers = delete id s.stream_handlers }),
  )

  -- wsConn.WriteMessage, which fails on a closed connection.
  unfoldable pub forward_ws :
      Bool → Option Str → ℕ → ℕ → ℕ → Server Limiter → Progress × Server Limiter
  forward_ws delivers none conn id a s = (waiting id a, s)
  forward_ws delivers (some bytes) conn id a s =
      if (s.sockets conn).closed || not delivers
      then give_up id a
          (record { message = codes "Failed to forward request"; code = status_bad_gateway }) s
      else (
        waiting id a,
        set_socket conn
            (record (s.sockets conn) { written = (s.sockets conn).written ++ bytes ∷ [] }) s,
      )

  -- The send on the channel of the polling client, or the default case where it is full.
  unfoldable pub forward_http :
      TunnelMessage → ℕ → ℕ → ℕ → Server Limiter → Outcome (Progress × Server Limiter)
  forward_http msg client id a s = try_send msg (s.tunnels client).poll_chan >>= elim [
    | none ↦ ok (
        give_up id a
          (record { message = codes "Tunnel client busy"; code = status_service_unavailable }) s)
    | some chan ↦
        ok (waiting id a, set_tunnel client (record (s.tunnels client) { poll_chan = chan }) s)
  ]

  unfoldable pub forward :
      Bool → Tunnel → ℕ → ℕ → Str → Server Limiter → Outcome (Progress × Server Limiter)
  unfolding forward_ws forward_http
  forward delivers no_tunnel id a bytes s = ok (waiting id a, s)
  forward delivers (ws_tunnel conn) id a bytes s = ok (
      forward_ws delivers
        (serialize_tunnel_message (record { id = id; type = msg_type_http_req; payload = bytes }))
        conn id a s)
  forward delivers (http_tunnel client) id a bytes s =
      forward_http (record { id = id; type = msg_type_http_req; payload = bytes }) client id a s

  -- With the tunnels chosen: the request is serialised, a stream opened and the message sent.
  unfoldable pub dispatch :
      Bool → Tunnel → Request → Writer → Server Limiter → Outcome (Progress × Server Limiter)
  unfolding forward open_stream
  dispatch delivers no_tunnel r w s = ok (
    answered
        (refuse (record { message = codes "Service unavailable"; code = status_bad_gateway }) w),
    s,
  )
  dispatch delivers tunnel r w s = elim (serialize_http_request r) [
    | none ↦ ok (
      answered (
          refuse
            (record {
              message = codes "Internal server error";
              code = status_internal_server_error;
            })
            w),
      s,
    )
    | some bytes ↦ forward delivers tunnel (next_id s) s.next_stream bytes (open_stream w s)
  ]

  -- The case of the select where the stream ended: nothing is written, and nothing is removed.
  abbrev pub finish_done : ℕ → ℕ → Server Limiter → Writer × Server Limiter
  finish_done id a s = ((s.streams a).writer, s)

  -- The case where the timer ran out.
  unfoldable pub finish_timeout : ℕ → ℕ → Server Limiter → Writer × Server Limiter
  finish_timeout id a s = (
    refuse gateway_timeout (s.streams a).writer,
    refuse_stream a gateway_timeout (record s { stream_handlers = delete id s.stream_handlers }),
  )

module _ (lib : RateLimiter) where
  open lib use {Limiter}

  abbrev pub after_admission :
      Bool → Request → Writer → Admission × Server Limiter → Outcome (Progress × Server Limiter)
  after_admission delivers r w (refused f, s) = ok (answered (refuse f w), s)
  after_admission delivers r w (admitted key, s) = dispatch delivers (tunnel_for key s) r w s

  unfoldable pub public_request :
      ℕ → Bool → Request → Writer → Server Limiter → Outcome (Progress × Server Limiter)
  unfolding admit
  public_request now delivers r w s = after_admission delivers r w (admit lib now r s)
