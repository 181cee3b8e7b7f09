-- ===== src/Server/Tunnel.antt =====
-- The WebSocket tunnel on the server: clientReadLoop (pkg/server/handlers.go) and the critical
-- section of handleTunnelRegistration (pkg/server/server.go). http.ReadResponse is a parameter.
pub mod Live
pub mod Streams
pub mod Reconnect
pub mod Order
use single_proxy.Base.{
  ℕ, Str, List, [], ◌∷◌, Bool, true, false, Option, none, some, lookup, insert, delete, ◌==◌,
  nat_key, str_key, if◌then◌else◌,
}
use single_proxy.Http.Header.{assign_all}
use single_proxy.Protocol.Message.{
  TunnelMessage, deserialize_tunnel_message, msg_type_http_res, msg_type_http_res_chunk,
}
use single_proxy.Server.Writer.{Writer, write_header, write, flush}
use single_proxy.Server.State.{
  Server, Outcome, ok, ◌>>=◌, Stream, Response, Socket, set_stream, set_socket, close_done, update,
}

-- The response header: the header map is overwritten name by name, then the status is written.
unfoldable pub write_response_head : Response → Writer → Writer
write_response_head resp w =
    flush (write_header resp.status_code (record w { header = assign_all resp.header w.header }))

module _ {Limiter : Type 0} (read_response : Str → Option Response) where
  -- A response header for the stream at `a`.
  unfoldable pub on_response : ℕ → ℕ → Str → Server Limiter → Outcome (Server Limiter)
  on_response id a payload s = elim (read_response payload) [
    | none ↦ close_done a (record s { stream_handlers = delete id s.stream_handlers })
    | some resp ↦ ok (
        set_stream a
          (record (s.streams a) { writer = write_response_head resp (s.streams a).writer }) s)
  ]

  -- A chunk of the body; an empty one ends the stream. A failed write is only logged.
  unfoldable pub on_chunk : ℕ → ℕ → Str → Server Limiter → Outcome (Server Limiter)
  on_chunk id a [] s = do
    s' ← close_done a s
    ok (record s' { stream_handlers = delete id s'.stream_handlers })
  on_chunk id a (b ∷ payload) s = ok (
      set_stream a
        (record (s.streams a) { writer = flush (write (b ∷ payload) (s.streams a).writer).1 }) s)

  unfoldable pub on_message : TunnelMessage → Server Limiter → Outcome (Server Limiter)
  unfolding on_response on_chunk
  on_message msg s = elim (lookup msg.id s.stream_handlers) [
    | none ↦ ok s
    | some a ↦
        if msg.type == msg_type_http_res
        then on_response msg.id a msg.payload s
        else if msg.type == msg_type_http_res_chunk
        then on_chunk msg.id a msg.payload s
        else ok s
  ]

  -- One round of the loop of clientReadLoop, for the bytes that ReadMessage returned.
  unfoldable pub on_frame : Str → Server Limiter → Outcome (Server Limiter)
  unfolding on_message
  on_frame wire s = elim (deserialize_tunnel_message wire) [
    | none ↦ ok s
    | some msg ↦ on_message msg s
  ]

  -- The rounds of the loop, up to the error that ends it.
  unfoldable pub on_frames : List Str → Server Limiter → Outcome (Server Limiter)
  on_frames [] s = ok s
  on_frames (wire ∷ wires) s = on_frame wire s >>= on_frames wires

module _ {Limiter : Type 0} where
  unfoldable pub close_socket : ℕ → Server Limiter → Server Limiter
  close_socket conn s = set_socket conn (record (s.sockets conn) { closed = true }) s

  -- The deferred function of clientReadLoop, for the loop that reads `conn` for `key`.
  unfoldable pub read_loop_exit : ℕ → Str → Server Limiter → Server Limiter
  unfolding close_socket
  read_loop_exit conn key s =
      let s' = close_socket conn s in record s' { client_conns = delete key s'.client_conns }

  -- close(handler.done) and delete(p.streamHandlers, reqID), of a channel that is open.
  abbrev pub end_stream : ℕ → ℕ → Server Limiter → Server Limiter
  end_stream id a s = record s {
    streams = update s.streams a (record (s.streams a) { done = true });
    stream_handlers = delete id s.stream_handlers;
  }

  -- The loop over the handlers in handleTunnelRegistration: those that are not done are closed and
  -- removed.
  unfoldable pub cleanup : List (ℕ × ℕ) → Server Limiter → Server Limiter
  cleanup [] s = s
  cleanup ((id, a) ∷ handlers) s =
      cleanup handlers (if (s.streams a).done then s else end_stream id a s)

  -- The connection that is replaced is closed, and with it all pending streams.
  unfoldable pub replace_conn : Option ℕ → Server Limiter → Server Limiter
  unfolding cleanup close_socket
  replace_conn none s = s
  replace_conn (some old) s =
      let closed = close_socket old s in cleanup closed.stream_handlers closed

  -- The section under connsMu in handleTunnelRegistration, once the upgrade has given `conn`.
  unfoldable pub register_tunnel : Str → ℕ → Server Limiter → Server Limiter
  unfolding replace_conn
  register_tunnel key conn s =
      let s' = replace_conn (lookup key s.client_conns) s in
      record s' { client_conns = insert key conn s'.client_conns }
