-- ===== src/Server/Polling.antt =====
-- The HTTP long-polling tunnel on the server: handleHTTPTunnelRegister, handleHTTPTunnelPoll,
-- handleHTTPTunnelResponse, handleHTTPTunnelMessage and cleanupHTTPTunnelClient of
-- pkg/server/handlers.go. Time is a number of nanoseconds that the caller gives.
pub mod Channels
pub mod Queue
pub mod Answer
pub mod Crashes
pub mod Cleanup
mod Tests
use single_proxy.Base.{
  ℕ, zero, suc, ◌+◌, ◌-◌, ◌*◌, Str, codes, List, [], ◌∷◌, ◌++◌, Bool, true, false, Option, none,
  some, lookup, insert, delete, ltb, ◌==◌, nat_key, str_key, if◌then◌else◌,
}
use single_proxy.Http.Header.{set, add_all}
use single_proxy.Http.Status.{
  status_ok, status_no_content, status_bad_request, status_not_found, status_method_not_allowed,
  status_internal_server_error,
}
use single_proxy.Protocol.Message.{
  TunnelMessage, serialize_tunnel_message, deserialize_tunnel_message, msg_type_http_res,
  msg_type_http_res_chunk,
}
use single_proxy.Server.Writer.{Writer, write_header, write, flush, error}
use single_proxy.Server.State.{
  Server, Outcome, ok, panic, ◌>>=◌, nil_dereference, Response, Stream, HttpTunnelClient, Chan,
  new_chan, close, receive, Received, message, zero_value, blocked, set_stream, set_tunnel,
  close_done, update,
}

abbrev pub minute : ℕ
minute = 60 * 1_000_000_000

abbrev pub json_type : Writer → Writer
json_type w = record w { header = set (codes "Content-Type") (codes "application/json") w.header }

pub registered_body : Str
registered_body =
    codes "{\"status\": \"registered\", \"message\": \"HTTP tunnel registered successfully\"}"

pub received_body : Str
received_body = codes "{\"status\": \"received\"}"

-- handleHTTPTunnelPoll up to its select: an answer, or the client that it waits for.
pub data Polling : Type 0 where
  answered : Writer → Polling
  waiting : ℕ → Writer → Polling

-- The cases of its select: a message or the zero value from the channel, the timer, the request's
-- cancellation. Where nothing can be received, that case is not taken yet.
pub data Wake : Type 0 where
  channel timer cancelled : Wake

answer_message : Option Str → Writer → Writer
answer_message none w = error (codes "Internal server error") status_internal_server_error w
answer_message (some bytes) w = (write bytes (write_header status_ok w)).1

module _ {Limiter : Type 0} where
  -- close(client.pollChan) and close(client.responseChan) of the client at an address.
  unfoldable pub close_channels : ℕ → Server Limiter → Outcome (Server Limiter)
  close_channels a s = do
    poll ← close (s.tunnels a).poll_chan
    response ← close (s.tunnels a).response_chan
    ok (set_tunnel a (record (s.tunnels a) { poll_chan = poll; response_chan = response }) s)

  close_old : Option ℕ → Server Limiter → Outcome (Server Limiter)
  unfolding close_channels
  close_old none s = ok s
  close_old (some old) s = close_channels old s

  -- The section of handleHTTPTunnelRegister under the manager's lock.
  unfoldable pub register_client : ℕ → Str → Str → Server Limiter → Outcome (Server Limiter)
  unfolding close_old
  register_client now key remote_addr s = do
    s' ← close_old (lookup key s.tunnel_clients) s
    ok (record s' {
      tunnels = update s'.tunnels s'.next_tunnel (record {
        key = key;
        remote_addr = remote_addr;
        last_seen = now;
        poll_chan = new_chan;
        response_chan = new_chan;
      });
      next_tunnel = s'.next_tunnel + 1;
      tunnel_clients = insert key s'.next_tunnel s'.tunnel_clients;
    })

  -- The answer is written before its content type is set.
  unfoldable pub handle_register :
      ℕ → Str → Str → Str → Writer → Server Limiter → Outcome (Writer × Server Limiter)
  unfolding register_client registered_body
  handle_register now method key remote_addr w s =
      if method == codes "POST"
      then (register_client now key remote_addr s >>= λ s'.
          ok ((write registered_body (json_type (write_header status_ok w))).1, s'))
      else ok (error (codes "Method not allowed. Use POST") status_method_not_allowed w, s)

  abbrev pub touch : ℕ → ℕ → Server Limiter → Server Limiter
  touch now a s = set_tunnel a (record (s.tunnels a) { last_seen = now }) s

  unfoldable pub poll_begin : ℕ → Str → Str → Writer → Server Limiter → Polling × Server Limiter
  poll_begin now method key w s =
      if method == codes "GET"
      then elim (lookup key s.tunnel_clients) [
        | none ↦ (
          answered
              (error (codes "Tunnel not registered. Please register first") status_not_found w),
          s,
        )
        | some a ↦ (waiting a (json_type w), touch now a s)
      ]
      else (answered (error (codes "Method not allowed. Use GET") status_method_not_allowed w), s)

  poll_received : ℕ → Writer → Server Limiter → Received → Outcome (Writer × Server Limiter)
  unfolding answer_message
  poll_received a w s (message msg rest) = ok (
    answer_message (serialize_tunnel_message msg) w,
    set_tunnel a (record (s.tunnels a) { poll_chan = rest }) s,
  )
  poll_received a w s zero_value = panic nil_dereference
  poll_received a w s blocked = ok (w, s)

  unfoldable pub poll_end : ℕ → Wake → Writer → Server Limiter → Outcome (Writer × Server Limiter)
  unfolding poll_received
  poll_end a channel w s = poll_received a w s (receive (s.tunnels a).poll_chan)
  poll_end a timer w s = ok (write_header status_no_content w, s)
  poll_end a cancelled w s = ok (w, s)

  -- One tick of cleanupHTTPTunnelClient: whether the goroutine goes on.
  unfoldable pub cleanup_tick : ℕ → Str → Server Limiter → Outcome (Bool × Server Limiter)
  unfolding close_channels
  cleanup_tick now key s = elim (lookup key s.tunnel_clients) [
    | none ↦ ok (false, s)
    | some a ↦
        if ltb (5 * minute) (now - (s.tunnels a).last_seen)
        then (close_channels a s >>= λ s'.
            ok (false, record s' { tunnel_clients = delete key s'.tunnel_clients }))
        else ok (true, s)
  ]

-- The response: headers are added, the status and the body are written.
unfoldable pub write_body : Option Str → Writer → Writer
write_body none w = w
write_body (some []) w = w
write_body (some (b ∷ bytes)) w = (write (b ∷ bytes) w).1

unfoldable pub write_response : Response → Writer → Writer
unfolding write_body
write_response resp w = flush (
    write_body resp.body
      (write_header resp.status_code (record w { header = add_all resp.header w.header })))

module _ {Limiter : Type 0} (read_response : Str → Option Response) where
  unfoldable pub tunnel_response : ℕ → Str → Server Limiter → Outcome (Server Limiter)
  tunnel_response a payload s = elim (read_response payload) [
    | none ↦ close_done a s
    | some resp ↦ close_done a (
        set_stream a (record (s.streams a) { writer = write_response resp (s.streams a).writer }) s)
  ]

  -- A chunk: a failed write ends the stream, an empty chunk does nothing.
  unfoldable pub tunnel_chunk : ℕ → Str → Server Limiter → Outcome (Server Limiter)
  tunnel_chunk a [] s = ok s
  tunnel_chunk a (b ∷ payload) s =
      let written = write (b ∷ payload) (s.streams a).writer in
      let s' = set_stream a (record (s.streams a) { writer = written.1 }) s in
      if written.0 then ok s' else close_done a s'

  -- handleHTTPTunnelMessage
  unfoldable pub tunnel_message : TunnelMessage → Server Limiter → Outcome (Server Limiter)
  unfolding tunnel_response tunnel_chunk
  tunnel_message msg s =
      if msg.type == msg_type_http_res
      then elim (lookup msg.id s.stream_handlers) [
        | none ↦ ok s
        | some a ↦ tunnel_response a msg.payload s
      ]
      else if msg.type == msg_type_http_res_chunk
      then elim (lookup msg.id s.stream_handlers) [
        | none ↦ ok s
        | some a ↦ tunnel_chunk a msg.payload s
      ]
      else ok s

  handle_message_body :
      ℕ → ℕ → Option Str → Writer → Server Limiter → Outcome (Writer × Server Limiter)
  handle_message_body now a none w s =
      ok (error (codes "Failed to read response body") status_bad_request w, s)
  handle_message_body now a (some bytes) w s = elim (deserialize_tunnel_message bytes) [
    | none ↦ ok (error (codes "Invalid message format") status_bad_request w, s)
    | some msg ↦ tunnel_message msg (touch now a s) >>= λ s'.
        ok ((write received_body (json_type (write_header status_ok w))).1, s')
  ]

  -- handleHTTPTunnelResponse, with what io.ReadAll gives of the request's body.
  unfoldable pub handle_response :
      ℕ → Str → Str → Option Str → Writer → Server Limiter → Outcome (Writer × Server Limiter)
  unfolding handle_message_body received_body
  handle_response now method key bytes w s =
      if method == codes "POST"
      then elim (lookup key s.tunnel_clients) [
        | none ↦
            ok (error (codes "Tunnel not registered. Please register first") status_not_found w, s)
        | some a ↦ handle_message_body now a bytes w s
      ]
      else ok (error (codes "Method not allowed. Use POST") status_method_not_allowed w, s)
