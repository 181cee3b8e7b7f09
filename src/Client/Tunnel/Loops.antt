-- ===== src/Client/Tunnel/Loops.antt =====
-- The goroutines of the WebSocket client: readLoop, handleHTTPRequest with streamResponseBody, writer
-- and keepAlive of pkg/client/client.go, each from one wait to the next.
use single_proxy.Base.{
  ℕ, ◌+◌, Str, List, [], ◌∷◌, ◌++◌, Bool, true, false, not, ◌||◌, Option, none, some, map, length,
  ltb, ◌==◌, nat_key, str_key, if◌then◌else◌,
}
use single_proxy.Protocol.Http.{Request}
use single_proxy.Protocol.Message.{TunnelMessage, deserialize_tunnel_message, msg_type_http_req}
use single_proxy.Protocol.Wire.{wire_of}
use single_proxy.Http.Forward.{Outgoing, outgoing}
use single_proxy.Client.Stream.{Answer, request_messages}
use single_proxy.Server.State.{
  Outcome, ok, panic, update, close_of_closed_channel, close_of_nil_channel, nil_dereference,
}
use single_proxy.Client.Tunnel.{TunnelClient, WriterLoop, shut_conn, write_capacity}

-- http.ReadRequest, and client.Do of ForwardToTarget with the reads of the body that it gives
pub record Target : Type 0 where
  pub read_request : Str → Option Request
  pub do_request : Outgoing → Option Answer

-- What ForwardToTarget gives for the payload of a request; `none` where handleHTTPRequest returns.
unfoldable pub answer_to : Target → TunnelClient → Str → Option Answer
answer_to target c payload = elim (target.read_request payload) [
  | none ↦ none
  | some r ↦ target.do_request (outgoing r c.target_addr)
]

unfoldable pub on_decoded : Target → Option TunnelMessage → TunnelClient → TunnelClient
unfolding answer_to
on_decoded target none c = c
on_decoded target (some msg) c =
    if msg.type == msg_type_http_req
    then record c {
      handlers =
          update c.handlers c.next_handler
            (map wire_of (request_messages msg.id (answer_to target c msg.payload)));
      next_handler = c.next_handler + 1;
    }
    else c

-- A round of readLoop that returned data; the handler of a request is a goroutine.
unfoldable pub on_data : Target → Str → TunnelClient → TunnelClient
unfolding on_decoded
on_data target bytes c =
    if c.is_reading then on_decoded target (deserialize_tunnel_message bytes) c else c

-- The end of readLoop after an error, which wakes Run.
unfoldable pub read_loop_end : TunnelClient → Outcome TunnelClient
read_loop_end c =
    if c.is_reading
    then elim c.close_chan [
      | none ↦ panic close_of_nil_channel
      | some ch ↦
          if c.is_closed ch
          then panic close_of_closed_channel
          else ok (record c {
            is_closed = update c.is_closed ch true;
            is_reading = false;
            reconnect_count = c.reconnect_count + 1;
          })
    ]
    else ok c

-- A writer that returns.
unfoldable pub writer_end : ℕ → WriterLoop → TunnelClient → TunnelClient
unfolding shut_conn
writer_end i l c = record (shut_conn l.own c) { writers = update c.writers i none }

-- WriteMessage on a connection, which fails on one that is closed.
unfoldable pub write_message : Bool → ℕ → WriterLoop → ℕ → Str → TunnelClient → TunnelClient
unfolding writer_end
write_message delivers i l k bytes c =
    if (c.conns k).shut || not delivers then writer_end i l c else record c {
      conns = update c.conns k (record (c.conns k) { written = (c.conns k).written ++ bytes ∷ [] });
      writers = update c.writers i (some (record l { stop = c.close_chan }));
    }

-- A step's client, the messages that handlers queued in it, with their handlers, and the messages
-- that writers took from the channel.
pub record Moved : Type 0 where
  pub accepted : List (ℕ × Str)
  pub taken : List Str
  pub after : TunnelClient

abbrev pub quiet : TunnelClient → Moved
quiet c = record { accepted = []; taken = []; after = c }

-- A writer with what it finds in the channel, and the connection of the client.
unfoldable pub write_from :
    Bool → ℕ → WriterLoop → Option ℕ → List Str → TunnelClient → Outcome Moved
unfolding write_message
write_from delivers i l conn [] c = ok (quiet c)
write_from delivers i l none (bytes ∷ rest) c = panic nil_dereference
write_from delivers i l (some k) (bytes ∷ rest) c = ok (record {
  accepted = [];
  taken = bytes ∷ [];
  after = write_message delivers i l k bytes (record c { write_chan = rest });
})

-- The case of a writer's select that takes a message.
unfoldable pub write_next : Bool → ℕ → WriterLoop → TunnelClient → Outcome Moved
unfolding write_from
write_next delivers i l c = write_from delivers i l c.ws_conn c.write_chan c

unfoldable pub stop_on : ℕ → WriterLoop → Option ℕ → TunnelClient → TunnelClient
unfolding writer_end
stop_on i l none c = c
stop_on i l (some ch) c = if c.is_closed ch then writer_end i l c else c

-- The case of a writer's select that takes the closing of its channel.
unfoldable pub writer_stops : ℕ → WriterLoop → TunnelClient → TunnelClient
unfolding stop_on
writer_stops i l c = stop_on i l l.stop c

-- A handler with what it has left to queue.
unfoldable pub queue_from : ℕ → List Str → TunnelClient → Moved
queue_from j [] c = quiet c
queue_from j (bytes ∷ rest) c =
    if ltb (length c.write_chan) write_capacity
    then record {
      accepted = (j, bytes) ∷ [];
      taken = [];
      after = record c {
        write_chan = c.write_chan ++ bytes ∷ [];
        handlers = update c.handlers j rest;
      };
    }
    else quiet c

-- The case of a select of handleHTTPRequest or streamResponseBody that sends, where there is room.
unfoldable pub queue_next : ℕ → TunnelClient → Moved
unfolding queue_from
queue_next j c = queue_from j (c.handlers j) c

-- A handler that gives up, where its select takes the timer or the closing of the channel.
unfoldable pub abandon : ℕ → TunnelClient → TunnelClient
abandon j c = record c { handlers = update c.handlers j [] }

-- A tick of keepAlive, and the handler of pongs.
unfoldable pub ping : ℕ → TunnelClient → TunnelClient
ping now c = record c { last_ping_time = some now }

unfoldable pub pong : ℕ → TunnelClient → TunnelClient
pong now c = record c { last_pong_time = some now }
