-- ===== src/Client/Tunnel.antt =====
-- The WebSocket client, TunnelClient of pkg/client/client.go: its fields, and its goroutines, of
-- which each runs up to the next point where it can wait. Channels, connections and goroutines are
-- numbers, and `next_…` is the next number that is free. A connection that is read from is the one
-- of the last Connect.
pub mod Loops
pub mod Steps
mod Tests
use single_proxy.Base.{
  ℕ, ◌+◌, Str, codes, List, [], ◌∷◌, ◌++◌, Bool, true, false, not, ◌&&◌, ◌||◌, Option, none, some,
  map, length, ltb, ◌==◌, nat_key, str_key, if◌then◌else◌,
}
use single_proxy.Config.Types.{Config}
use single_proxy.Protocol.Http.{Request}
use single_proxy.Protocol.Message.{TunnelMessage, deserialize_tunnel_message, msg_type_http_req}
use single_proxy.Protocol.Wire.{wire_of}
use single_proxy.Http.Forward.{Outgoing, outgoing}
use single_proxy.Client.Url.{connect_path}
use single_proxy.Client.Stream.{Answer, request_messages}
use single_proxy.Server.State.{
  Outcome, ok, panic, update, close_of_closed_channel, close_of_nil_channel, nil_dereference,
}

-- url.URL
pub record Url : Type 0 where
  pub scheme : Str
  pub path : Str

-- websocket.Conn, with the path that was dialled
pub record Conn : Type 0 where
  pub path : Str
  pub shut : Bool
  pub written : List Str

-- A goroutine in the select of `writer`: the connection that it closes when it returns, and the
-- channel that it waits for.
pub record WriterLoop : Type 0 where
  pub own : ℕ
  pub stop : Option ℕ

pub record TunnelClient : Type 0 where
  pub server_addr : Url
  pub target_addr : Str
  pub key : Str
  pub insecure : Bool
  pub ws_conn : Option ℕ
  pub write_chan : List Str
  pub close_chan : Option ℕ
  pub last_ping_time : Option ℕ
  pub last_pong_time : Option ℕ
  pub reconnect_count : ℕ
  -- the store of channels that are closed, and of connections
  pub is_closed : ℕ → Bool
  pub next_chan : ℕ
  pub conns : ℕ → Conn
  pub next_conn : ℕ
  -- the goroutines: whether readLoop runs, the writers, and what each handler has left to queue
  pub is_reading : Bool
  pub writers : ℕ → Option WriterLoop
  pub next_writer : ℕ
  pub handlers : ℕ → List Str
  pub next_handler : ℕ

abbrev pub write_capacity : ℕ
write_capacity = 256

pub data Created : Type 0 where
  created : TunnelClient → Created
  bad_address bad_scheme : Created

abbrev pub unused_conn : Conn
unused_conn = record { path = []; shut = false; written = [] }

-- NewTunnelClient, for what url.Parse gives
unfoldable pub client_at : Config → Option Url → Created
client_at cfg none = bad_address
client_at cfg (some url) =
    if not (url.scheme == codes "ws") && not (url.scheme == codes "wss")
    then bad_scheme
    else created (record {
      server_addr = url;
      target_addr = cfg.target_addr;
      key = cfg.key;
      insecure = cfg.insecure;
      ws_conn = none;
      write_chan = [];
      close_chan = none;
      last_ping_time = none;
      last_pong_time = none;
      reconnect_count = 0;
      is_closed = λ ch. false;
      next_chan = 0;
      conns = λ k. unused_conn;
      next_conn = 0;
      is_reading = false;
      writers = λ i. none;
      next_writer = 0;
      handlers = λ j. [];
      next_handler = 0;
    })

-- NewTunnelClient, with url.Parse as an argument
unfoldable pub new_tunnel_client : (Str → Option Url) → Config → Created
unfolding client_at
new_tunnel_client parse cfg = client_at cfg (parse cfg.server_addr)

-- c.closeChan = make(chan struct{})
unfoldable pub make_close_chan : TunnelClient → TunnelClient
make_close_chan c = record c {
  close_chan = some c.next_chan;
  is_closed = update c.is_closed c.next_chan false;
  next_chan = c.next_chan + 1;
}

-- c.wsConn.Close()
unfoldable pub shut_conn : ℕ → TunnelClient → TunnelClient
shut_conn k c = record c { conns = update c.conns k (record (c.conns k) { shut = true }) }

unfoldable pub shut_old : TunnelClient → TunnelClient
unfolding shut_conn
shut_old c = elim c.ws_conn [ none ↦ c | some k ↦ shut_conn k c ]

-- The end of Connect, once Dial has given a connection, and the goroutines that it starts.
unfoldable pub connected : TunnelClient → TunnelClient
connected c = record c {
  ws_conn = some c.next_conn;
  conns =
      update c.conns c.next_conn
        (record { path = connect_path c.server_addr.path c.key; shut = false; written = [] });
  next_conn = c.next_conn + 1;
  reconnect_count = c.reconnect_count + 1;
  is_reading = true;
  writers =
      update c.writers c.next_writer (some (record { own = c.next_conn; stop = c.close_chan }));
  next_writer = c.next_writer + 1;
}

-- closeChan is made where there is none.
unfoldable pub ensure_close_chan : TunnelClient → TunnelClient
unfolding make_close_chan
ensure_close_chan c = elim c.close_chan [ none ↦ make_close_chan c | some ch ↦ c ]

-- Connect, for a dial that succeeds or fails: whether it returns nil.
unfoldable pub connect : Bool → TunnelClient → Bool × TunnelClient
unfolding ensure_close_chan shut_old connected
connect succeeds c =
    let c' = shut_old (ensure_close_chan c) in
    if succeeds then (true, connected c') else (false, c')

-- What Run does with the result of Connect before it sleeps or waits.
unfoldable pub count_attempt : Bool × TunnelClient → TunnelClient
count_attempt (false, c) = record c { reconnect_count = c.reconnect_count + 1 }
count_attempt (true, c) = record c {
  reconnect_count = if ltb 0 c.reconnect_count then 0 else c.reconnect_count;
}

-- The loop of Run up to where it sleeps or waits for the connection to end; it comes here only if
-- the read loop has ended.
unfoldable pub run_round : Bool → TunnelClient → TunnelClient
unfolding connect make_close_chan count_attempt
run_round succeeds c =
    if c.is_reading then c else count_attempt (connect succeeds (make_close_chan c))
