-- ===== src/Server/State.antt =====
-- The state of SinglePortProxy (pkg/server/server.go), with the objects that goroutines share. A
-- pointer is a number; the store gives the object that it points to, and `next_…` is the next
-- number that is free. Go's panics are values of `Outcome`.
use single_proxy.Base.{
  ℕ, Str, List, [], ◌∷◌, ◌++◌, Bool, true, false, Option, none, some, Map, length, leb, ◌==◌,
  nat_key, if◌then◌else◌,
}
use single_proxy.Http.Header.{Header}
use single_proxy.Protocol.Message.{TunnelMessage}
use single_proxy.Config.Types.{Config}
use single_proxy.Server.Writer.{Writer}

pub data Panic : Type 0 where
  close_of_closed_channel send_on_closed_channel nil_dereference index_out_of_range
        close_of_nil_channel :
      Panic

pub data Outcome {ℓ} (A : Type ℓ) : Type ℓ where
  ok : A → Outcome A
  panic : Panic → Outcome A

infixl 5 ◌>>=◌
abbrev pub ◌>>=◌ {ℓ κ} : {A : Type ℓ} {B : Type κ} → Outcome A → (A → Outcome B) → Outcome B
ok a >>= f = f a
panic p >>= f = panic p

-- A channel of messages with a buffer of ten.
pub record Chan : Type 0 where
  pub queue : List TunnelMessage
  pub closed : Bool

abbrev pub capacity : ℕ
capacity = 10

abbrev pub new_chan : Chan
new_chan = record { queue = []; closed = false }

-- close(c)
unfoldable pub close : Chan → Outcome Chan
close c = if c.closed then panic close_of_closed_channel else ok (record c { closed = true })

-- A send in a select with a default case, which is taken (`none`) where the buffer is full.
unfoldable pub try_send : TunnelMessage → Chan → Outcome (Option Chan)
try_send msg c =
    if c.closed
    then panic send_on_closed_channel
    else if leb capacity (length c.queue)
    then ok none
    else ok (some (record c { queue = c.queue ++ msg ∷ [] }))

-- A receive: a message, the zero value of a closed channel, or nothing to receive yet.
pub data Received : Type 0 where
  message : TunnelMessage → Chan → Received
  zero_value blocked : Received

receive_from : List TunnelMessage → Bool → Received
receive_from (msg ∷ rest) closed = message msg (record { queue = rest; closed = closed })
receive_from [] true = zero_value
receive_from [] false = blocked

unfoldable pub receive : Chan → Received
unfolding receive_from
receive c = receive_from c.queue c.closed

-- streamHandler; its flusher is the same writer. `done` says that its channel is closed.
pub record Stream : Type 0 where
  pub writer : Writer
  pub done : Bool

pub record HttpTunnelClient : Type 0 where
  pub key : Str
  pub remote_addr : Str
  pub last_seen : ℕ
  pub poll_chan : Chan
  pub response_chan : Chan

-- A WebSocket connection, as gorilla/websocket keeps it: whether it is closed, and what was written.
pub record Socket : Type 0 where
  pub closed : Bool
  pub written : List Str

-- An http.Response, with what io.ReadAll gives of its body, `none` for an error.
pub record Response : Type 0 where
  pub status_code : ℕ
  pub header : Header
  pub body : Option Str

pub record Server (Limiter : Type 0) : Type 0 where
  pub config : Config
  pub client_conns : Map Str ℕ
  pub stream_handlers : Map ℕ ℕ
  pub next_request_id : ℕ
  pub key_limiters : Map Str Limiter
  pub ip_limiters : Map Str Limiter
  pub tunnel_clients : Map Str ℕ
  pub streams : ℕ → Stream
  pub next_stream : ℕ
  pub tunnels : ℕ → HttpTunnelClient
  pub next_tunnel : ℕ
  pub sockets : ℕ → Socket

-- A store in which one object is replaced.
abbrev pub update {ℓ} : {A : Type ℓ} → (ℕ → A) → ℕ → A → ℕ → A
update f p v q = if p == q then v else f q

module _ {Limiter : Type 0} where
  abbrev pub set_stream : ℕ → Stream → Server Limiter → Server Limiter
  set_stream a st s = record s { streams = update s.streams a st }

  abbrev pub set_tunnel : ℕ → HttpTunnelClient → Server Limiter → Server Limiter
  set_tunnel a c s = record s { tunnels = update s.tunnels a c }

  abbrev pub set_socket : ℕ → Socket → Server Limiter → Server Limiter
  set_socket a c s = record s { sockets = update s.sockets a c }

  -- close(handler.done)
  unfoldable pub close_done : ℕ → Server Limiter → Outcome (Server Limiter)
  close_done a s =
      if (s.streams a).done
      then panic close_of_closed_channel
      else ok (set_stream a (record (s.streams a) { done = true }) s)

  -- NewSinglePortProxy; the stores hold no object that is in use.
  unfoldable pub new_server :
      Config → (ℕ → Stream) → (ℕ → HttpTunnelClient) → (ℕ → Socket) → Server Limiter
  new_server cfg streams tunnels sockets = record {
    config = cfg;
    client_conns = [];
    stream_handlers = [];
    next_request_id = 0;
    key_limiters = [];
    ip_limiters = [];
    tunnel_clients = [];
    streams = streams;
    next_stream = 0;
    tunnels = tunnels;
    next_tunnel = 0;
    sockets = sockets;
  }
