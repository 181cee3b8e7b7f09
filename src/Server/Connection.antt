-- ===== src/Server/Connection.antt =====
-- A connection from its acceptance to its handler: Start, handleConnection and
-- handleHTTPConnection of pkg/server/server.go. What the operating system and crypto/tls give is an
-- argument; a handler of pkg/server runs up to the point where it waits, as in Server/Serve.
pub mod Replayed
mod Tests
use Prim.Native.Nat.{min}
use single_proxy.Base.{
  ℕ, Str, codes, List, [], ◌∷◌, ◌++◌, Bool, true, false, not, ◌&&◌, Option, none, some, ◌==◌,
  nat_key, str_key, if◌then◌else◌, take, drop,
}
use single_proxy.Config.Types.{Config}
use single_proxy.Protocol.Http.{Request}
use single_proxy.Server.Conn.{PrefixedConn}
use single_proxy.Server.Route.{Protocol, socks5, http, detect}
use single_proxy.Server.Writer.{Writer, new_writer}
use single_proxy.Server.Limits.{RateLimiter}
use single_proxy.Server.State.{
  Server, Outcome, ok, panic, ◌>>=◌, nil_dereference, index_out_of_range,
}
use single_proxy.Server.Serve.{
  Served, finished, polls, waits, runs_tunnel, Surroundings, serve_http,
}

-- What the peer sends, how much of it the first read gives (`none` for an error of the read), and
-- whether the read deadline is set and cleared.
pub record Incoming : Type 0 where
  pub bytes : Str
  pub first_read : Option ℕ
  pub deadline_set : Bool
  pub deadline_cleared : Bool
  pub remote_addr : Str

-- What handleConnection does with a connection: it closes it, or hands it, with the bytes that were
-- read in front, to the SOCKS5 server or to handleHTTPConnection.
pub data Handled : Type 0 where
  closed : Handled
  handed : Protocol → PrefixedConn → Handled

-- The size of the buffer of the first read.
abbrev pub probe_size : ℕ
probe_size = 16

-- With the bytes that were read: the debug message indexes the first one.
unfoldable pub detected : Bool → Str → Str → Outcome Handled
detected cleared [] rest = if cleared then panic index_out_of_range else ok closed
detected cleared (b ∷ bytes) rest =
    if cleared
    then ok (
        handed (detect (b ∷ bytes))
          (record { incoming = rest; prefix = b ∷ bytes; prefix_read = false }))
    else ok closed

-- handleConnection
unfoldable pub handle_connection : Incoming → Outcome Handled
unfolding detected
handle_connection c = if not c.deadline_set then ok closed else elim c.first_read [
  | none ↦ ok closed
  | some n ↦
      let k = min n probe_size in detected c.deadline_cleared (take k c.bytes) (drop k c.bytes)
]

-- What becomes of the connection of a request: it is closed, taken over by the WebSocket library, or
-- kept while the handler waits.
pub data Fate : Type 0 where
  closes taken_over : Writer → Fate
  waits_for : Served → Fate

-- The end of handleHTTPConnection, once the handler has returned.
unfoldable pub after_handler : Writer → Fate
after_handler w = if w.hijacked then taken_over w else closes w

unfoldable pub fate_of : Served → Fate
fate_of (finished w) = after_handler w
fate_of (polls a w) = waits_for (polls a w)
fate_of (waits id a) = waits_for (waits id a)
fate_of (runs_tunnel conn key w) = waits_for (runs_tunnel conn key w)

-- req.RemoteAddr, which http.ReadRequest leaves empty.
abbrev pub with_addr : Str → Request → Request
with_addr addr r = if r.remote_addr == [] then record r { remote_addr = addr } else r

module _ (lib : RateLimiter) where
  open lib use {Limiter}

  -- handleHTTPConnection, with the request that http.ReadRequest gives, if it gives one.
  unfoldable pub handle_http_connection :
      Surroundings → Str → Option Request → Server Limiter → Outcome (Fate × Server Limiter)
  unfolding fate_of after_handler
  handle_http_connection env addr none s = ok (closes new_writer, s)
  handle_http_connection env addr (some r) s =
      serve_http lib env (with_addr addr r) new_writer s >>= λ (served, s'). ok (fate_of served, s')

-- The listener that Start opens.
pub data Listener : Type 0 where
  tls plain : Str → Listener
  bad_certificate cannot_listen : Listener

-- tls.LoadX509KeyPair and the two Listen functions.
pub record Sockets : Type 0 where
  pub loads : Str → Str → Bool
  pub listens : Str → Bool

unfoldable pub listen : Sockets → Config → Listener
listen os cfg =
    let addr = codes ":" ++ cfg.listen_port in
    if not (cfg.cert_file == []) && not (cfg.key_file == [])
    then if os.loads cfg.cert_file cfg.key_file
      then if os.listens addr then tls addr else cannot_listen
      else bad_certificate
    else if os.listens addr
    then plain addr
    else cannot_listen

-- The rounds of the accept loop, of which `none` is a failure: the connections that are handled. The
-- message on a failure reads the address of the connection, which is nil then.
unfoldable pub accept_loop : List (Option ℕ) → Outcome (List ℕ)
accept_loop [] = ok []
accept_loop (none ∷ rounds) = panic nil_dereference
accept_loop (some conn ∷ rounds) = accept_loop rounds >>= λ conns. ok (conn ∷ conns)
