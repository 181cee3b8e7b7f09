-- ===== src/Server/Connection/Tests.antt =====
-- Concrete connections.
use single_proxy.Base.{ℕ, ◌≢◌, ◌⊎◌, codes, List, ◌++◌, true, some, ◌≡◌, refl, arith}
use single_proxy.Server.Conn.{PrefixedConn, Supply}
use single_proxy.Server.Conn.Replay
use single_proxy.Server.Conn.Replay.{unread}
use single_proxy.Server.Route.{Protocol, socks5, http}
use single_proxy.Server.State.{ok}
use single_proxy.Server.Connection.{Incoming, handle_connection, handed}
use single_proxy.Server.Connection.Replayed.{handle_connection-reads}

abbrev first_byte : ℕ
first_byte = b'G'

abbrev web_peer : Incoming
web_peer = record {
  bytes = codes "GET /index HTTP/1.1";
  first_read = some 19;
  deadline_set = true;
  deadline_cleared = true;
  remote_addr = codes "10.0.0.1:4000";
}

handle_connection-reads_example :
    (protocol : Protocol) × (pc : PrefixedConn) × (handle_connection web_peer
      ≡ ok (handed protocol pc))
    × (((first_byte ≡ 5) × (protocol ≡ socks5)) ⊎ ((first_byte ≢ 5) × (protocol ≡ http)))
    × ((ops : List (ℕ × Supply))
        → (Replay.reads ops pc).0 ++ unread (Replay.reads ops pc).1 ≡ codes "GET /index HTTP/1.1")
handle_connection-reads_example =
    handle_connection-reads web_peer 19 first_byte (codes "ET /index HTTP/1.1") refl refl refl
      (omega arith) refl
