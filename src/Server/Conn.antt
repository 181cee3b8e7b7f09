-- ===== src/Server/Conn.antt =====
-- prefixedConn and singleConnListener of pkg/server/types.go. The bytes that the peer sends are a
-- list; `Supply` says how many of them the operating system hands over in one read, or that the
-- read fails.
pub mod Replay
use single_proxy.Base.{
  ℕ, Str, [], Bool, true, false, not, ◌&&◌, Option, none, some, take, drop, length, ltb, ◌==◌,
  str_key, if◌then◌else◌,
}

pub data Supply : Type 0 where
  supplies : ℕ → Supply
  fails : Supply

pub record PrefixedConn : Type 0 where
  pub incoming : Str
  pub prefix : Str
  pub prefix_read : Bool

-- pc.Conn.Read(b) for a buffer of n bytes.
unfoldable pub read_below : ℕ → Supply → PrefixedConn → Option Str × PrefixedConn
read_below n (supplies k) pc = (
  some (take n (take k pc.incoming)),
  record pc { incoming = drop (length (take n (take k pc.incoming))) pc.incoming },
)
read_below n fails pc = (none, pc)

-- (pc *prefixedConn) Read(b) for a buffer of n bytes; `none` is an error.
unfoldable pub read : ℕ → Supply → PrefixedConn → Option Str × PrefixedConn
unfolding read_below
read n supply pc =
    if not pc.prefix_read && not (pc.prefix == [])
    then (
      some (take n pc.prefix),
      if ltb (length (take n pc.prefix)) (length pc.prefix)
          then record pc { prefix = drop (length (take n pc.prefix)) pc.prefix }
          else record pc { prefix_read = true },
    )
    else read_below n supply pc

-- A connection is a number; `none` is nil.
pub record SingleConnListener : Type 0 where
  pub conn : Option ℕ
  pub used : Bool

-- Accept; `none` is the error "connection already used".
unfoldable pub accept : SingleConnListener → Option (Option ℕ) × SingleConnListener
accept l = if l.used then (none, l) else (some l.conn, record l { used = true })

-- Close, for what closing a connection does: whether it succeeds.
unfoldable pub close_listener :
    {World : Type 0} → (ℕ → World → Bool × World) → SingleConnListener → World → Bool × World
close_listener close_conn l w = elim l.conn [ none ↦ (true, w) | some conn ↦ close_conn conn w ]

-- Addr, for the local address of a connection
unfoldable pub listener_addr : (ℕ → Str) → SingleConnListener → Option Str
listener_addr local_addr l = elim l.conn [ none ↦ none | some conn ↦ some (local_addr conn) ]
