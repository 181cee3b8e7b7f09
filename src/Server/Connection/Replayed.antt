-- ===== src/Server/Connection/Replayed.antt =====
-- What the reader of a handed connection sees.
use Prim.Native.Nat.{min}
use single_proxy.Base.{
  ℕ, zero, suc, ◌<◌, Str, List, ◌∷◌, ◌++◌, true, false, some, take, drop, nat_key, ◌≡◌, ◌≢◌, refl,
  ◌∙◌, ap, arith, take-append-drop, ◌⊎◌, nat_beq_iff,
}
use single_proxy.Server.Conn.{PrefixedConn, Supply}
use single_proxy.Server.Conn.Replay.{unread, reads-unread}
use single_proxy.Server.Conn.Replay
use single_proxy.Server.Route.{Protocol, socks5, http, detect}
use single_proxy.Server.State.{ok}
use single_proxy.Server.Connection.{Incoming, handed, handle_connection, detected, probe_size}

probed : (n : ℕ) → 0 < n → 0 < min n probe_size
probed n h = omega arith

-- The two protocols by the first byte.
detect-first :
    (b : ℕ) (rest : Str)
    → ((b ≡ 5) × (detect (b ∷ rest) ≡ socks5)) ⊎ ((b ≢ 5) × (detect (b ∷ rest) ≡ http))
unfolding detect
detect-first b rest = ground (arith, nat_beq_iff b 5)

detected-handed :
    (k b : ℕ) (rest : Str)
    → 0 < k
    → (pc : PrefixedConn) × (detected true (take k (b ∷ rest)) (drop k (b ∷ rest))
        ≡ ok (handed (detect (b ∷ rest)) pc))
      × (unread pc ≡ b ∷ rest)
unfolding detected detect
detected-handed zero b rest h = absurd (omega arith)
detected-handed (suc k) b rest h = (
  record { incoming = drop k rest; prefix = b ∷ take k rest; prefix_read = false },
  refl,
  ap (◌∷◌ b) (take-append-drop k rest),
)

-- Take a connection on which the deadline is set and cleared, and whose first read gives at least
-- one byte. Then it goes to the SOCKS5 server if the first byte is 5 and to handleHTTPConnection
-- otherwise, and whatever sequence of reads is made there, with any buffer sizes, supplies and
-- failures, the bytes that they return, followed by what is unread, are all that the peer sent.
pub handle_connection-reads :
    (c : Incoming) (n b : ℕ) (rest : Str)
    → c.deadline_set ≡ true
    → c.deadline_cleared ≡ true
    → c.first_read ≡ some n
    → 0 < n
    → c.bytes ≡ b ∷ rest
    → (protocol : Protocol) × (pc : PrefixedConn) × (handle_connection c ≡ ok (handed protocol pc))
      × (((b ≡ 5) × (protocol ≡ socks5)) ⊎ ((b ≢ 5) × (protocol ≡ http)))
      × ((ops : List (ℕ × Supply))
          → (Replay.reads ops pc).0 ++ unread (Replay.reads ops pc).1 ≡ b ∷ rest)
unfolding handle_connection
handle_connection-reads c n b rest set cleared first some_bytes sent =
    let (pc, e, all) = detected-handed (min n probe_size) b rest (probed n some_bytes) in
    (
      detect (b ∷ rest),
      pc,
      rw (set, first) (rw (cleared, sent) e),
      detect-first b rest,
      λ ops. reads-unread ops pc ∙ all,
    )
