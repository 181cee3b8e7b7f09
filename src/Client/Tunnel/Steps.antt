-- ===== src/Client/Tunnel/Steps.antt =====
-- The steps of a WebSocket client in any order.
pub mod Rounds
pub mod Messages
pub mod Order
pub mod Answers
pub mod Sole
pub mod Shares
pub mod Own
pub mod Delivered
pub mod Drain
use single_proxy.Base.{
  ℕ, ◌+◌, Str, codes, List, [], ◌∷◌, ◌++◌, Bool, true, false, not, ◌&&◌, ◌||◌, Option, none, some,
  map, length, ltb, ◌==◌, nat_key, str_key, if◌then◌else◌,
}
use single_proxy.Server.State.{◌>>=◌, Outcome, ok, panic}
use single_proxy.Client.Tunnel.{TunnelClient, WriterLoop, run_round}
use single_proxy.Client.Tunnel.Loops.{
  Target, Moved, quiet, on_data, read_loop_end, write_next, writer_stops, queue_next, abandon, ping,
  pong,
}

-- What can happen: a round of Run with a dial that succeeds or not, data or an error for the read
-- loop, a step of a writer or of a handler, a ping or a pong.
pub data Event : Type 0 where
  dials : Bool → Event
  reads : Str → Event
  loses : Event
  writes : ℕ → Bool → Event
  stops queues drops pings pongs : ℕ → Event

-- A step of a writer, if that goroutine runs.
unfoldable pub with_writer :
    (WriterLoop → TunnelClient → Outcome Moved) → Option WriterLoop → TunnelClient → Outcome Moved
with_writer step none c = ok (quiet c)
with_writer step (some l) c = step l c

unfoldable pub moved_to : Outcome TunnelClient → Outcome Moved
moved_to (ok c) = ok (quiet c)
moved_to (panic p) = panic p

unfoldable pub happen : Target → Event → TunnelClient → Outcome Moved
unfolding with_writer moved_to run_round on_data read_loop_end write_next writer_stops queue_next
    abandon ping pong
happen target (dials succeeds) c = ok (quiet (run_round succeeds c))
happen target (reads bytes) c = ok (quiet (on_data target bytes c))
happen target loses c = moved_to (read_loop_end c)
happen target (writes i delivers) c = with_writer (write_next delivers i) (c.writers i) c
happen target (stops i) c = with_writer (λ l c'. ok (quiet (writer_stops i l c'))) (c.writers i) c
happen target (queues j) c = ok (queue_next j c)
happen target (drops j) c = ok (quiet (abandon j c))
happen target (pings now) c = ok (quiet (ping now c))
happen target (pongs now) c = ok (quiet (pong now c))

abbrev pub and_then : Moved → Outcome Moved → Outcome Moved
and_then m (ok m') =
    ok (record {
      accepted = m.accepted ++ m'.accepted;
      taken = m.taken ++ m'.taken;
      after = m'.after;
    })
and_then m (panic p) = panic p

unfoldable pub happen_all : Target → List Event → TunnelClient → Outcome Moved
unfolding happen
happen_all target [] c = ok (quiet c)
happen_all target (e ∷ events) c =
    happen target e c >>= λ m. and_then m (happen_all target events m.after)
