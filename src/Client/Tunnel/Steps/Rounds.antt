-- ===== src/Client/Tunnel/Steps/Rounds.antt =====
-- The rounds of Run and the end of the read loop as steps of the WebSocket client.
use single_proxy.Base.{
  ℕ, ◌+◌, ◌≤◌, ◌<◌, Str, List, [], ◌∷◌, ◌++◌, Bool, true, false, some, map, length, ◌==◌, nat_key,
  nat_beq_iff, if◌then◌else◌, ◌≡◌, ◌⊎◌, inl, inr, refl, sym, ap, ◌∙◌, arith, append-nil,
  Option-cases, if-cases, Bool-cases,
}
use single_proxy.Server.State.{ok, update}
use single_proxy.Client.Tunnel.{
  TunnelClient, WriterLoop, Conn, run_round, connect, ensure_close_chan, make_close_chan, shut_old,
  shut_conn, connected, count_attempt, write_capacity,
}
use single_proxy.Client.Tunnel.Loops.{Moved, quiet, read_loop_end}

-- A client that reads has a channel that is open, one with a writer has a connection, and the
-- channel of messages holds no more than it can.
pub record IsWf (c : TunnelClient) : Type 0 where
  pub reading : c.is_reading ≡ true → (ch : ℕ) × (c.close_chan ≡ some ch) × (c.is_closed ch ≡ false)
  pub writing : (i : ℕ) (l : WriterLoop) → c.writers i ≡ some l → (k : ℕ) × (c.ws_conn ≡ some k)
  pub bounded : length c.write_chan ≤ write_capacity

-- What one handler queued.
abbrev pub own : ℕ → List (ℕ × Str) → List Str
own j [] = []
own j ((i, bytes) ∷ accepted) = let more = own j accepted in if i == j then bytes ∷ more else more

abbrev pub texts : List (ℕ × Str) → List Str
texts accepted = map (λ (x : ℕ × Str). x.1) accepted

-- A step: the messages move through the channel in their order, and a handler queues the next of
-- its own or gives up.
pub record Step (c : TunnelClient) (m : Moved) : Type 0 where
  pub wf : IsWf m.after
  pub fifo : c.write_chan ++ texts m.accepted ≡ m.taken ++ m.after.write_chan
  pub grows : c.next_handler ≤ m.after.next_handler
  pub moves :
      (j : ℕ)
      → j < c.next_handler
      → (own j m.accepted ++ m.after.handlers j ≡ c.handlers j)
        ⊎ ((own j m.accepted ≡ []) × (m.after.handlers j ≡ []))

-- Steps that leave the channel of messages and the handlers alone.
pub record Aside (c c' : TunnelClient) : Type 0 where
  pub messages : c'.write_chan ≡ c.write_chan
  pub same_handlers : c'.handlers ≡ c.handlers
  pub same_next : c'.next_handler ≡ c.next_handler

pub quiet-Step : (c c' : TunnelClient) → Aside c c' → IsWf c' → Step c (quiet c')
quiet-Step c c' a wf = record {
  wf = wf;
  fifo = append-nil c.write_chan ∙ sym a.messages;
  grows = ground (arith, a.same_next);
  moves = λ j below. inl (ap (λ f. f j) a.same_handlers);
}

-- Closing the old connection changes connections only.
pub shut_old_lem : (c : TunnelClient) → (f : ℕ → Conn) × (shut_old c ≡ record c { conns = f })
unfolding shut_old shut_conn
shut_old_lem c = elim (Option-cases c.ws_conn) [
  | inl none_yet ↦ (c.conns, rw (none_yet))
  | inr (k, e) ↦ (update c.conns k (record (c.conns k) { shut = true }), rw (e))
]

-- A round that dials.
pub dial-Step :
    (succeeds : Bool) (c : TunnelClient)
    → IsWf c
    → c.is_reading ≡ false
    → Step c (quiet (count_attempt (connect succeeds (make_close_chan c))))
unfolding connect ensure_close_chan make_close_chan connected count_attempt
dial-Step true c v idle =
    let (f, e) = shut_old_lem (make_close_chan c) in
    rw (e) (
      quiet-Step c _ (record { messages = refl; same_handlers = refl; same_next = refl })
        (record {
          reading = λ r. (c.next_chan, refl, ground (arith, nat_beq_iff c.next_chan c.next_chan));
          writing = λ i l w. (c.next_conn, refl);
          bounded = v.bounded;
        }))
dial-Step false c v idle =
    let (f, e) = shut_old_lem (make_close_chan c) in
    rw (e) (
      quiet-Step c _ (record { messages = refl; same_handlers = refl; same_next = refl })
        (record {
          reading = λ r. ground (arith, idle, r);
          writing = v.writing;
          bounded = v.bounded;
        }))

-- A step that leaves the client as it is.
pub idle-Step : (c : TunnelClient) → IsWf c → Step c (quiet c)
idle-Step c v =
    quiet-Step c c (record { messages = refl; same_handlers = refl; same_next = refl }) v

pub run_round-Step :
    (succeeds : Bool) (c : TunnelClient) → IsWf c → Step c (quiet (run_round succeeds c))
unfolding run_round
run_round-Step succeeds c v =
    if-cases (λ (x : TunnelClient). Step c (quiet x)) c.is_reading c
      (count_attempt (connect succeeds (make_close_chan c))) (λ busy. idle-Step c v)
      (λ idle. dial-Step succeeds c v idle)

-- The client after the read loop closed a channel.
abbrev pub lost : ℕ → TunnelClient → TunnelClient
lost ch c = record c {
  is_closed = update c.is_closed ch true;
  is_reading = false;
  reconnect_count = c.reconnect_count + 1;
}

pub read_loop_end_lem :
    (ch : ℕ) (c : TunnelClient)
    → c.is_reading ≡ true
    → c.close_chan ≡ some ch
    → c.is_closed ch ≡ false
    → read_loop_end c ≡ ok (lost ch c)
unfolding read_loop_end
read_loop_end_lem ch c busy e up = simp (busy, e, up)

-- The read loop closes a channel that is open.
pub read_loop_end-Step :
    (c : TunnelClient)
    → IsWf c
    → (c' : TunnelClient) × (read_loop_end c ≡ ok c') × Step c (quiet c')
unfolding read_loop_end
read_loop_end-Step c v = elim (Bool-cases c.is_reading) [
  | inr idle ↦ (c, rw (idle), idle-Step c v)
  | inl busy ↦
      let (ch, e, up) = v.reading busy in
      (
        lost ch c,
        read_loop_end_lem ch c busy e up,
        quiet-Step c (lost ch c)
            (record { messages = refl; same_handlers = refl; same_next = refl })
            (record { reading = λ r. ground (arith, r); writing = v.writing; bounded = v.bounded }),
      )
]
