-- ===== src/Client/Tunnel/Steps/Delivered.antt =====
-- What reaches the connection of a WebSocket client while nothing is lost.
use mathlib.Core.Path.{subst}
use single_proxy.Base.{
  ℕ, Str, List, [], ◌∷◌, ◌++◌, Bool, true, false, Option, none, some, All, ◌==◌, nat_key,
  nat_beq_iff, ◌≡◌, refl, sym, ap, ◌∙◌, arith, List-cases, inl, inr, append_assoc, append-nil,
  if-cases, ltb, length,
}
use single_proxy.Protocol.Message.{TunnelMessage, deserialize_tunnel_message, msg_type_http_req}
use single_proxy.Server.State.{Outcome, ok, panic, ◌>>=◌}
use single_proxy.Client.Tunnel.{TunnelClient, WriterLoop, run_round, write_capacity}
use single_proxy.Client.Tunnel.Loops.{
  Target, Moved, quiet, on_data, on_decoded, write_next, write_from, queue_next, queue_from,
  abandon, ping, pong,
}
use single_proxy.Client.Tunnel.Steps.{
  Event, dials, reads, loses, writes, stops, queues, drops, pings, pongs, happen, happen_all,
  and_then, with_writer,
}
use single_proxy.Client.Tunnel.Steps.Messages.{popped, wrote, write_message-goes, write_next_lem}
use single_proxy.Client.Tunnel.Steps.Sole.{IfMoved}

-- Nothing ends the connection: no write fails, no writer stops, and the read loop goes on.
abbrev pub Holds : Event → Type 0
Holds (dials succeeds) = Unit
Holds (reads bytes) = Unit
Holds loses = ⊥
Holds (writes i delivers) = delivers ≡ true
Holds (stops i) = ⊥
Holds (queues j) = Unit
Holds (drops j) = Unit
Holds (pings now) = Unit
Holds (pongs now) = Unit

-- The client reads from a connection that is up.
pub record IsUp (k : ℕ) (c : TunnelClient) : Type 0 where
  pub busy : c.is_reading ≡ true
  pub dialled : c.ws_conn ≡ some k
  pub up : (c.conns k).shut ≡ false

-- What writers took from the channel was written to that connection.
pub record Delivers (k : ℕ) (c : TunnelClient) (m : Moved) : Type 0 where
  pub still : IsUp k m.after
  pub gets : (m.after.conns k).written ≡ (c.conns k).written ++ m.taken

pub quiet-Delivers :
    (k : ℕ) (c c' : TunnelClient)
    → IsUp k c
    → c'.is_reading ≡ c.is_reading
    → c'.ws_conn ≡ c.ws_conn
    → c'.conns ≡ c.conns
    → Delivers k c (quiet c')
quiet-Delivers k c c' u busy dialled same = record {
  still = record {
    busy = busy ∙ u.busy;
    dialled = dialled ∙ u.dialled;
    up = ap (λ f. (f k).shut) same ∙ u.up;
  };
  gets = ap (λ f. (f k).written) same ∙ sym (append-nil (c.conns k).written);
}

on_decoded-Delivers :
    (target : Target) (msg : Option TunnelMessage) (k : ℕ) (c : TunnelClient)
    → IsUp k c
    → Delivers k c (quiet (on_decoded target msg c))
unfolding on_decoded
on_decoded-Delivers target none k c u = quiet-Delivers k c c u refl refl refl
on_decoded-Delivers target (some msg) k c u =
    if-cases (λ (x : TunnelClient). Delivers k c (quiet x)) (msg.type == msg_type_http_req) _ c
      (λ asks. quiet-Delivers k c _ u refl refl refl)
      (λ other. quiet-Delivers k c c u refl refl refl)

on_data-Delivers :
    (target : Target) (bytes : Str) (k : ℕ) (c : TunnelClient)
    → IsUp k c
    → Delivers k c (quiet (on_data target bytes c))
unfolding on_data on_decoded
on_data-Delivers target bytes k c u =
    if-cases (λ (x : TunnelClient). Delivers k c (quiet x)) c.is_reading
      (on_decoded target (deserialize_tunnel_message bytes) c) c
      (λ busy. on_decoded-Delivers target (deserialize_tunnel_message bytes) k c u)
      (λ idle. quiet-Delivers k c c u refl refl refl)

wrote-Delivers :
    (i : ℕ) (l : WriterLoop) (k : ℕ) (bytes : Str) (rest : List Str) (c : TunnelClient)
    → IsUp k c
    → Delivers k c
        (record { accepted = []; taken = bytes ∷ []; after = wrote i l k bytes (popped rest c) })
wrote-Delivers i l k bytes rest c u = record {
  still = record { busy = u.busy; dialled = u.dialled; up = ground (arith, u.up, nat_beq_iff k k) };
  gets = ground (arith, nat_beq_iff k k);
}

write_next-Delivers :
    (i : ℕ) (l : WriterLoop) (k : ℕ) (c : TunnelClient)
    → IsUp k c
    → IfMoved (Delivers k c) (write_next true i l c)
unfolding write_next write_from
write_next-Delivers i l k c u = elim (List-cases c.write_chan) [
  | inl empty ↦
      subst (IfMoved (Delivers k c))
        (ap (λ (xs : List Str). write_from true i l c.ws_conn xs c) (sym empty))
        (quiet-Delivers k c c u refl refl refl)
  | inr (bytes, rest, e) ↦
      let goes = write_message-goes true i l k bytes (popped rest c) (ground (arith, u.up)) in
      subst (IfMoved (Delivers k c)) (sym (write_next_lem true i l k bytes rest c e u.dialled)) (
        subst
          (λ (x : TunnelClient).
            Delivers k c (record { accepted = []; taken = bytes ∷ []; after = x }))
          (sym goes) (wrote-Delivers i l k bytes rest c u))
]

queue_from-Delivers :
    (j : ℕ) (pending : List Str) (k : ℕ) (c : TunnelClient)
    → IsUp k c
    → Delivers k c (queue_from j pending c)
unfolding queue_from
queue_from-Delivers j [] k c u = quiet-Delivers k c c u refl refl refl
queue_from-Delivers j (bytes ∷ rest) k c u =
    if-cases (Delivers k c) (ltb (length c.write_chan) write_capacity) _ (quiet c)
      (λ room. record {
        still = record { busy = u.busy; dialled = u.dialled; up = u.up };
        gets = sym (append-nil (c.conns k).written);
      })
      (λ full. quiet-Delivers k c c u refl refl refl)

with_writer-Delivers :
    (step : WriterLoop → TunnelClient → Outcome Moved) (running : Option WriterLoop) (k : ℕ)
    (c : TunnelClient)
    → IsUp k c
    → ((l : WriterLoop) → IfMoved (Delivers k c) (step l c))
    → IfMoved (Delivers k c) (with_writer step running c)
unfolding with_writer
with_writer-Delivers step none k c u runs = quiet-Delivers k c c u refl refl refl
with_writer-Delivers step (some l) k c u runs = runs l

run_round-busy :
    (succeeds : Bool) (c : TunnelClient) → c.is_reading ≡ true → run_round succeeds c ≡ c
unfolding run_round
run_round-busy succeeds c busy = simp (busy)

pub happen-Delivers :
    (target : Target) (e : Event) (k : ℕ) (c : TunnelClient)
    → IsUp k c
    → Holds e
    → IfMoved (Delivers k c) (happen target e c)
unfolding happen queue_next abandon ping pong
happen-Delivers target (dials succeeds) k c u spared =
    subst (λ (x : TunnelClient). Delivers k c (quiet x)) (sym (run_round-busy succeeds c u.busy))
      (quiet-Delivers k c c u refl refl refl)
happen-Delivers target (reads bytes) k c u spared = on_data-Delivers target bytes k c u
happen-Delivers target loses k c u spared = absurd spared
happen-Delivers target (writes i delivers) k c u spared =
    with_writer-Delivers (write_next delivers i) (c.writers i) k c u (λ l.
      subst (λ (d : Bool). IfMoved (Delivers k c) (write_next d i l c)) (sym spared)
        (write_next-Delivers i l k c u))
happen-Delivers target (stops i) k c u spared = absurd spared
happen-Delivers target (queues j) k c u spared = queue_from-Delivers j (c.handlers j) k c u
happen-Delivers target (drops j) k c u spared = quiet-Delivers k c _ u refl refl refl
happen-Delivers target (pings now) k c u spared = quiet-Delivers k c _ u refl refl refl
happen-Delivers target (pongs now) k c u spared = quiet-Delivers k c _ u refl refl refl

and_then-Delivers :
    (k : ℕ) (c : TunnelClient) (m : Moved) (next : Outcome Moved)
    → Delivers k c m
    → IfMoved (Delivers k m.after) next
    → IfMoved (Delivers k c) (and_then m next)
and_then-Delivers k c m (panic p) first later = tt
and_then-Delivers k c m (ok m') first later = record {
  still = later.still;
  gets =
      later.gets
      ∙ ap (λ (x : List Str). x ++ m'.taken) first.gets
      ∙ append_assoc (c.conns k).written m.taken m'.taken;
}

next-Delivers :
    (k : ℕ) (c : TunnelClient) (step : Outcome Moved) (next : Moved → Outcome Moved)
    → IfMoved (Delivers k c) step
    → ((m : Moved) → Delivers k c m → IfMoved (Delivers k m.after) (next m))
    → IfMoved (Delivers k c) (step >>= λ m. and_then m (next m))
next-Delivers k c (panic p) next first later = tt
next-Delivers k c (ok m) next first later = and_then-Delivers k c m (next m) first (later m first)

-- While nothing ends the connection, the messages that writers take are written to it in their
-- order.
pub happen_all-Delivers :
    (target : Target) (events : List Event) (k : ℕ) (c : TunnelClient)
    → IsUp k c
    → All Holds events
    → IfMoved (Delivers k c) (happen_all target events c)
unfolding happen_all
happen_all-Delivers target [] k c u held = quiet-Delivers k c c u refl refl refl
happen_all-Delivers target (e ∷ events) k c u (first, later) =
    next-Delivers k c (happen target e c) (λ m. happen_all target events m.after)
      (happen-Delivers target e k c u first)
      (λ m d. happen_all-Delivers target events k m.after d.still later)
