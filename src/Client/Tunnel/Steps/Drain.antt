-- ===== src/Client/Tunnel/Steps/Drain.antt =====
-- The steps with which a handler of the WebSocket client and a writer bring an answer to its end.
use single_proxy.Base.{
  ℕ, zero, suc, Str, List, [], ◌∷◌, ◌++◌, Bool, true, some, All, length, ltb, nat_key, nat_beq_iff,
  ◌≡◌, refl, ap, ◌∙◌, arith, if◌then◌else◌,
}
use single_proxy.Server.State.{ok, update}
use single_proxy.Client.Tunnel.{TunnelClient, WriterLoop, write_capacity}
use single_proxy.Client.Tunnel.Loops.{Target, Moved, quiet, write_next, queue_next, queue_from}
use single_proxy.Client.Tunnel.Steps.{Event, writes, queues, happen, happen_all, with_writer}
use single_proxy.Client.Tunnel.Steps.Messages.{popped, wrote, write_message-goes, write_next_lem}
use single_proxy.Client.Tunnel.Steps.Order.{both, happen_all-next}
use single_proxy.Client.Tunnel.Steps.Sole.{NotAsked}
use single_proxy.Client.Tunnel.Steps.Delivered.{IsUp, Holds}

-- Handler `j` queues a message and writer `i` writes it, for a number of messages.
abbrev pub rounds : ℕ → ℕ → ℕ → List Event
rounds i j zero = []
rounds i j (suc n) = queues j ∷ writes i true ∷ rounds i j n

-- The writer empties the channel first.
abbrev pub drain : ℕ → ℕ → ℕ → ℕ → List Event
drain i j zero n = rounds i j n
drain i j (suc q) n = writes i true ∷ drain i j q n

pub rounds-Holds : (i j n : ℕ) → All Holds (rounds i j n)
rounds-Holds i j zero = tt
rounds-Holds i j (suc n) = (tt, (refl, rounds-Holds i j n))

pub drain-Holds : (i j q n : ℕ) → All Holds (drain i j q n)
drain-Holds i j zero n = rounds-Holds i j n
drain-Holds i j (suc q) n = (refl, drain-Holds i j q n)

pub rounds-NotAsked : (id i j n : ℕ) → All (NotAsked id) (rounds i j n)
rounds-NotAsked id i j zero = tt
rounds-NotAsked id i j (suc n) = (tt, (tt, rounds-NotAsked id i j n))

pub drain-NotAsked : (id i j q n : ℕ) → All (NotAsked id) (drain i j q n)
drain-NotAsked id i j zero n = rounds-NotAsked id i j n
drain-NotAsked id i j (suc q) n = (tt, drain-NotAsked id i j q n)

-- The client is up and the writer runs.
pub record IsRunning (i k : ℕ) (c : TunnelClient) : Type 0 where
  pub up : IsUp k c
  pub runs : (l : WriterLoop) × (c.writers i ≡ some l)

-- A step that took some messages, and left others in the channel and to the handler.
record Took (i j k : ℕ) (taken left pending : List Str) (m : Moved) : Type 0 where
  running : IsRunning i k m.after
  took : m.taken ≡ taken
  in_channel : m.after.write_chan ≡ left
  to_queue : m.after.handlers j ≡ pending

writes-Took :
    (target : Target) (i j k : ℕ) (bytes : Str) (rest : List Str) (c : TunnelClient)
    → IsRunning i k c
    → c.write_chan ≡ bytes ∷ rest
    → (m : Moved) × (happen target (writes i true) c ≡ ok m)
      × Took i j k (bytes ∷ []) rest (c.handlers j) m
unfolding happen with_writer
writes-Took target i j k bytes rest c r e =
    let (l, w) = r.runs in
    let goes = write_message-goes true i l k bytes (popped rest c) (ground (arith, r.up.up)) in
    (
      record { accepted = []; taken = bytes ∷ []; after = wrote i l k bytes (popped rest c) },
      ap (λ x. with_writer (write_next true i) x c) w
          ∙ write_next_lem true i l k bytes rest c e r.up.dialled
          ∙ ap (λ x. ok (record { accepted = []; taken = bytes ∷ []; after = x })) goes,
      record {
        running = record {
          up = record {
            busy = r.up.busy;
            dialled = r.up.dialled;
            up = ground (arith, r.up.up, nat_beq_iff k k);
          };
          runs = (record l { stop = c.close_chan }, ground (arith, nat_beq_iff i i));
        };
        took = refl;
        in_channel = refl;
        to_queue = refl;
      },
    )

queues-Took :
    (target : Target) (i j k : ℕ) (bytes : Str) (rest : List Str) (c : TunnelClient)
    → IsRunning i k c
    → c.write_chan ≡ []
    → c.handlers j ≡ bytes ∷ rest
    → (m : Moved) × (happen target (queues j) c ≡ ok m) × Took i j k [] (bytes ∷ []) rest m
unfolding happen queue_next queue_from
queues-Took target i j k bytes rest c r empty e =
    let room : ltb (length c.write_chan) write_capacity ≡ true =
      ap (λ (x : List Str). ltb (length x) write_capacity) empty in
    let next : Moved = record {
      accepted = (j, bytes) ∷ [];
      taken = [];
      after = record c {
        write_chan = c.write_chan ++ bytes ∷ [];
        handlers = update c.handlers j rest;
      };
    } in
    (
      next,
      ap (λ (x : List Str). ok (queue_from j x c)) e
          ∙ ap (λ (b : Bool). ok (if b then next else quiet c)) room,
      record {
        running = record {
          up = record { busy = r.up.busy; dialled = r.up.dialled; up = r.up.up };
          runs = r.runs;
        };
        took = refl;
        in_channel = ap (λ (x : List Str). x ++ bytes ∷ []) empty;
        to_queue = ground (arith, nat_beq_iff j j);
      },
    )

pub rounds-takes :
    (target : Target) (i j k : ℕ) (pending : List Str) (c : TunnelClient)
    → IsRunning i k c
    → c.write_chan ≡ []
    → c.handlers j ≡ pending
    → (m : Moved) × (happen_all target (rounds i j (length pending)) c ≡ ok m) × (m.taken ≡ pending)
unfolding happen_all
rounds-takes target i j k [] c r empty e = (quiet c, refl, refl)
rounds-takes target i j k (bytes ∷ rest) c r empty e =
    let (m, queued, t) = queues-Took target i j k bytes rest c r empty e in
    let (m', written, t') = writes-Took target i j k bytes [] m.after t.running t.in_channel in
    let (n, more, taken) =
      rounds-takes target i j k rest m'.after t'.running t'.in_channel (t'.to_queue ∙ t.to_queue) in
    (
      both m (both m' n),
      happen_all-next target (queues j) (writes i true ∷ rounds i j (length rest)) c m (both m' n)
          queued
          (happen_all-next target (writes i true) (rounds i j (length rest)) m.after m' n written
            more),
      ap (λ (x : List Str). x ++ (m'.taken ++ n.taken)) t.took
          ∙ ap (λ (x : List Str). x ++ n.taken) t'.took
          ∙ ap (◌∷◌ bytes) taken,
    )

-- A writer that runs empties the channel, and then takes all that the handler has.
pub drain-takes :
    (target : Target) (i j k : ℕ) (left pending : List Str) (c : TunnelClient)
    → IsRunning i k c
    → c.write_chan ≡ left
    → c.handlers j ≡ pending
    → (m : Moved) × (happen_all target (drain i j (length left) (length pending)) c ≡ ok m)
      × (m.taken ≡ left ++ pending)
drain-takes target i j k [] pending c r e e' = rounds-takes target i j k pending c r e e'
drain-takes target i j k (bytes ∷ left) pending c r e e' =
    let (m, written, t) = writes-Took target i j k bytes left c r e in
    let (n, more, taken) =
      drain-takes target i j k left pending m.after t.running t.in_channel (t.to_queue ∙ e') in
    (
      both m n,
      happen_all-next target (writes i true) (drain i j (length left) (length pending)) c m n
          written more,
      ap (λ (x : List Str). x ++ n.taken) t.took ∙ ap (◌∷◌ bytes) taken,
    )
