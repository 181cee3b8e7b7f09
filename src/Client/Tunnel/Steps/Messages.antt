-- ===== src/Client/Tunnel/Steps/Messages.antt =====
-- The steps of writers and handlers of the WebSocket client.
use single_proxy.Base.{
  ℕ, not, ◌||◌, Str, List, [], ◌∷◌, ◌++◌, Bool, false, Option, none, some, length, ltb, ◌==◌,
  nat_key, nat_beq_iff, ◌≡◌, inl, inr, refl, sym, ap, ◌∙◌, arith, append-nil, length-append,
  List-cases, if-cases, Bool-cases,
}
use single_proxy.Protocol.Message.{TunnelMessage, msg_type_http_req, deserialize_tunnel_message}
use single_proxy.Server.State.{ok, update}
use single_proxy.Client.Tunnel.{TunnelClient, WriterLoop, shut_conn, write_capacity}
use single_proxy.Client.Tunnel.Loops.{
  Target, Moved, quiet, on_data, write_next, write_from, queue_from, stop_on, on_decoded,
  write_message, writer_end, abandon,
}
use single_proxy.Client.Tunnel.Steps.Rounds.{IsWf, Step, Aside, quiet-Step, idle-Step}

-- A writer that returns, whatever is left in the channel.
pub writer_end-IsWf : (i : ℕ) (l : WriterLoop) (c : TunnelClient) → IsWf c → IsWf (writer_end i l c)
unfolding writer_end shut_conn
writer_end-IsWf i l c v = record {
  reading = v.reading;
  writing = λ j l' e. elim (Bool-cases (i == j)) [
    | inl same ↦ ground (arith, same, e)
    | inr other ↦ v.writing j l' (ground (arith, other, e))
  ];
  bounded = v.bounded;
}

-- The client after a message was written.
abbrev pub wrote : ℕ → WriterLoop → ℕ → Str → TunnelClient → TunnelClient
wrote i l k bytes c = record c {
  conns = update c.conns k (record (c.conns k) { written = (c.conns k).written ++ bytes ∷ [] });
  writers = update c.writers i (some (record l { stop = c.close_chan }));
}

pub write_message-goes :
    (delivers : Bool) (i : ℕ) (l : WriterLoop) (k : ℕ) (bytes : Str) (c : TunnelClient)
    → (c.conns k).shut || not delivers ≡ false
    → write_message delivers i l k bytes c ≡ wrote i l k bytes c
unfolding write_message
write_message-goes delivers i l k bytes c goes = rw (goes)

pub write_message-IsWf :
    (delivers : Bool) (i : ℕ) (l : WriterLoop) (k : ℕ) (bytes : Str) (c : TunnelClient)
    → IsWf c
    → c.ws_conn ≡ some k
    → IsWf (write_message delivers i l k bytes c)
unfolding write_message
write_message-IsWf delivers i l k bytes c v e =
    if-cases IsWf ((c.conns k).shut || not delivers) (writer_end i l c) (wrote i l k bytes c)
      (λ fails. writer_end-IsWf i l c v)
      (λ goes. record { reading = v.reading; writing = λ j l' w. (k, e); bounded = v.bounded })

pub write_message-Aside :
    (delivers : Bool) (i : ℕ) (l : WriterLoop) (k : ℕ) (bytes : Str) (c : TunnelClient)
    → Aside c (write_message delivers i l k bytes c)
unfolding write_message writer_end shut_conn
write_message-Aside delivers i l k bytes c =
    if-cases (Aside c) ((c.conns k).shut || not delivers) (writer_end i l c) (wrote i l k bytes c)
      (λ fails. record { messages = refl; same_handlers = refl; same_next = refl })
      (λ goes. record { messages = refl; same_handlers = refl; same_next = refl })

-- The client without the first message of its channel.
abbrev pub popped : List Str → TunnelClient → TunnelClient
popped rest c = record c { write_chan = rest }

pub popped-IsWf :
    (bytes : Str) (rest : List Str) (c : TunnelClient)
    → IsWf c
    → c.write_chan ≡ bytes ∷ rest
    → IsWf (popped rest c)
popped-IsWf bytes rest c v e = record {
  reading = v.reading;
  writing = v.writing;
  bounded = ground (arith, v.bounded, ap (λ (x : List Str). length x) e);
}

-- The message that a writer takes is the first of the channel.
pub write_next_lem :
    (delivers : Bool) (i : ℕ) (l : WriterLoop) (k : ℕ) (bytes : Str) (rest : List Str)
    (c : TunnelClient)
    → c.write_chan ≡ bytes ∷ rest
    → c.ws_conn ≡ some k
    → write_next delivers i l c
      ≡ ok (record {
        accepted = [];
        taken = bytes ∷ [];
        after = write_message delivers i l k bytes (popped rest c);
      })
unfolding write_next write_from
write_next_lem delivers i l k bytes rest c e dialled =
    ap (λ (conn : Option ℕ). write_from delivers i l conn c.write_chan c) dialled
    ∙ ap (λ (xs : List Str). write_from delivers i l (some k) xs c) e

pub write_next-Step :
    (delivers : Bool) (i : ℕ) (l : WriterLoop) (c : TunnelClient)
    → IsWf c
    → c.writers i ≡ some l
    → (m : Moved) × (write_next delivers i l c ≡ ok m) × Step c m
unfolding write_next write_from
write_next-Step delivers i l c v w = elim (List-cases c.write_chan) [
  | inl empty ↦
      (quiet c, ap (λ (xs : List Str). write_from delivers i l c.ws_conn xs c) empty, idle-Step c v)
  | inr (bytes, rest, e) ↦
      let (k, dialled) = v.writing i l w in
      let a = write_message-Aside delivers i l k bytes (popped rest c) in
      (
        _,
        write_next_lem delivers i l k bytes rest c e dialled,
        record {
          wf =
              write_message-IsWf delivers i l k bytes (popped rest c) (popped-IsWf bytes rest c v e)
                dialled;
          fifo = append-nil c.write_chan ∙ e ∙ ap (◌∷◌ bytes) (sym a.messages);
          grows = ground (arith, a.same_next);
          moves = λ j below. inl (ap (λ f. f j) a.same_handlers);
        },
      )
]

pub stop_on-Step :
    (i : ℕ) (l : WriterLoop) (stop : Option ℕ) (c : TunnelClient)
    → IsWf c
    → Step c (quiet (stop_on i l stop c))
unfolding stop_on writer_end shut_conn
stop_on-Step i l none c v = idle-Step c v
stop_on-Step i l (some ch) c v =
    if-cases (λ (x : TunnelClient). Step c (quiet x)) (c.is_closed ch) (writer_end i l c) c
      (λ closed.
        quiet-Step c (writer_end i l c)
          (record { messages = refl; same_handlers = refl; same_next = refl })
          (writer_end-IsWf i l c v))
      (λ up. idle-Step c v)

-- The client after a handler queued a message.
abbrev grown : ℕ → Str → List Str → TunnelClient → TunnelClient
grown j bytes rest c = record c {
  write_chan = c.write_chan ++ bytes ∷ [];
  handlers = update c.handlers j rest;
}

-- What a handler queues goes behind the other messages.
pub queue_from-Step :
    (j : ℕ) (pending : List Str) (c : TunnelClient)
    → IsWf c
    → c.handlers j ≡ pending
    → Step c (queue_from j pending c)
unfolding queue_from
queue_from-Step j [] c v e = idle-Step c v
queue_from-Step j (bytes ∷ rest) c v e =
    if-cases (Step c) (ltb (length c.write_chan) write_capacity)
      (record { accepted = (j, bytes) ∷ []; taken = []; after = grown j bytes rest c }) (quiet c)
      (λ room. record {
        wf = record {
          reading = v.reading;
          writing = v.writing;
          bounded = ground (arith, room, length-append c.write_chan (bytes ∷ []));
        };
        fifo = refl;
        grows = omega arith;
        moves = λ i below. inl (ground (arith, e, nat_beq_iff j i));
      })
      (λ full. idle-Step c v)

pub on_decoded-Step :
    (target : Target) (msg : Option TunnelMessage) (c : TunnelClient)
    → IsWf c
    → Step c (quiet (on_decoded target msg c))
unfolding on_decoded
on_decoded-Step target none c v = idle-Step c v
on_decoded-Step target (some msg) c v =
    if-cases (λ (x : TunnelClient). Step c (quiet x)) (msg.type == msg_type_http_req) _ c
      (λ asks. record {
        wf = record { reading = v.reading; writing = v.writing; bounded = v.bounded };
        fifo = append-nil c.write_chan;
        grows = omega arith;
        moves = λ i below. inl (ground (arith, below, nat_beq_iff c.next_handler i));
      })
      (λ other. idle-Step c v)

pub on_data-Step :
    (target : Target) (bytes : Str) (c : TunnelClient)
    → IsWf c
    → Step c (quiet (on_data target bytes c))
unfolding on_data
on_data-Step target bytes c v =
    if-cases (λ (x : TunnelClient). Step c (quiet x)) c.is_reading
      (on_decoded target (deserialize_tunnel_message bytes) c) c
      (λ busy. on_decoded-Step target (deserialize_tunnel_message bytes) c v)
      (λ idle. idle-Step c v)

pub abandon-Step : (j : ℕ) (c : TunnelClient) → IsWf c → Step c (quiet (abandon j c))
unfolding abandon
abandon-Step j c v = record {
  wf = record { reading = v.reading; writing = v.writing; bounded = v.bounded };
  fifo = append-nil c.write_chan;
  grows = omega arith;
  moves = λ i below. elim (Bool-cases (j == i)) [
    | inl same ↦ inr (refl, rw (same))
    | inr other ↦ inl (rw (other))
  ];
}
