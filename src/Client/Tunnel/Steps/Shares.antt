-- ===== src/Client/Tunnel/Steps/Shares.antt =====
-- The frames of one request among all that a WebSocket client queues.
use mathlib.Core.Path.{subst}
use single_proxy.Base.{
  ℕ, ◌<◌, ◌^◌, Str, List, [], ◌∷◌, Bool, true, false, Option, none, some, length, ltb, ◌==◌,
  nat_key, nat_beq_iff, ◌≡◌, ◌≢◌, inl, inr, refl, sym, ap, ◌∙◌, arith, Bool-cases, if-cases,
}
use single_proxy.Protocol.Message.{TunnelMessage, msg_type_http_req}
use single_proxy.Server.State.{ok}
use single_proxy.Server.Tunnel.Streams.{frames_of}
use single_proxy.Client.Tunnel.{
  TunnelClient, WriterLoop, run_round, connect, ensure_close_chan, make_close_chan, connected,
  count_attempt, write_capacity, shut_conn,
}
use single_proxy.Client.Tunnel.Loops.{
  Target, quiet, answer_to, on_decoded, read_loop_end, write_from, writer_end, stop_on, queue_from,
  abandon,
}
use single_proxy.Client.Tunnel.Steps.{moved_to}
use single_proxy.Client.Tunnel.Steps.Rounds.{IsWf, shut_old_lem, lost, read_loop_end_lem}
use single_proxy.Client.Tunnel.Steps.Sole.{AllMine, NoneMine, Sole, Shared, IfMoved, update-Sole}
use single_proxy.Client.Tunnel.Steps.Answers.{answer-tested}
use single_proxy.Client.Tunnel.Steps.Messages.{write_message-Aside, popped}

-- Steps that leave the handlers alone.
pub quiet-Shared :
    (id j : ℕ) (c c' : TunnelClient)
    → Sole id j c
    → c'.handlers ≡ c.handlers
    → c'.next_handler ≡ c.next_handler
    → Shared id j c (quiet c')
unfolding frames_of
quiet-Shared id j c c' so same next = record {
  sole = record {
    begun = ground (arith, so.begun, next);
    mine = subst (λ (f : ℕ → List Str). AllMine id (f j)) (sym same) so.mine;
    theirs =
        λ i apart. subst (λ (f : ℕ → List Str). NoneMine id (f i)) (sym same) (so.theirs i apart);
  };
  share = refl;
}

pub idle-Shared : (id j : ℕ) (c : TunnelClient) → Sole id j c → Shared id j c (quiet c)
idle-Shared id j c so = quiet-Shared id j c c so refl refl

-- A round that dials.
dial-Shared :
    (succeeds : Bool) (id j : ℕ) (c : TunnelClient)
    → Sole id j c
    → Shared id j c (quiet (count_attempt (connect succeeds (make_close_chan c))))
unfolding connect ensure_close_chan make_close_chan connected count_attempt
dial-Shared true id j c so =
    let (f, e) = shut_old_lem (make_close_chan c) in rw (e) (quiet-Shared id j c _ so refl refl)
dial-Shared false id j c so =
    let (f, e) = shut_old_lem (make_close_chan c) in rw (e) (quiet-Shared id j c _ so refl refl)

pub run_round-Shared :
    (succeeds : Bool) (id j : ℕ) (c : TunnelClient)
    → Sole id j c
    → Shared id j c (quiet (run_round succeeds c))
unfolding run_round
run_round-Shared succeeds id j c so =
    if-cases (λ (x : TunnelClient). Shared id j c (quiet x)) c.is_reading c _
      (λ busy. idle-Shared id j c so) (λ idle. dial-Shared succeeds id j c so)

read_loop_end-idle : (c : TunnelClient) → c.is_reading ≡ false → read_loop_end c ≡ ok c
unfolding read_loop_end
read_loop_end-idle c idle = simp (idle)

pub read_loop_end-Shared :
    (id j : ℕ) (c : TunnelClient)
    → IsWf c
    → Sole id j c
    → IfMoved (Shared id j c) (moved_to (read_loop_end c))
unfolding read_loop_end moved_to
read_loop_end-Shared id j c v so = elim (Bool-cases c.is_reading) [
  | inr idle ↦
      subst (IfMoved (Shared id j c)) (sym (ap moved_to (read_loop_end-idle c idle)))
        (idle-Shared id j c so)
  | inl busy ↦
      let (ch, e, up) = v.reading busy in
      subst (IfMoved (Shared id j c)) (sym (ap moved_to (read_loop_end_lem ch c busy e up)))
        (quiet-Shared id j c (lost ch c) so refl refl)
]

-- A request of another ID, whose handler is a new one.
pub on_decoded-Shared :
    (target : Target) (msg : TunnelMessage) (id j : ℕ) (c : TunnelClient)
    → Sole id j c
    → msg.id < 2 ^ 64
    → msg.id ≢ id
    → Shared id j c (quiet (on_decoded target (some msg) c))
unfolding on_decoded frames_of
on_decoded-Shared target msg id j c so fits other =
    if-cases (λ (x : TunnelClient). Shared id j c (quiet x)) (msg.type == msg_type_http_req) _ c
      (λ asks. record {
        sole =
            update-Sole c.next_handler _ id j c _ so refl (omega arith)
              (λ same. ground (arith, so.begun, same))
              (λ apart.
                answer-tested msg.id false id fits (ground (arith, nat_beq_iff id msg.id, other))
                  (answer_to target c msg.payload));
        share = refl;
      })
      (λ none_asked. idle-Shared id j c so)

pub write_from-Shared :
    (delivers : Bool) (i : ℕ) (l : WriterLoop) (conn : Option ℕ) (queued : List Str) (id j : ℕ)
    (c : TunnelClient)
    → Sole id j c
    → IfMoved (Shared id j c) (write_from delivers i l conn queued c)
unfolding write_from frames_of
write_from-Shared delivers i l conn [] id j c so = idle-Shared id j c so
write_from-Shared delivers i l none (bytes ∷ rest) id j c so = tt
write_from-Shared delivers i l (some k) (bytes ∷ rest) id j c so =
    let a = write_message-Aside delivers i l k bytes (popped rest c) in
    record { sole = (quiet-Shared id j c _ so a.same_handlers a.same_next).sole; share = refl }

pub stop_on-Shared :
    (i : ℕ) (l : WriterLoop) (stop : Option ℕ) (id j : ℕ) (c : TunnelClient)
    → Sole id j c
    → Shared id j c (quiet (stop_on i l stop c))
unfolding stop_on writer_end shut_conn
stop_on-Shared i l none id j c so = idle-Shared id j c so
stop_on-Shared i l (some ch) id j c so =
    if-cases (λ (x : TunnelClient). Shared id j c (quiet x)) (c.is_closed ch) (writer_end i l c) c
      (λ closed. quiet-Shared id j c _ so refl refl) (λ up. idle-Shared id j c so)

pub queue_from-Shared :
    (i : ℕ) (pending : List Str) (id j : ℕ) (c : TunnelClient)
    → Sole id j c
    → c.handlers i ≡ pending
    → Shared id j c (queue_from i pending c)
unfolding queue_from frames_of
queue_from-Shared i [] id j c so e = idle-Shared id j c so
queue_from-Shared i (bytes ∷ rest) id j c so e =
    if-cases (Shared id j c) (ltb (length c.write_chan) write_capacity) _ (quiet c)
      (λ room. elim (Bool-cases (i == j)) [
        | inl same ↦
            let left =
              subst (AllMine id) (ap c.handlers (sym ((nat_beq_iff i j).0 same)) ∙ e) so.mine in
            record {
              sole =
                  update-Sole i rest id j c _ so refl (omega arith) (λ x. left.1)
                    (λ apart. ground (arith, apart ((nat_beq_iff i j).0 same)));
              share = rw (same, left.0);
            }
        | inr apart ↦
            let apart' : i ≢ j = λ x. ground (arith, apart, (nat_beq_iff i j).1 x) in
            let left = subst (NoneMine id) e (so.theirs i apart') in
            record {
              sole =
                  update-Sole i rest id j c _ so refl (omega arith) (λ x. ground (arith, apart' x))
                    (λ x. left.1);
              share = rw (apart, left.0);
            }
      ])
      (λ full. idle-Shared id j c so)

pub abandon-Shared :
    (i id j : ℕ) (c : TunnelClient) → Sole id j c → Shared id j c (quiet (abandon i c))
unfolding abandon frames_of
abandon-Shared i id j c so = record {
  sole = update-Sole i [] id j c _ so refl (omega arith) (λ same. tt) (λ apart. tt);
  share = refl;
}
