-- ===== src/Relay/Mux/Client.antt =====
-- The client's side of a request: the frames that one request's handler gives the connection.
use mathlib.Core.Path.{subst}
use single_proxy.Base.{
  ℕ, ◌+◌, ◌<◌, ◌^◌, Str, List, [], ◌∷◌, ◌++◌, true, All, map, ◌==◌, nat_key, nat_beq_iff, ◌≡◌, refl,
  sym, ap, ◌∙◌, arith, inl, inr, Bool-cases, append_assoc,
}
use single_proxy.Protocol.Message.{IsValid}
use single_proxy.Protocol.Wire.{wire_of, deserialize-wire_of}
use single_proxy.Client.Stream.{request_messages}
use single_proxy.Client.Tunnel.{TunnelClient}
use single_proxy.Client.Tunnel.Loops.{Target, Moved, quiet, answer_to, on_data, on_decoded}
use single_proxy.Client.Tunnel.Steps.{Event, reads, happen, happen_all}
use single_proxy.Client.Tunnel.Steps.Rounds.{own, texts}
use single_proxy.Client.Tunnel.Steps.Order.{InOrder, happen_all-next}
use single_proxy.Client.Tunnel.Steps.Messages.{on_data-Step}
use single_proxy.Client.Tunnel.Steps.Answers.{answer-tested}
use single_proxy.Client.Tunnel.Steps.Sole.{Sole, NoneMine, NotAsked, Shared, IfMoved}
use single_proxy.Client.Tunnel.Steps.Own.{frames_of-append, happen_all-Shared}
use single_proxy.Client.Tunnel.Steps.Delivered.{Holds, IsUp, Delivers, happen_all-Delivers}
use single_proxy.Client.Tunnel.Steps.Rounds
use single_proxy.Server.State.{ok, update}
use single_proxy.Server.Tunnel.Streams.{frames_of}
use single_proxy.Server.Public.Open.{request_message}

-- A client that reads from connection `k` and has nothing to do with a request.
pub record IsUnasked (id k : ℕ) (c : TunnelClient) : Type 0 where
  pub wf : Rounds.IsWf c
  pub connected : IsUp k c
  pub none_queued : NoneMine id c.write_chan
  pub none_handled : (j : ℕ) → NoneMine id (c.handlers j)

-- The client after the request has come, with the goroutine that handles it.
abbrev pub handling : Target → ℕ → Str → TunnelClient → TunnelClient
handling target id payload c = record c {
  handlers =
      update c.handlers c.next_handler
        (map wire_of (request_messages id (answer_to target c payload)));
  next_handler = c.next_handler + 1;
}

pub on_data-handling :
    (target : Target) (id : ℕ) (payload : Str) (c : TunnelClient)
    → c.is_reading ≡ true
    → id < 2 ^ 64
    → on_data target (wire_of (request_message id payload)) c ≡ handling target id payload c
unfolding on_data on_decoded
on_data-handling target id payload c busy fits =
    let v : IsValid (request_message id payload) = record {
      id_fits = fits;
      type_fits = omega arith;
    } in
    simp (busy, deserialize-wire_of (request_message id payload) v)

handling-Sole :
    (target : Target) (id k : ℕ) (payload : Str) (c : TunnelClient)
    → IsUnasked id k c
    → id < 2 ^ 64
    → Sole id c.next_handler (handling target id payload c)
handling-Sole target id k payload c u fits = record {
  begun = omega arith;
  mine =
      rw ((nat_beq_iff c.next_handler c.next_handler).1 refl)
        (answer-tested id true id fits ((nat_beq_iff id id).1 refl) (answer_to target c payload));
  theirs = λ i apart. elim (Bool-cases (c.next_handler == i)) [
    | inl same ↦ absurd (apart (sym ((nat_beq_iff c.next_handler i).0 same)))
    | inr other ↦ rw (other) (u.none_handled i)
  ];
}

pub frames_of-none : (id : ℕ) (wires : List Str) → NoneMine id wires → frames_of id wires ≡ []
unfolding frames_of
frames_of-none id [] h = refl
frames_of-none id (wire ∷ wires) (h, hs) = rw (h) (frames_of-none id wires hs)

-- Of a client that had none of its frames, the writers take the start of what the handler has.
taken-frames_of :
    (id j : ℕ) (c : TunnelClient) (m : Moved)
    → NoneMine id c.write_chan
    → j < c.next_handler
    → InOrder c m
    → Shared id j c m
    → (untaken : List Str) × (frames_of id m.taken ++ untaken ≡ c.handlers j)
taken-frames_of id j c m none_queued below order shared =
    let (rest, e) = order.starts j below in
    let through : frames_of id m.taken ++ frames_of id m.after.write_chan ≡ own j m.accepted =
      sym (frames_of-append id m.taken m.after.write_chan)
      ∙ ap (frames_of id) (sym order.fifo)
      ∙ frames_of-append id c.write_chan (texts m.accepted)
      ∙ ap (λ (x : List Str). x ++ frames_of id (texts m.accepted))
          (frames_of-none id c.write_chan none_queued)
      ∙ shared.share in
    (
      frames_of id m.after.write_chan ++ rest,
      sym (append_assoc (frames_of id m.taken) (frames_of id m.after.write_chan) rest)
          ∙ ap (λ (x : List Str). x ++ rest) through
          ∙ e,
    )

-- The client's side: what writers take goes to the connection, and the frames of the request in it
-- begin those of the answer.
pub asked_frames :
    (target : Target) (id k : ℕ) (payload : Str) (events : List Event) (c : TunnelClient)
    → id < 2 ^ 64
    → IsUnasked id k c
    → All (NotAsked id) events
    → All Holds events
    → (m : Moved) × (happen_all target (reads (wire_of (request_message id payload)) ∷ events) c
        ≡ ok m)
      × ((m.after.conns k).written ≡ (c.conns k).written ++ m.taken)
      × (untaken : List Str) × (frames_of id m.taken ++ untaken
          ≡ map wire_of (request_messages id (answer_to target c payload)))
unfolding happen
asked_frames target id k payload events c fits u others held =
    let c₁ = handling target id payload c in
    let asked = on_data-handling target id payload c u.connected.busy fits in
    let wf : Rounds.IsWf c₁ =
      subst Rounds.IsWf asked
        (on_data-Step target (wire_of (request_message id payload)) c u.wf).wf in
    let (m, e, order, shared) =
      happen_all-Shared target events id c.next_handler c₁ wf
        (handling-Sole target id k payload c u fits) others in
    let up : IsUp k c₁ = record {
      busy = u.connected.busy;
      dialled = u.connected.dialled;
      up = u.connected.up;
    } in
    let d : Delivers k c₁ m =
      subst (IfMoved (Delivers k c₁)) e (happen_all-Delivers target events k c₁ up held) in
    let (untaken, begins) =
      taken-frames_of id c.next_handler c₁ m u.none_queued (omega arith) order shared in
    (
      m,
      happen_all-next target (reads (wire_of (request_message id payload))) events c (quiet c₁) m
          (ap (λ x. ok (quiet x)) asked) e,
      d.gets,
      untaken,
      begins ∙ rw ((nat_beq_iff c.next_handler c.next_handler).1 refl) refl,
    )
