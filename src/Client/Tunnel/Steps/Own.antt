-- ===== src/Client/Tunnel/Steps/Own.antt =====
-- The frames of one request among all that a WebSocket client queues, whatever happens to it.
use mathlib.Core.Path.{subst}
use single_proxy.Base.{
  ℕ, Str, List, [], ◌∷◌, ◌++◌, Option, none, some, All, nat_key, ◌≡◌, refl, sym, ap, ◌∙◌, arith,
  Option-cases, inl, inr, if-cases,
}
use single_proxy.Protocol.Message.{deserialize_tunnel_message}
use single_proxy.Protocol.RoundTrip.{serialize-deserialize}
use single_proxy.Server.State.{Outcome, ok}
use single_proxy.Server.Tunnel.Streams.{frames_of}
use single_proxy.Client.Tunnel.{TunnelClient, WriterLoop}
use single_proxy.Client.Tunnel.Loops.{
  Target, Moved, quiet, on_data, on_decoded, write_next, writer_stops, queue_next, ping, pong,
}
use single_proxy.Client.Tunnel.Steps.{
  Event, dials, reads, loses, writes, stops, queues, drops, pings, pongs, happen, happen_all,
  with_writer,
}
use single_proxy.Client.Tunnel.Steps.Rounds.{IsWf, own, texts}
use single_proxy.Client.Tunnel.Steps.Order.{
  happen-Step, happen_all-next, both, texts-append, own-append, InOrder, both-InOrder,
  quiet-InOrder,
}
use single_proxy.Client.Tunnel.Steps.Sole.{Sole, NotAsked, Shared, IfMoved}
use single_proxy.Client.Tunnel.Steps.Shares.{
  quiet-Shared, idle-Shared, run_round-Shared, read_loop_end-Shared, on_decoded-Shared,
  write_from-Shared, stop_on-Shared, queue_from-Shared, abandon-Shared,
}

on_data-Shared :
    (target : Target) (bytes : Str) (id j : ℕ) (c : TunnelClient)
    → Sole id j c
    → NotAsked id (reads bytes)
    → Shared id j c (quiet (on_data target bytes c))
unfolding on_data on_decoded
on_data-Shared target bytes id j c so (fits, other) =
    if-cases (λ (x : TunnelClient). Shared id j c (quiet x)) c.is_reading
      (on_decoded target (deserialize_tunnel_message bytes) c) c
      (λ busy. elim (Option-cases (deserialize_tunnel_message bytes)) [
        | inl short ↦ rw (short) (idle-Shared id j c so)
        | inr (msg, e) ↦ rw (e) (
            on_decoded-Shared target msg id j c so
              (serialize-deserialize bytes msg fits e).1.id_fits (other msg e))
      ])
      (λ idle. idle-Shared id j c so)

with_writer-Shared :
    (step : WriterLoop → TunnelClient → Outcome Moved) (running : Option WriterLoop) (id j : ℕ)
    (c : TunnelClient)
    → Sole id j c
    → ((l : WriterLoop) → IfMoved (Shared id j c) (step l c))
    → IfMoved (Shared id j c) (with_writer step running c)
unfolding with_writer
with_writer-Shared step none id j c so runs = idle-Shared id j c so
with_writer-Shared step (some l) id j c so runs = runs l

happen-Shared :
    (target : Target) (e : Event) (id j : ℕ) (c : TunnelClient)
    → IsWf c
    → Sole id j c
    → NotAsked id e
    → IfMoved (Shared id j c) (happen target e c)
unfolding happen write_next queue_next writer_stops ping pong
happen-Shared target (dials succeeds) id j c v so quiet_for = run_round-Shared succeeds id j c so
happen-Shared target (reads bytes) id j c v so other = on_data-Shared target bytes id j c so other
happen-Shared target loses id j c v so quiet_for = read_loop_end-Shared id j c v so
happen-Shared target (writes i delivers) id j c v so quiet_for =
    with_writer-Shared (write_next delivers i) (c.writers i) id j c so
      (λ l. write_from-Shared delivers i l c.ws_conn c.write_chan id j c so)
happen-Shared target (stops i) id j c v so quiet_for =
    with_writer-Shared (λ l c'. ok (quiet (writer_stops i l c'))) (c.writers i) id j c so
      (λ l. stop_on-Shared i l l.stop id j c so)
happen-Shared target (queues i) id j c v so quiet_for =
    queue_from-Shared i (c.handlers i) id j c so refl
happen-Shared target (drops i) id j c v so quiet_for = abandon-Shared i id j c so
happen-Shared target (pings now) id j c v so quiet_for =
    quiet-Shared id j c (ping now c) so refl refl
happen-Shared target (pongs now) id j c v so quiet_for =
    quiet-Shared id j c (pong now c) so refl refl

pub frames_of-append :
    (id : ℕ) (a b : List Str) → frames_of id (a ++ b) ≡ frames_of id a ++ frames_of id b
unfolding frames_of
frames_of-append id [] b = refl
frames_of-append id (wire ∷ a) b = ground (arith, frames_of-append id a b)

-- A step of which a request's frames are those of its handler, and steps behind it of which that
-- holds.
both-Shared :
    (id j : ℕ) (c : TunnelClient) (m m' : Moved)
    → Shared id j c m
    → Shared id j m.after m'
    → Shared id j c (both m m')
both-Shared id j c m m' first later = record {
  sole = later.sole;
  share =
      ap (frames_of id) (texts-append m.accepted m'.accepted)
      ∙ frames_of-append id (texts m.accepted) (texts m'.accepted)
      ∙ ap (λ (x : List Str). x ++ frames_of id (texts m'.accepted)) first.share
      ∙ ap (◌++◌ (own j m.accepted)) later.share
      ∙ sym (own-append j m.accepted m'.accepted);
}

-- If one handler has frames of a request and no other one does, and the server does not ask again
-- under the ID of the request, then whatever happens the frames of the request among those queued
-- are what that handler queued.
pub happen_all-Shared :
    (target : Target) (events : List Event) (id j : ℕ) (c : TunnelClient)
    → IsWf c
    → Sole id j c
    → All (NotAsked id) events
    → (m : Moved) × (happen_all target events c ≡ ok m) × InOrder c m × Shared id j c m
unfolding happen_all
happen_all-Shared target [] id j c v so quiet_for =
    (quiet c, refl, quiet-InOrder c v, idle-Shared id j c so)
happen_all-Shared target (e ∷ events) id j c v so (other, quiet_for) =
    let (m, step, st) = happen-Step target e c v in
    let first = subst (IfMoved (Shared id j c)) step (happen-Shared target e id j c v so other) in
    let (m', steps, order, later) =
      happen_all-Shared target events id j m.after st.wf first.sole quiet_for in
    (
      both m m',
      happen_all-next target e events c m m' step steps,
      both-InOrder c m m' st order,
      both-Shared id j c m m' first later,
    )
