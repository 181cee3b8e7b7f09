-- ===== src/Client/Tunnel/Steps/Sole.antt =====
-- A request of which one handler of a WebSocket client has the frames.
use mathlib.Core.Path.{subst}
use single_proxy.Base.{
  ℕ, ◌≤◌, ◌<◌, Str, List, true, false, some, All, ◌==◌, nat_key, nat_beq_iff, ◌≡◌, ◌≢◌, inl, inr,
  sym, ◌∙◌, arith, Bool-cases,
}
use single_proxy.Protocol.Message.{TunnelMessage, AllBytes, deserialize_tunnel_message}
use single_proxy.Server.State.{Outcome, ok, panic, update}
use single_proxy.Server.Tunnel.Streams.{concerns, frames_of}
use single_proxy.Client.Tunnel.{TunnelClient}
use single_proxy.Client.Tunnel.Loops.{Moved}
use single_proxy.Client.Tunnel.Steps.{
  Event, dials, reads, loses, writes, stops, queues, drops, pings, pongs,
}
use single_proxy.Client.Tunnel.Steps.Rounds.{own, texts}

abbrev pub AllMine : ℕ → List Str → Type 0
AllMine id wires = All (λ (wire : Str). concerns id wire ≡ true) wires

abbrev pub NoneMine : ℕ → List Str → Type 0
NoneMine id wires = All (λ (wire : Str). concerns id wire ≡ false) wires

-- A handler has the frames of a request, and no other one does.
pub record Sole (id j : ℕ) (c : TunnelClient) : Type 0 where
  pub begun : j < c.next_handler
  pub mine : AllMine id (c.handlers j)
  pub theirs : (i : ℕ) → i ≢ j → NoneMine id (c.handlers i)

-- The server does not ask twice under the ID of the request.
abbrev pub NotAsked : ℕ → Event → Type 0
NotAsked id (dials succeeds) = Unit
NotAsked id (reads bytes) =
    AllBytes bytes
    × ((msg : TunnelMessage) → deserialize_tunnel_message bytes ≡ some msg → msg.id ≢ id)
NotAsked id loses = Unit
NotAsked id (writes i delivers) = Unit
NotAsked id (stops i) = Unit
NotAsked id (queues j) = Unit
NotAsked id (drops j) = Unit
NotAsked id (pings now) = Unit
NotAsked id (pongs now) = Unit

-- The frames of the request that a step queues are those of its handler.
pub record Shared (id j : ℕ) (c : TunnelClient) (m : Moved) : Type 0 where
  pub sole : Sole id j m.after
  pub share : frames_of id (texts m.accepted) ≡ own j m.accepted

-- The same of a step that may panic.
abbrev pub IfMoved : (Moved → Type 0) → Outcome Moved → Type 0
IfMoved P (ok m) = P m
IfMoved P (panic p) = Unit

-- Steps that give one handler other frames.
pub update-Sole :
    (i : ℕ) (wires : List Str) (id j : ℕ) (c c' : TunnelClient)
    → Sole id j c
    → c'.handlers ≡ update c.handlers i wires
    → c.next_handler ≤ c'.next_handler
    → (i ≡ j → AllMine id wires)
    → (i ≢ j → NoneMine id wires)
    → Sole id j c'
update-Sole i wires id j c c' so changed grows same other = record {
  begun = ground (arith, so.begun, grows);
  mine =
      subst (λ (f : ℕ → List Str). AllMine id (f j)) (sym changed)
        (elim (Bool-cases (i == j)) [
          | inl e ↦ rw (e) (same ((nat_beq_iff i j).0 e))
          | inr e ↦ rw (e) so.mine
        ]);
  theirs = λ k apart.
      subst (λ (f : ℕ → List Str). NoneMine id (f k)) (sym changed)
        (elim (Bool-cases (i == k)) [
          | inl e ↦ rw (e) (other (λ x. apart (sym ((nat_beq_iff i k).0 e) ∙ x)))
          | inr e ↦ rw (e) (so.theirs k apart)
        ]);
}
