-- ===== src/Server/Polling/Queue.antt =====
-- The queue of a polling client: forwarding to it and polling it.
use single_proxy.Protocol.Wire.{wire_of, deserialize-wire_of}
use single_proxy.Base.{
  ℕ, ◌≤◌, ◌<◌, Str, codes, List, [], ◌∷◌, ◌++◌, true, false, none, some, lookup, nat_key, str_key,
  ◌≡◌, refl, ap, ◌∙◌, arith, leb, length, lookup-delete_self, inl, inr, ◌⊎◌, length-append,
  nat_beq_iff,
}
use single_proxy.Protocol.Message.{TunnelMessage, serialize_tunnel_message}
use single_proxy.Http.Status.{status_service_unavailable}
use single_proxy.Server.Writer.{Writer}
use single_proxy.Server.State.{Server, ok, try_send, capacity, set_tunnel}
use single_proxy.Server.Public.{Progress, waiting, answered, forward_http, give_up, Refusal}
use single_proxy.Server.Polling.{poll_end, channel}
use single_proxy.Server.Polling.Channels.{IsPolled}
use single_proxy.Server.Writer.{write_header, write}
use single_proxy.Server.Writer.Response.{head, write_header_first, write_again}
use single_proxy.Protocol.Message.{IsValid, deserialize_tunnel_message}
use single_proxy.Http.Status.{status_ok}
use single_proxy.Server.State.{receive}
use single_proxy.Base.{append_assoc}

-- The refusal where the channel is full.
abbrev busy : Refusal
busy = record { message = codes "Tunnel client busy"; code = status_service_unavailable }

leb-cases : (m n : ℕ) → (m ≤ n) ⊎ (n < m)
leb-cases m n = ground arith

pub written-head :
    (bytes : Str) (w : Writer)
    → w.alive ≡ true
    → w.header_written ≡ false
    → (write bytes (write_header status_ok w)).1.sent ≡ w.sent ++ (head status_ok w.header ++ bytes)
written-head bytes w up fresh =
    let (written, alive, sent) = write_header_first w fresh up status_ok in
    (write_again bytes (write_header status_ok w) alive written).2
    ∙ (ap (λ x. x ++ bytes) sent ∙ append_assoc w.sent (head status_ok w.header) bytes)

module _ {Limiter : Type 0} where
  -- The send on an open channel that is not full, and on one that is.
  pub forward_http-space :
      (msg : TunnelMessage) (a id h : ℕ) (s : Server Limiter)
      → (s.tunnels a).poll_chan.closed ≡ false
      → length (s.tunnels a).poll_chan.queue < capacity
      → forward_http msg a id h s
        ≡ ok (
          waiting id h,
          set_tunnel a
              (record (s.tunnels a) {
                poll_chan = record (s.tunnels a).poll_chan {
                  queue = (s.tunnels a).poll_chan.queue ++ msg ∷ [];
                };
              })
              s,
        )
  unfolding forward_http try_send
  forward_http-space msg a id h s up room =
      let free : leb capacity (length (s.tunnels a).poll_chan.queue) ≡ false = ground arith in
      rw (up, free) refl

  forward_http-full :
      (msg : TunnelMessage) (a id h : ℕ) (s : Server Limiter)
      → (s.tunnels a).poll_chan.closed ≡ false
      → capacity ≤ length (s.tunnels a).poll_chan.queue
      → forward_http msg a id h s ≡ ok (give_up id h busy s)
  unfolding forward_http try_send
  forward_http-full msg a id h s up full =
      let taken : leb capacity (length (s.tunnels a).poll_chan.queue) ≡ true = ground arith in
      rw (up, taken) refl

  -- Under the same condition, forwarding a message to a registered client does not panic and keeps
  -- it; with fewer than ten messages queued the request waits, and with ten it is answered and
  -- registered no more.
  pub forward_http-IsPolled :
      (msg : TunnelMessage) (key : Str) (a id h : ℕ) (s : Server Limiter)
      → IsPolled s
      → lookup key s.tunnel_clients ≡ some a
      → (p : Progress) × (s' : Server Limiter) × (forward_http msg a id h s ≡ ok (p, s'))
        × IsPolled s'
        × (((length (s.tunnels a).poll_chan.queue < 10) × (p ≡ waiting id h))
            ⊎ ((length (s.tunnels a).poll_chan.queue ≡ 10)
                × ((w : Writer) × (p ≡ answered w))
                × (lookup id s'.stream_handlers ≡ none)))
  forward_http-IsPolled msg key a id h s v e =
      let up = v.is_up key a e in
      elim (leb-cases capacity (length (s.tunnels a).poll_chan.queue)) [
        | inl full ↦ (
          _,
          _,
          forward_http-full msg a id h s up.0 full,
          record { is_up = v.is_up; apart = v.apart; used = v.used },
          inr (ground (arith, up), (_, refl), lookup-delete_self id s.stream_handlers),
        )
        | inr room ↦ (
          _,
          _,
          forward_http-space msg a id h s up.0 room,
          record {
            is_up = λ j b k. grind (
              arith,
              v.is_up j b,
              nat_beq_iff a b,
              up,
              room,
              length-append (s.tunnels a).poll_chan.queue (msg ∷ []),
            );
            apart = v.apart;
            used = v.used;
          },
          inl (room, refl),
        )
      ]

  -- A poll that receives a message.
  pub poll_end-message :
      (first : TunnelMessage) (rest : List TunnelMessage) (a : ℕ) (w : Writer) (s : Server Limiter)
      → (s.tunnels a).poll_chan.queue ≡ first ∷ rest
      → poll_end a channel w s
        ≡ ok (
          (write (wire_of first) (write_header status_ok w)).1,
          set_tunnel a
              (record (s.tunnels a) {
                poll_chan = record { queue = rest; closed = (s.tunnels a).poll_chan.closed };
              })
              s,
        )
  unfolding poll_end receive write serialize_tunnel_message
  poll_end-message first rest a w s e = rw (e) refl

  -- Take a polling client with an open channel that has room, and forward a message to it. Then its
  -- next poll, by a caller whose connection takes bytes and has been sent no header, is answered
  -- with status 200 and the oldest message of the queue, in bytes that decode to it, and the other
  -- messages stay queued in their order, the forwarded one last.
  pub forward_http-poll_end :
      (msg first : TunnelMessage) (rest : List TunnelMessage) (a id h : ℕ) (w : Writer)
      (s : Server Limiter)
      → (s.tunnels a).poll_chan.closed ≡ false
      → length (s.tunnels a).poll_chan.queue < capacity
      → (s.tunnels a).poll_chan.queue ++ msg ∷ [] ≡ first ∷ rest
      → IsValid first
      → w.alive ≡ true
      → w.header_written ≡ false
      → (s₁ s₂ : Server Limiter) × (w' : Writer) × (bytes : Str) × (forward_http msg a id h s
          ≡ ok (waiting id h, s₁))
        × (poll_end a channel w s₁ ≡ ok (w', s₂))
        × (w'.sent ≡ w.sent ++ (head status_ok w.header ++ bytes))
        × (deserialize_tunnel_message bytes ≡ some first)
        × ((s₂.tunnels a).poll_chan.queue ≡ rest)
  forward_http-poll_end msg first rest a id h w s up room queued valid fresh alive = (
    _,
    _,
    _,
    wire_of first,
    forward_http-space msg a id h s up room,
    poll_end-message first rest a w _ (ground (arith, nat_beq_iff a a, queued)),
    written-head (wire_of first) w fresh alive,
    deserialize-wire_of first valid,
    ground (arith, nat_beq_iff a a),
  )
