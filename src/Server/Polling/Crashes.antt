-- ===== src/Server/Polling/Crashes.antt =====
-- Where the polling tunnel panics: a poll and a forward across a registration, and a response that
-- is sent twice.
use single_proxy.Base.{
  ℕ, Str, [], true, false, Option, some, lookup, nat_key, str_key, ◌≡◌, refl, ◌∙◌, arith,
  nat_beq_iff, nat_beq, inl, inr, Option-cases,
}
use single_proxy.Protocol.Message.{TunnelMessage, msg_type_http_res}
use single_proxy.Server.Writer.{Writer}
use single_proxy.Server.State.{
  Server, ok, panic, nil_dereference, send_on_closed_channel, close_of_closed_channel, try_send,
  receive, Response, close_done, set_stream,
}
use single_proxy.Server.Public.{forward_http}
use single_proxy.Server.Polling.{
  register_client, poll_end, channel, tunnel_message, tunnel_response, write_response,
}
use single_proxy.Server.Polling.Channels.{IsPolled, close_channels_lem, shut, added}

module _ {Limiter : Type 0} where
  -- If a client is registered for a key and registers again, then a poll for the older registration
  -- that still waits on an empty queue panics, and so does forwarding a message to it.
  pub register_client-panics_old :
      (now : ℕ) (key remote_addr : Str) (old : ℕ) (msg : TunnelMessage) (id h : ℕ) (w : Writer)
      (s : Server Limiter)
      → IsPolled s
      → lookup key s.tunnel_clients ≡ some old
      → (s.tunnels old).poll_chan.queue ≡ []
      → (s' : Server Limiter) × (register_client now key remote_addr s ≡ ok s')
        × (poll_end old channel w s' ≡ panic nil_dereference)
        × (forward_http msg old id h s' ≡ panic send_on_closed_channel)
  unfolding register_client poll_end receive forward_http try_send
  register_client-panics_old now key remote_addr old msg id h w s v e empty =
      let other : nat_beq s.next_tunnel old ≡ false =
        ground (arith, v.used key old e, nat_beq_iff s.next_tunnel old) in
      let same : nat_beq old old ≡ true = ground (arith, nat_beq_iff old old) in
      (
        added now key remote_addr (shut old s),
        rw (e, register_client) (rw (close_channels_lem old s (v.is_up key old e)) refl),
        rw (other, same, empty) refl,
        rw (other, same) refl,
      )

module _ {Limiter : Type 0} where
  close_done-ends :
      (id a : ℕ) (s : Server Limiter)
      → (s.streams a).done ≡ false
      → (s' : Server Limiter) × (close_done a s ≡ ok s')
        × (lookup id s'.stream_handlers ≡ lookup id s.stream_handlers)
        × ((s'.streams a).done ≡ true)
  unfolding close_done
  close_done-ends id a s pending = (
    set_stream a (record (s.streams a) { done = true }) s,
    rw (pending) refl,
    refl,
    ground (arith, nat_beq_iff a a),
  )

module _ {Limiter : Type 0} (read_response : Str → Option Response) where
  tunnel_response-ends :
      (id a : ℕ) (payload : Str) (s : Server Limiter)
      → (s.streams a).done ≡ false
      → (s' : Server Limiter) × (tunnel_response read_response a payload s ≡ ok s')
        × (lookup id s'.stream_handlers ≡ lookup id s.stream_handlers)
        × ((s'.streams a).done ≡ true)
  unfolding tunnel_response
  tunnel_response-ends id a payload s pending = elim (Option-cases (read_response payload)) [
    | inl bad ↦ rw (bad, tunnel_response) (close_done-ends id a s pending)
    | inr (resp, good) ↦
        rw (good, tunnel_response)
          (close_done-ends id a
            (set_stream a
              (record (s.streams a) { writer = write_response resp (s.streams a).writer }) s)
            (ground (arith, pending, nat_beq_iff a a)))
  ]

  tunnel_response-panics :
      (a : ℕ) (payload : Str) (s : Server Limiter)
      → (s.streams a).done ≡ true
      → tunnel_response read_response a payload s ≡ panic close_of_closed_channel
  unfolding tunnel_response close_done
  tunnel_response-panics a payload s ended =
      let same : nat_beq a a ≡ true = ground (arith, nat_beq_iff a a) in
      elim (Option-cases (read_response payload)) [
        | inl bad ↦ rw (bad, tunnel_response) (rw (ended) refl)
        | inr (resp, good) ↦ rw (good, tunnel_response) (rw (same, ended) refl)
      ]

  -- If a request waits on an open stream, the first response of a polling client for it is taken
  -- without a panic, but its handler stays registered, and a second response for it panics, where
  -- both messages hold whatever payload.
  pub tunnel_message-panics_twice :
      (id a : ℕ) (one two : Str) (s : Server Limiter)
      → lookup id s.stream_handlers ≡ some a
      → (s.streams a).done ≡ false
      → (s' : Server Limiter) × (tunnel_message read_response
            (record { id = id; type = msg_type_http_res; payload = one })
            s
          ≡ ok s')
        × (lookup id s'.stream_handlers ≡ some a)
        × ((s'.streams a).done ≡ true)
        × (tunnel_message read_response
              (record { id = id; type = msg_type_http_res; payload = two })
              s'
            ≡ panic close_of_closed_channel)
  unfolding tunnel_message tunnel_response close_done
  tunnel_message-panics_twice id a one two s e pending =
      let (s', first, kept, ended) = tunnel_response-ends id a one s pending in
      (s', rw (e) first, kept ∙ e, ended, rw (kept ∙ e) (tunnel_response-panics a two s' ended))
