-- ===== src/Server/Polling/Answer.antt =====
-- A response that a polling client posts: handleHTTPTunnelResponse and handleHTTPTunnelMessage of
-- pkg/server/handlers.go.
use single_proxy.Base.{
  ℕ, Str, codes, [], ◌∷◌, ◌++◌, true, false, Option, some, lookup, nat_key, str_key, nat_beq,
  nat_beq_iff, ◌≡◌, ◌⊎◌, refl, ap, ◌∙◌, sym, arith, append-nil, append_assoc,
}
use single_proxy.Http.Header.{add_all}
use single_proxy.Http.Status.{status_ok}
use single_proxy.Protocol.Message.{msg_type_http_res, deserialize_tunnel_message}
use single_proxy.Server.Writer.{Writer, write, write_header}
use single_proxy.Server.Writer.Response.{head, write_header_first, write_again}
use single_proxy.Server.State.{Server, ok, Response, close_done, set_stream}
use single_proxy.Server.Public.Relay.{IsOpen}
use single_proxy.Server.Polling.{
  write_body, write_response, tunnel_response, tunnel_message, handle_response, touch, json_type,
  received_body, handle_message_body,
}

write_body-sent :
    (bytes : Str) (w : Writer)
    → w.alive ≡ true
    → w.header_written ≡ true
    → (write_body (some bytes) w).sent ≡ w.sent ++ bytes
unfolding write_body
write_body-sent [] w up written = sym (append-nil w.sent)
write_body-sent (b ∷ bytes) w up written = (write_again (b ∷ bytes) w up written).2

write_response-sent :
    (resp : Response) (body : Str) (w : Writer)
    → resp.body ≡ some body
    → w.alive ≡ true
    → w.header_written ≡ false
    → (write_response resp w).sent
      ≡ w.sent ++ (head resp.status_code (add_all resp.header w.header) ++ body)
unfolding write_response
write_response-sent resp body w whole up fresh =
    let w' : Writer = record w { header = add_all resp.header w.header } in
    let (written, up', sent) = write_header_first w' fresh up resp.status_code in
    rw (whole) (
      write_body-sent body (write_header resp.status_code w') up' written
      ∙ (ap (λ t. t ++ body) sent
          ∙ append_assoc w.sent (head resp.status_code (add_all resp.header w.header)) body))

-- The receipt goes out with the header as it was when the status was written.
pub receipt-sent :
    (text : Str) (w : Writer)
    → w.alive ≡ true
    → w.header_written ≡ false
    → (write text (json_type (write_header status_ok w))).1.sent
      ≡ w.sent ++ (head status_ok w.header ++ text)
receipt-sent text w up fresh =
    let (written, up', sent) = write_header_first w fresh up status_ok in
    (write_again text (json_type (write_header status_ok w)) up' written).2
    ∙ (ap (λ t. t ++ text) sent ∙ append_assoc w.sent (head status_ok w.header) text)

module _ {Limiter : Type 0} (read_response : Str → Option Response) where
  -- The stream of a request takes the response and ends; other streams, the polling clients and the
  -- registered requests stay as they were.
  pub record IsAnswered (a : ℕ) (bytes : Str) (s s' : Server Limiter) : Type 0 where
    pub sent : (s'.streams a).writer.sent ≡ bytes
    pub done : (s'.streams a).done ≡ true
    pub clients : s'.tunnel_clients ≡ s.tunnel_clients
    pub handlers : s'.stream_handlers ≡ s.stream_handlers
    pub others : (b : ℕ) → (a ≡ b) ⊎ (s'.streams b ≡ s.streams b)
    pub queues : (k : ℕ) → (s'.tunnels k).poll_chan ≡ (s.tunnels k).poll_chan

  tunnel_message-IsAnswered :
      (id a : ℕ) (text body : Str) (resp : Response) (s : Server Limiter)
      → IsOpen id a s
      → (s.streams a).writer.header_written ≡ false
      → read_response text ≡ some resp
      → resp.body ≡ some body
      → (s' : Server Limiter) × (tunnel_message read_response
            (record { id = id; type = msg_type_http_res; payload = text })
            s
          ≡ ok s')
        × IsAnswered a
            ((s.streams a).writer.sent
              ++ (head resp.status_code (add_all resp.header (s.streams a).writer.header) ++ body))
            s
            s'
  unfolding tunnel_message tunnel_response close_done
  tunnel_message-IsAnswered id a text body resp s o fresh parsed whole =
      let w : Writer = write_response resp (s.streams a).writer in
      let same : nat_beq a a ≡ true = ground (arith, nat_beq_iff a a) in
      (
        set_stream a (record { writer = w; done = true })
            (set_stream a (record (s.streams a) { writer = w }) s),
        rw (o.registered, tunnel_message)
            (rw (parsed, tunnel_response) (rw (same, o.pending) refl)),
        record {
          sent = rw (same) (write_response-sent resp body (s.streams a).writer whole o.up fresh);
          done = ground (arith, nat_beq_iff a a);
          clients = refl;
          handlers = refl;
          others = λ b. ground (arith, nat_beq_iff a b);
          queues = λ k. refl;
        },
      )

  pub handle_response-IsAnswered :
      (now c id a : ℕ) (key wire text body : Str) (resp : Response) (w : Writer)
      (s : Server Limiter)
      → lookup key s.tunnel_clients ≡ some c
      → deserialize_tunnel_message wire
        ≡ some (record { id = id; type = msg_type_http_res; payload = text })
      → IsOpen id a s
      → (s.streams a).writer.header_written ≡ false
      → read_response text ≡ some resp
      → resp.body ≡ some body
      → w.alive ≡ true
      → w.header_written ≡ false
      → (w' : Writer) × (s' : Server Limiter) × (handle_response read_response now
            (codes "POST")
            key
            (some wire)
            w
            s
          ≡ ok (w', s'))
        × (w'.sent ≡ w.sent ++ (head status_ok w.header ++ received_body))
        × IsAnswered a
            ((s.streams a).writer.sent
              ++ (head resp.status_code (add_all resp.header (s.streams a).writer.header) ++ body))
            s
            s'
  unfolding handle_response
  handle_response-IsAnswered now c id a key wire text body resp w s registered e o fresh parsed
        whole up unsent =
      let t : Server Limiter = touch now c s in
      let o' : IsOpen id a t = record {
        registered = o.registered;
        pending = o.pending;
        up = o.up;
      } in
      let (s', took, answered) =
        tunnel_message-IsAnswered id a text body resp t o' fresh parsed whole in
      (
        (write received_body (json_type (write_header status_ok w))).1,
        s',
        rw (registered, handle_response) (rw (e, handle_message_body) (rw (took))),
        receipt-sent received_body w up unsent,
        record {
          sent = answered.sent;
          done = answered.done;
          clients = answered.clients;
          handlers = answered.handlers;
          others = answered.others;
          queues = λ k. answered.queues k ∙ ground (arith, nat_beq_iff c k);
        },
      )
