-- ===== src/Server/Public/Relay.antt =====
-- The server's side of a streamed response: what the messages of one response do to its stream.
use mathlib.Core.Path.{subst}
use single_proxy.Base.{
  ℕ, Str, List, [], ◌∷◌, ◌++◌, true, false, Option, none, some, lookup, nat_key, nat_beq_iff, ◌≡◌,
  arith, lookup-delete_self, lookup-delete, ◌⊎◌, append_assoc, append-nil,
}
use single_proxy.Http.Header.{assign_all}
use single_proxy.Protocol.Message.{TunnelMessage, msg_type_http_res}
use single_proxy.Server.Writer.{Writer, write}
use single_proxy.Server.Writer.Response.{head, write_header_first, write_again}
use single_proxy.Server.State.{Server, Outcome, ok, ◌>>=◌, Stream, Response, close_done, set_stream}
use single_proxy.Server.Tunnel.{on_message, on_response, write_response_head, end_stream}
use single_proxy.Client.Stream.{
  Answer, chunk_message, body_messages, head_payload, request_messages,
}

abbrev pub joined : List Str → Str
joined [] = []
joined (bytes ∷ rest) = bytes ++ joined rest

module _ {Limiter : Type 0} where
  -- The stream of a request: registered, open, and its connection takes bytes.
  pub record IsOpen (id a : ℕ) (s : Server Limiter) : Type 0 where
    pub registered : lookup id s.stream_handlers ≡ some a
    pub pending : (s.streams a).done ≡ false
    pub up : (s.streams a).writer.alive ≡ true

  -- The stream carries the bytes and has ended; all other streams and requests are as before.
  pub record IsEnded (id a : ℕ) (bytes : Str) (s s' : Server Limiter) : Type 0 where
    pub sent : (s'.streams a).writer.sent ≡ bytes
    pub done : (s'.streams a).done ≡ true
    pub removed : lookup id s'.stream_handlers ≡ none
    pub others : (b : ℕ) → (a ≡ b) ⊎ (s'.streams b ≡ s.streams b)
    pub requests : (j : ℕ) → (id ≡ j) ⊎ (lookup j s'.stream_handlers ≡ lookup j s.stream_handlers)

  -- A change of the stream's writer before the end is part of what happened to that stream.
  IsEnded-after :
      (id a : ℕ) (bytes : Str) (st : Stream) (s s' : Server Limiter)
      → IsEnded id a bytes (set_stream a st s) s'
      → IsEnded id a bytes s s'
  IsEnded-after id a bytes st s s' e = record {
    sent = e.sent;
    done = e.done;
    removed = e.removed;
    others = λ b. ground (arith, e.others b, nat_beq_iff a b);
    requests = e.requests;
  }

module _ {Limiter : Type 0} (read_response : Str → Option Response) where
  abbrev pub on_messages : List TunnelMessage → Server Limiter → Outcome (Server Limiter)
  on_messages [] s = ok s
  on_messages (m ∷ ms) s = on_message read_response m s >>= on_messages ms

  pub on_message-chunk :
      (id a b : ℕ) (bytes : Str) (s : Server Limiter)
      → IsOpen id a s
      → on_message read_response (chunk_message id (b ∷ bytes)) s
        ≡ ok (
            set_stream a
              (record (s.streams a) { writer = (write (b ∷ bytes) (s.streams a).writer).1 })
              s)
  unfolding on_message
  on_message-chunk id a b bytes s o = rw (o.registered, on_message)

  pub on_message-end :
      (id a : ℕ) (s : Server Limiter)
      → IsOpen id a s
      → on_message read_response (chunk_message id []) s ≡ ok (end_stream id a s)
  unfolding on_message close_done
  on_message-end id a s o = rw (o.registered, on_message) (rw o.pending)

  pub on_message-head :
      (id a : ℕ) (payload : Str) (resp : Response) (s : Server Limiter)
      → IsOpen id a s
      → read_response payload ≡ some resp
      → on_message read_response (record { id = id; type = msg_type_http_res; payload = payload }) s
        ≡ ok (
            set_stream a
              (record (s.streams a) { writer = write_response_head resp (s.streams a).writer })
              s)
  unfolding on_message
  on_message-head id a payload resp s o e = rw (o.registered, on_message) (rw (e, on_response))

  relay-body :
      (reads : List Str) (id a : ℕ) (s : Server Limiter)
      → IsOpen id a s
      → (s.streams a).writer.header_written ≡ true
      → (s' : Server Limiter) × (on_messages (body_messages id reads) s ≡ ok s')
        × IsEnded id a ((s.streams a).writer.sent ++ joined reads) s s'
  unfolding body_messages
  relay-body [] id a s o written = (
    end_stream id a s,
    rw (on_message-end id a s o),
    record {
      sent = ground (arith, append-nil (s.streams a).writer.sent, nat_beq_iff a a);
      done = ground (arith, nat_beq_iff a a);
      removed = lookup-delete_self id s.stream_handlers;
      others = λ b. ground (arith, nat_beq_iff a b);
      requests = λ j. ground (arith, nat_beq_iff id j, lookup-delete id j s.stream_handlers);
    },
  )
  relay-body ([] ∷ reads) id a s o written = relay-body reads id a s o written
  relay-body ((b ∷ bytes) ∷ reads) id a s o written =
      let w : Writer = (write (b ∷ bytes) (s.streams a).writer).1 in
      let st : Stream = record (s.streams a) { writer = w } in
      let (up, written', sent) = write_again (b ∷ bytes) (s.streams a).writer o.up written in
      let o' : IsOpen id a (set_stream a st s) = record {
        registered = o.registered;
        pending = ground (arith, o.pending, nat_beq_iff a a);
        up = ground (arith, up, nat_beq_iff a a);
      } in
      let (s', e, ended) =
        relay-body reads id a (set_stream a st s) o' (ground (arith, written', nat_beq_iff a a)) in
      let whole : ((set_stream a st s).streams a).writer.sent ++ joined reads
          ≡ (s.streams a).writer.sent ++ ((b ∷ bytes) ++ joined reads) =
        ground (
          arith,
          sent,
          nat_beq_iff a a,
          append_assoc (s.streams a).writer.sent (b ∷ bytes) (joined reads),
        ) in
      (
        s',
        rw (on_message-chunk id a b bytes s o) e,
        subst (λ (x : Str). IsEnded id a x s s') whole (IsEnded-after id a _ st s s' ended),
      )

  -- The header message on a stream that has sent nothing yet, and the body behind it.
  pub relay-messages :
      (id a : ℕ) (r : Answer) (resp : Response) (s : Server Limiter)
      → IsOpen id a s
      → (s.streams a).writer.header_written ≡ false
      → read_response (head_payload r) ≡ some resp
      → (s' : Server Limiter) × (on_messages (request_messages id (some r)) s ≡ ok s')
        × IsEnded id a
            ((s.streams a).writer.sent
              ++ (head resp.status_code (assign_all resp.header (s.streams a).writer.header)
                  ++ joined r.reads))
            s
            s'
  unfolding request_messages write_response_head
  relay-messages id a r resp s o fresh parsed =
      let w0 : Writer = record (s.streams a).writer {
        header = assign_all resp.header (s.streams a).writer.header;
      } in
      let st : Stream = record (s.streams a) {
        writer = write_response_head resp (s.streams a).writer;
      } in
      let (written, up, sent) = write_header_first w0 fresh o.up resp.status_code in
      let o' : IsOpen id a (set_stream a st s) = record {
        registered = o.registered;
        pending = ground (arith, o.pending, nat_beq_iff a a);
        up = ground (arith, up, nat_beq_iff a a);
      } in
      let (s', e, ended) =
        relay-body r.reads id a (set_stream a st s) o' (ground (arith, written, nat_beq_iff a a)) in
      let whole : ((set_stream a st s).streams a).writer.sent ++ joined r.reads
          ≡ (s.streams a).writer.sent ++ (head resp.status_code w0.header ++ joined r.reads) =
        ground (
          arith,
          sent,
          nat_beq_iff a a,
          append_assoc (s.streams a).writer.sent (head resp.status_code w0.header) (joined r.reads),
        ) in
      (
        s',
        rw (on_message-head id a (head_payload r) resp s o parsed) e,
        subst (λ (x : Str). IsEnded id a x s s') whole (IsEnded-after id a _ st s s' ended),
      )
