-- ===== src/Server/Public/Prefix.antt =====
-- The server's side of a response of which only the first messages have come.
use mathlib.Core.Path.{subst}
use single_proxy.Base.{
  ℕ, zero, suc, Str, List, [], ◌∷◌, ◌++◌, true, false, Option, some, take, drop, ◌≡◌, ◌≢◌, ◌⊎◌, inl,
  inr, refl, arith, nat_beq_iff, append_assoc,
}
use single_proxy.Http.Header.{assign_all}
use single_proxy.Protocol.Message.{TunnelMessage}
use single_proxy.Server.Writer.{Writer, write}
use single_proxy.Server.Writer.Response.{head, write_header_first, write_again}
use single_proxy.Server.State.{Server, ok, Stream, Response, set_stream}
use single_proxy.Server.Tunnel.{write_response_head, end_stream}
use single_proxy.Server.Public.Relay.{
  joined, on_messages, IsOpen, on_message-chunk, on_message-end, on_message-head,
}
use single_proxy.Client.Stream.{Answer, body_messages, head_payload, request_messages}

module _ {Limiter : Type 0} where
  -- What the user was sent begins the bytes, and it is all of them, and the stream has ended, exactly
  -- where no message is to come.
  pub record IsPart {ℓ} {A : Type ℓ} (a : ℕ) (bytes : Str) (coming : List A) (s : Server Limiter)
      : Type ℓ where
    pub unsent : Str
    pub whole : (s.streams a).writer.sent ++ unsent ≡ bytes
    pub ends :
        ((coming ≡ []) × (unsent ≡ []) × ((s.streams a).done ≡ true))
        ⊎ ((coming ≢ []) × ((s.streams a).done ≡ false))

  end-IsPart :
      (id a : ℕ) (s : Server Limiter)
      → IsPart {A = TunnelMessage} a ((s.streams a).writer.sent ++ []) [] (end_stream id a s)
  end-IsPart id a s = record {
    unsent = [];
    whole = ground (arith, nat_beq_iff a a);
    ends = inl (refl, refl, ground (arith, nat_beq_iff a a));
  }

body_messages-nonempty : (id : ℕ) (pieces : List Str) → body_messages id pieces ≢ []
unfolding body_messages
body_messages-nonempty id [] = λ e. ground (arith, e)
body_messages-nonempty id ([] ∷ pieces) = body_messages-nonempty id pieces
body_messages-nonempty id ((b ∷ bytes) ∷ pieces) = λ e. ground (arith, e)

module _ {Limiter : Type 0} (read_response : Str → Option Response) where
  -- The first messages of a body.
  body-IsPart :
      (pieces : List Str) (k id a : ℕ) (s : Server Limiter)
      → IsOpen id a s
      → (s.streams a).writer.header_written ≡ true
      → (s' : Server Limiter) × (on_messages read_response (take k (body_messages id pieces)) s
          ≡ ok s')
        × IsPart a
            ((s.streams a).writer.sent ++ joined pieces)
            (drop k (body_messages id pieces))
            s'
  unfolding body_messages
  body-IsPart pieces zero id a s o written = (
    s,
    refl,
    record {
      unsent = joined pieces;
      whole = refl;
      ends = inr (body_messages-nonempty id pieces, o.pending);
    },
  )
  body-IsPart [] (suc zero) id a s o written =
      (end_stream id a s, rw (on_message-end read_response id a s o), end-IsPart id a s)
  body-IsPart [] (suc (suc k)) id a s o written =
      (end_stream id a s, rw (on_message-end read_response id a s o), end-IsPart id a s)
  body-IsPart ([] ∷ pieces) (suc k) id a s o written = body-IsPart pieces (suc k) id a s o written
  body-IsPart ((b ∷ bytes) ∷ pieces) (suc k) id a s o written =
      let w : Writer = (write (b ∷ bytes) (s.streams a).writer).1 in
      let st : Stream = record (s.streams a) { writer = w } in
      let (up, written', sent) = write_again (b ∷ bytes) (s.streams a).writer o.up written in
      let o' : IsOpen id a (set_stream a st s) = record {
        registered = o.registered;
        pending = ground (arith, o.pending, nat_beq_iff a a);
        up = ground (arith, up, nat_beq_iff a a);
      } in
      let (s', e, part) =
        body-IsPart pieces k id a (set_stream a st s) o'
          (ground (arith, written', nat_beq_iff a a)) in
      let whole : ((set_stream a st s).streams a).writer.sent ++ joined pieces
          ≡ (s.streams a).writer.sent ++ ((b ∷ bytes) ++ joined pieces) =
        ground (
          arith,
          sent,
          nat_beq_iff a a,
          append_assoc (s.streams a).writer.sent (b ∷ bytes) (joined pieces),
        ) in
      (
        s',
        rw (on_message-chunk read_response id a b bytes s o) e,
        subst (λ (x : Str). IsPart a x (drop k (body_messages id pieces)) s') whole part,
      )

  -- The first messages of an answer.
  pub answer-IsPart :
      (k id a : ℕ) (r : Answer) (resp : Response) (s : Server Limiter)
      → IsOpen id a s
      → (s.streams a).writer.header_written ≡ false
      → read_response (head_payload r) ≡ some resp
      → (s' : Server Limiter) × (on_messages read_response (take k (request_messages id (some r))) s
          ≡ ok s')
        × IsPart a
            ((s.streams a).writer.sent
              ++ (head resp.status_code (assign_all resp.header (s.streams a).writer.header)
                  ++ joined r.reads))
            (drop k (request_messages id (some r)))
            s'
  unfolding request_messages write_response_head
  answer-IsPart zero id a r resp s o fresh parsed = (
    s,
    refl,
    record { unsent = _; whole = refl; ends = inr ((λ e. ground (arith, e)), o.pending) },
  )
  answer-IsPart (suc k) id a r resp s o fresh parsed =
      let w0 : Writer = record (s.streams a).writer {
        header = assign_all resp.header (s.streams a).writer.header;
      } in
      let st : Stream = record (s.streams a) {
        writer = write_response_head resp (s.streams a).writer;
      } in
      let (written, up, sent) = write_header_first w0 fresh o.up resp.status_code in
      let o' : IsOpen id a (set_stream a st s) = record {
        registered = o.registered;
        pending = ground (arith, o.pending, nat_beq_iff a a);
        up = ground (arith, up, nat_beq_iff a a);
      } in
      let (s', e, part) =
        body-IsPart r.reads k id a (set_stream a st s) o'
          (ground (arith, written, nat_beq_iff a a)) in
      let whole : ((set_stream a st s).streams a).writer.sent ++ joined r.reads
          ≡ (s.streams a).writer.sent ++ (head resp.status_code w0.header ++ joined r.reads) =
        ground (
          arith,
          sent,
          nat_beq_iff a a,
          append_assoc (s.streams a).writer.sent (head resp.status_code w0.header) (joined r.reads),
        ) in
      (
        s',
        rw (on_message-head read_response id a (head_payload r) resp s o parsed) e,
        subst (λ (x : Str). IsPart a x (drop k (body_messages id r.reads)) s') whole part,
      )
