-- ===== src/Server/Tunnel/Streams.antt =====
-- Streams that share a tunnel: what a request's stream receives is a matter of its own messages.
pub mod Own
mod Tests
use single_proxy.Base.{
  ℕ, Str, List, [], ◌∷◌, Bool, true, false, Option, none, some, lookup, delete, ◌==◌, nat_key,
  nat_beq, nat_beq_iff, if◌then◌else◌, ◌≡◌, ◌≢◌, refl, ap, sym, ◌∙◌, arith, Option-cases,
  Bool-cases, inl, inr, ◌⊎◌, lookup-delete, lookup-delete_self,
}
use single_proxy.Protocol.Message.{
  TunnelMessage, deserialize_tunnel_message, msg_type_http_res, msg_type_http_res_chunk,
}
use single_proxy.Server.Writer.{write, flush}
use single_proxy.Server.State.{
  Server, Outcome, ok, panic, ◌>>=◌, Stream, Response, close_done, update,
}
use single_proxy.Server.Tunnel.{
  on_response, on_chunk, on_message, on_frame, on_frames, write_response_head, end_stream,
}
use single_proxy.Server.Tunnel.Live.{IsLive, Keeps, on_frame-Keeps}

-- The frames that carry a message of the request.
abbrev pub concerns : ℕ → Str → Bool
concerns id wire = elim (deserialize_tunnel_message wire) [ none ↦ false | some msg ↦ id == msg.id ]

unfoldable pub frames_of : ℕ → List Str → List Str
frames_of id [] = []
frames_of id (wire ∷ wires) =
    let rest = frames_of id wires in if concerns id wire then wire ∷ rest else rest

module _ {Limiter : Type 0} where
  -- The request's entry and its stream are the same in two states.
  pub record SameStream (id a : ℕ) (s t : Server Limiter) : Type 0 where
    pub stream : s.streams a ≡ t.streams a
    pub entry : lookup id s.stream_handlers ≡ lookup id t.stream_handlers

  -- No other request uses the stream, and the request no other one.
  pub record Owns (id a : ℕ) (s : Server Limiter) : Type 0 where
    pub only : (j : ℕ) → lookup j s.stream_handlers ≡ some a → id ≡ j
    pub own : (b : ℕ) → lookup id s.stream_handlers ≡ some b → a ≡ b

  abbrev pub Leaves : ℕ → ℕ → Server Limiter → Outcome (Server Limiter) → Type 0
  Leaves id a s (ok s') = SameStream id a s' s × Owns id a s'
  Leaves id a s (panic p) = Unit

  other_end :
      (id a i b : ℕ) (s : Server Limiter)
      → id ≢ i
      → a ≢ b
      → Owns id a s
      → SameStream id a (end_stream i b s) s × Owns id a (end_stream i b s)
  other_end id a i b s ids streams o = (
    record {
      stream = ground (arith, streams, nat_beq_iff b a);
      entry = ground (arith, lookup-delete i id s.stream_handlers, nat_beq_iff i id, ids);
    },
    record {
      only = λ j h. ground (arith, lookup-delete i j s.stream_handlers, o.only j);
      own = λ c h. ground (arith, lookup-delete i id s.stream_handlers, o.own c);
    },
  )

module _ {Limiter : Type 0} (read_response : Str → Option Response) where
  -- A message of another request leaves the stream alone.
  on_response-other :
      (id a i b : ℕ) (payload : Str) (s : Server Limiter)
      → id ≢ i
      → a ≢ b
      → Owns id a s
      → Leaves id a s (on_response read_response i b payload s)
  unfolding on_response close_done
  on_response-other id a i b payload s ids streams o = elim (Option-cases (read_response payload)) [
    | inl bad ↦
        rw (bad, on_response)
          (elim (Bool-cases (s.streams b).done) [
            | inl ended ↦ rw (ended) tt
            | inr pending ↦ rw (pending) (other_end id a i b s ids streams o)
          ])
    | inr (resp, good) ↦
        rw (good, on_response)
          (
            record { stream = ground (arith, streams, nat_beq_iff b a); entry = refl },
            record { only = o.only; own = o.own },
          )
  ]

  on_chunk-other :
      (id a i b : ℕ) (payload : Str) (s : Server Limiter)
      → id ≢ i
      → a ≢ b
      → Owns id a s
      → Leaves id a s (on_chunk read_response i b payload s)
  unfolding on_chunk close_done
  on_chunk-other id a i b [] s ids streams o = elim (Bool-cases (s.streams b).done) [
    | inl ended ↦ rw (ended) tt
    | inr pending ↦ rw (pending) (other_end id a i b s ids streams o)
  ]
  on_chunk-other id a i b (c ∷ payload) s ids streams o = (
    record { stream = ground (arith, streams, nat_beq_iff b a); entry = refl },
    record { only = o.only; own = o.own },
  )

  pub on_message-other :
      (id a : ℕ) (msg : TunnelMessage) (s : Server Limiter)
      → id ≢ msg.id
      → Owns id a s
      → Leaves id a s (on_message read_response msg s)
  unfolding on_message
  on_message-other id a msg s ids o = elim (Option-cases (lookup msg.id s.stream_handlers)) [
    | inl unknown ↦ rw (unknown, on_message) (record { stream = refl; entry = refl }, o)
    | inr (b, e) ↦
        let streams : a ≢ b = λ same. ids (o.only msg.id (e ∙ ap some (sym same))) in
        rw (e, on_message)
          (elim (Bool-cases (msg.type == msg_type_http_res)) [
            | inl res ↦ rw (res) (on_response-other id a msg.id b msg.payload s ids streams o)
            | inr other ↦ elim (Bool-cases (msg.type == msg_type_http_res_chunk)) [
              | inl chunk ↦
                  rw (other, chunk) (on_chunk-other id a msg.id b msg.payload s ids streams o)
              | inr none_of_both ↦
                  rw (other, none_of_both) (record { stream = refl; entry = refl }, o)
            ]
          ])
  ]
