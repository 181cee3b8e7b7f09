-- ===== src/Server/Tunnel/Streams/Own.antt =====
-- The messages of a request itself, and all frames of a tunnel together.
use std.Path.{subst}
use single_proxy.Base.{
  ℕ, Str, List, [], ◌∷◌, Bool, true, false, Option, some, lookup, ◌==◌, nat_key, nat_beq_iff, ◌≡◌,
  ◌≢◌, refl, ap, sym, ◌∙◌, arith, Option-cases, Bool-cases, inl, inr, lookup-delete,
  lookup-delete_self,
}
use single_proxy.Protocol.Message.{
  deserialize_tunnel_message, msg_type_http_res, msg_type_http_res_chunk,
}
use single_proxy.Server.State.{Server, Outcome, ok, Response, close_done}
use single_proxy.Server.Tunnel.{on_response, on_chunk, on_message, on_frame, on_frames, end_stream}
use single_proxy.Server.Tunnel.Live.{IsLive, on_frame-Keeps}
use single_proxy.Server.Tunnel.Streams.{
  concerns, frames_of, SameStream, Owns, Leaves, on_message-other,
}

module _ {Limiter : Type 0} where
  -- Where both outcomes are states, they agree on the stream.
  abbrev Agree : ℕ → ℕ → Outcome (Server Limiter) → Outcome (Server Limiter) → Type 0
  Agree id a (ok s) (ok t) = SameStream id a s t × Owns id a s × Owns id a t
  Agree id a q r = Unit

  own_end :
      (id a : ℕ) (s t : Server Limiter)
      → SameStream id a s t
      → Owns id a s
      → Owns id a t
      → SameStream id a (end_stream id a s) (end_stream id a t)
        × Owns id a (end_stream id a s)
        × Owns id a (end_stream id a t)
  own_end id a s t same o o' = (
    record {
      stream = ground (arith, same.stream, nat_beq_iff a a);
      entry =
          lookup-delete_self id s.stream_handlers ∙ sym (lookup-delete_self id t.stream_handlers);
    },
    record {
      only = λ j h. ground (arith, lookup-delete id j s.stream_handlers, o.only j);
      own = λ b h. ground (arith, lookup-delete id id s.stream_handlers, o.own b);
    },
    record {
      only = λ j h. ground (arith, lookup-delete id j t.stream_handlers, o'.only j);
      own = λ b h. ground (arith, lookup-delete id id t.stream_handlers, o'.own b);
    },
  )

module _ {Limiter : Type 0} (read_response : Str → Option Response) (id a : ℕ)
    (s t : Server Limiter) (same : SameStream id a s t) (o : Owns id a s) (o' : Owns id a t) where
  own_done : (d : Bool) → (s.streams a).done ≡ d → (t.streams a).done ≡ d
  own_done d e = ap (λ st. st.done) (sym same.stream) ∙ e

  on_response-own :
      (payload : Str)
      → Agree id a
          (on_response read_response id a payload s)
          (on_response read_response id a payload t)
  unfolding on_response close_done
  on_response-own payload = elim (Option-cases (read_response payload)) [
    | inl bad ↦
        rw (bad, on_response)
          (elim (Bool-cases (s.streams a).done) [
            | inl ended ↦ rw (ended) tt
            | inr pending ↦ rw (pending, own_done false pending) (own_end id a s t same o o')
          ])
    | inr (resp, good) ↦
        rw (good, on_response)
          (
            record { stream = ground (arith, same.stream, nat_beq_iff a a); entry = same.entry },
            record { only = o.only; own = o.own },
            record { only = o'.only; own = o'.own },
          )
  ]

  on_chunk-own :
      (payload : Str)
      → Agree id a (on_chunk read_response id a payload s) (on_chunk read_response id a payload t)
  unfolding on_chunk close_done
  on_chunk-own [] = elim (Bool-cases (s.streams a).done) [
    | inl ended ↦ rw (ended) tt
    | inr pending ↦ rw (pending, own_done false pending) (own_end id a s t same o o')
  ]
  on_chunk-own (c ∷ payload) = (
    record { stream = ground (arith, same.stream, nat_beq_iff a a); entry = same.entry },
    record { only = o.only; own = o.own },
    record { only = o'.only; own = o'.own },
  )

  on_message-own :
      (type : ℕ) (payload : Str)
      → Agree id a
          (on_message read_response (record { id = id; type = type; payload = payload }) s)
          (on_message read_response (record { id = id; type = type; payload = payload }) t)
  unfolding on_message
  on_message-own type payload = elim (Option-cases (lookup id s.stream_handlers)) [
    | inl unknown ↦ rw (unknown, sym same.entry ∙ unknown, on_message) (same, o, o')
    | inr (b, h) ↦
        let here : lookup id s.stream_handlers ≡ some a = h ∙ ap some (sym (o.own b h)) in
        rw (here, sym same.entry ∙ here, on_message)
          (elim (Bool-cases (type == msg_type_http_res)) [
            | inl res ↦ rw (res) (on_response-own payload)
            | inr other ↦ elim (Bool-cases (type == msg_type_http_res_chunk)) [
              | inl chunk ↦ rw (other, chunk) (on_chunk-own payload)
              | inr none_of_both ↦ rw (other, none_of_both) (same, o, o')
            ]
          ])
  ]

module _ {Limiter : Type 0} (read_response : Str → Option Response) (id a : ℕ) where
  -- One frame of the request, read in both states.
  on_frame-own :
      (wire : Str) (s t : Server Limiter)
      → concerns id wire ≡ true
      → SameStream id a s t
      → Owns id a s
      → Owns id a t
      → Agree id a (on_frame read_response wire s) (on_frame read_response wire t)
  unfolding on_frame
  on_frame-own wire s t hit same o o' = elim (Option-cases (deserialize_tunnel_message wire)) [
    | inl short ↦ rw (short, on_frame) (same, o, o')
    | inr (msg, e) ↦
        let mine : id ≡ msg.id = ground (arith, hit, e, nat_beq_iff id msg.id) in
        rw (e, on_frame)
          (subst
            (λ j.
              Agree id a
                (on_message read_response
                  (record { id = j; type = msg.type; payload = msg.payload }) s)
                (on_message read_response
                  (record { id = j; type = msg.type; payload = msg.payload }) t))
            mine (on_message-own read_response id a s t same o o' msg.type msg.payload))
  ]

  -- One frame of another request, read in one of them.
  on_frame-other :
      (wire : Str) (s : Server Limiter)
      → concerns id wire ≡ false
      → Owns id a s
      → Leaves id a s (on_frame read_response wire s)
  unfolding on_frame
  on_frame-other wire s miss o = elim (Option-cases (deserialize_tunnel_message wire)) [
    | inl short ↦ rw (short, on_frame) (record { stream = refl; entry = refl }, o)
    | inr (msg, e) ↦
        let theirs : id ≢ msg.id = ground (arith, miss, e, nat_beq_iff id msg.id) in
        rw (e, on_frame) (on_message-other read_response id a msg s theirs o)
  ]

  frames-own :
      (wires : List Str) (s t : Server Limiter)
      → SameStream id a s t
      → Owns id a s
      → Owns id a t
      → IsLive s
      → IsLive t
      → (s' t' : Server Limiter) × (on_frames read_response wires s ≡ ok s')
        × (on_frames read_response (frames_of id wires) t ≡ ok t')
        × SameStream id a s' t'
  unfolding on_frames frames_of
  frames-own [] s t same o o' v v' = (s, t, refl, refl, same)
  frames-own (wire ∷ wires) s t same o o' v v' =
      let (s₁, e, v₁) = on_frame-Keeps read_response wire s v in
      elim (Bool-cases (concerns id wire)) [
        | inr miss ↦
            let (left, o₁) = subst (Leaves id a s) e (on_frame-other wire s miss o) in
            let between : SameStream id a s₁ t = record {
              stream = left.stream ∙ same.stream;
              entry = left.entry ∙ same.entry;
            } in
            let (s', t', f, g, end) = frames-own wires s₁ t between o₁ o' v₁ v' in
            (s', t', rw (e) f, rw (miss) g, end)
        | inl hit ↦
            let (t₁, e', v₁') = on_frame-Keeps read_response wire t v' in
            let agree : Agree id a (ok s₁) (ok t₁) =
              subst (λ q. Agree id a q (ok t₁)) e
                (subst (Agree id a (on_frame read_response wire s)) e'
                  (on_frame-own wire s t hit same o o')) in
            let (s', t', f, g, end) = frames-own wires s₁ t₁ agree.0 agree.1 agree.2 v₁ v₁' in
            (s', t', rw (e) f, rw (hit) (rw (e') g), end)
      ]

  -- If the registered streams are open, distinct and listed once, and a request is registered for a
  -- stream, then after any frames that the tunnels send, those of all requests in any order, that
  -- stream and the request's entry are what the frames of the request alone would have made of them.
  pub on_frames-frames_of :
      (wires : List Str) (s : Server Limiter)
      → IsLive s
      → lookup id s.stream_handlers ≡ some a
      → (s' t' : Server Limiter) × (on_frames read_response wires s ≡ ok s')
        × (on_frames read_response (frames_of id wires) s ≡ ok t')
        × (s'.streams a ≡ t'.streams a)
        × (lookup id s'.stream_handlers ≡ lookup id t'.stream_handlers)
  on_frames-frames_of wires s v e =
      let o : Owns id a s = record {
        only = λ j h. v.distinct id j a e h;
        own = λ b h. ground (arith, e, h);
      } in
      let (s', t', f, g, end) =
        frames-own wires s s (record { stream = refl; entry = refl }) o o v v in
      (s', t', f, g, end.stream, end.entry)
