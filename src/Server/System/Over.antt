-- ===== src/Server/System/Over.antt =====
-- A request that is over: no step of the server touches its stream any more.
use single_proxy.Base.{
  ℕ, ◌<◌, Str, List, [], ◌∷◌, Bool, not, ◌||◌, Option, none, some, lookup, insert, if◌then◌else◌,
  ◌==◌, nat_key, str_key, nat_beq_iff, ◌≡◌, ◌≢◌, refl, ap, ◌∙◌, arith, Option-cases, Bool-cases,
  inl, inr, lookup-delete, lookup-insert, Map, KeysApart, Agrees, Agrees-self,
}
use single_proxy.Protocol.Message.{
  TunnelMessage, deserialize_tunnel_message, msg_type_http_res, msg_type_http_res_chunk,
}
use single_proxy.Server.Writer.{Writer}
use single_proxy.Server.State.{Server, Response, close_done}
use single_proxy.Server.Tunnel.{
  on_frame, on_message, on_response, on_chunk, register_tunnel, cleanup, replace_conn, close_socket,
  end_stream,
}
use single_proxy.Server.Public.{next_id, forward_ws, open_stream, finish_timeout}
use single_proxy.Server.System.Frame.{AddsNone, IfOk}

other_stream {ℓ} : {A : Type ℓ} (x y : A) (b a : ℕ) → b ≢ a → (if b == a then x else y) ≡ y
other_stream x y b a apart = ground (arith, apart, nat_beq_iff b a)

module _ {Limiter : Type 0} where
  -- No request is registered for the stream, and no later one will get it.
  pub record IsOver (a : ℕ) (s : Server Limiter) : Type 0 where
    pub free : (id : ℕ) → lookup id s.stream_handlers ≢ some a
    pub old : a < s.next_stream

  -- A step that leaves the stream as it is, and over.
  pub record Rests (a : ℕ) (s s' : Server Limiter) : Type 0 where
    pub same : s'.streams a ≡ s.streams a
    pub over : IsOver a s'

  -- Where no request is added the stream stays over.
  pub AddsNone-Rests :
      (a : ℕ) (s s' : Server Limiter)
      → IsOver a s
      → AddsNone s s'
      → s'.streams a ≡ s.streams a
      → Rests a s s'
  AddsNone-Rests a s s' o f same = record {
    same = same;
    over = record {
      free = λ id e. o.free id (f.kept id a e);
      old = ground (arith, o.old, f.stream_count);
    };
  }

  -- The loop of the registration ends the streams of the requests that it goes through only.
  cleanup-leaves :
      (a : ℕ) (handlers : List (ℕ × ℕ)) (m : Map ℕ ℕ) (s : Server Limiter)
      → ((id : ℕ) → lookup id m ≢ some a)
      → Agrees m handlers
      → (cleanup handlers s).streams a ≡ s.streams a
  unfolding cleanup
  cleanup-leaves a [] m s free agrees = refl
  cleanup-leaves a ((id, b) ∷ handlers) m s free (e, agrees) =
      let apart : b ≢ a = λ same. free id (e ∙ ap some same) in
      elim (Bool-cases (s.streams b).done) [
        | inl ended ↦
            ap (λ (x : Bool). (cleanup handlers (if x then s else end_stream id b s)).streams a)
              ended
            ∙ cleanup-leaves a handlers m s free agrees
        | inr pending ↦
            ap (λ (x : Bool). (cleanup handlers (if x then s else end_stream id b s)).streams a)
              pending
            ∙ cleanup-leaves a handlers m (end_stream id b s) free agrees
            ∙ other_stream _ (s.streams a) b a apart
      ]

  pub register_tunnel-leaves :
      (a : ℕ) (key : Str) (conn : ℕ) (s : Server Limiter)
      → IsOver a s
      → KeysApart s.stream_handlers
      → (register_tunnel key conn s).streams a ≡ s.streams a
  unfolding register_tunnel replace_conn close_socket
  register_tunnel-leaves a key conn s o unique = elim (Option-cases (lookup key s.client_conns)) [
    | inl absent ↦ rw (absent) refl
    | inr (old, e) ↦ rw (e) (
        cleanup-leaves a s.stream_handlers s.stream_handlers (close_socket old s) o.free
          (Agrees-self s.stream_handlers unique))
  ]

  pub opened-Rests :
      (a : ℕ) (w : Writer) (s : Server Limiter) → IsOver a s → Rests a s (open_stream w s)
  unfolding open_stream
  opened-Rests a w s o = record {
    same = ground (arith, o.old, nat_beq_iff s.next_stream a);
    over = record {
      free = λ id e.
          o.free id (
            ground (arith, o.old, e, lookup-insert (next_id s) id s.next_stream s.stream_handlers));
      old = ground (arith, o.old);
    };
  }

  -- Forwarding touches the stream of the new request only.
  pub forward_ws-Rests :
      (delivers : Bool) (bytes : Option Str) (conn a : ℕ) (w : Writer) (s : Server Limiter)
      → IsOver a s
      → Rests a s (forward_ws delivers bytes conn (next_id s) s.next_stream (open_stream w s)).1
  unfolding forward_ws open_stream
  forward_ws-Rests delivers none conn a w s o = opened-Rests a w s o
  forward_ws-Rests delivers (some bytes) conn a w s o =
      let opened = opened-Rests a w s o in
      elim (Bool-cases ((s.sockets conn).closed || not delivers)) [
        | inl failed ↦
            rw (failed, forward_ws)
              (record {
                same = ground (arith, o.old, nat_beq_iff s.next_stream a);
                over = record {
                  free = λ id e. opened.over.free id (
                      ground (
                        arith,
                        lookup-delete (next_id s) id
                            (insert (next_id s) s.next_stream s.stream_handlers),
                      ));
                  old = opened.over.old;
                };
              })
        | inr sent ↦
            rw (sent, forward_ws)
              (record {
                same = opened.same;
                over = record { free = opened.over.free; old = opened.over.old };
              })
      ]

  -- So does a write for another stream.
  pub sends-Rests :
      (delivers : Bool) (bytes : Option Str) (conn id a b : ℕ) (s : Server Limiter)
      → IsOver a s
      → b ≢ a
      → Rests a s (forward_ws delivers bytes conn id b s).1
  unfolding forward_ws
  sends-Rests delivers none conn id a b s o apart = record { same = refl; over = o }
  sends-Rests delivers (some bytes) conn id a b s o apart =
      elim (Bool-cases ((s.sockets conn).closed || not delivers)) [
        | inl failed ↦
            rw (failed, forward_ws)
              (record {
                same = ground (arith, apart, nat_beq_iff b a);
                over = record {
                  free = λ j e. o.free j (ground (arith, lookup-delete id j s.stream_handlers));
                  old = o.old;
                };
              })
        | inr sent ↦
            rw (sent, forward_ws)
              (record { same = refl; over = record { free = o.free; old = o.old } })
      ]

  pub timeout-Rests :
      (id a b : ℕ) (s : Server Limiter) → IsOver a s → b ≢ a → Rests a s (finish_timeout id b s).1
  unfolding finish_timeout
  timeout-Rests id a b s o apart = record {
    same = ground (arith, apart, nat_beq_iff b a);
    over = record {
      free = λ j e. o.free j (ground (arith, lookup-delete id j s.stream_handlers));
      old = o.old;
    };
  }

module _ {Limiter : Type 0} (read_response : Str → Option Response) where
  -- A message for another stream.
  on_response-leaves :
      (a id b : ℕ) (payload : Str) (s : Server Limiter)
      → b ≢ a
      → IfOk (λ s'. s'.streams a ≡ s.streams a) (on_response read_response id b payload s)
  unfolding on_response close_done
  on_response-leaves a id b payload s apart = elim (Option-cases (read_response payload)) [
    | inl bad ↦
        rw (bad, on_response)
          (elim (Bool-cases (s.streams b).done) [
            | inl ended ↦ rw (ended) tt
            | inr pending ↦ rw (pending) (ground (arith, apart, nat_beq_iff b a))
          ])
    | inr (resp, good) ↦ rw (good, on_response) (ground (arith, apart, nat_beq_iff b a))
  ]

  on_chunk-leaves :
      (a id b : ℕ) (payload : Str) (s : Server Limiter)
      → b ≢ a
      → IfOk (λ s'. s'.streams a ≡ s.streams a) (on_chunk read_response id b payload s)
  unfolding on_chunk close_done
  on_chunk-leaves a id b [] s apart = elim (Bool-cases (s.streams b).done) [
    | inl ended ↦ rw (ended) tt
    | inr pending ↦ rw (pending) (ground (arith, apart, nat_beq_iff b a))
  ]
  on_chunk-leaves a id b (c ∷ payload) s apart = ground (arith, apart, nat_beq_iff b a)

  on_message-leaves :
      (a : ℕ) (msg : TunnelMessage) (s : Server Limiter)
      → IsOver a s
      → IfOk (λ s'. s'.streams a ≡ s.streams a) (on_message read_response msg s)
  unfolding on_message
  on_message-leaves a msg s o = elim (Option-cases (lookup msg.id s.stream_handlers)) [
    | inl unknown ↦ rw (unknown, on_message) refl
    | inr (b, e) ↦
        let apart : b ≢ a = λ same. o.free msg.id (e ∙ ap some same) in
        rw (e, on_message)
          (elim (Bool-cases (msg.type == msg_type_http_res)) [
            | inl res ↦ rw (res) (on_response-leaves a msg.id b msg.payload s apart)
            | inr other ↦ elim (Bool-cases (msg.type == msg_type_http_res_chunk)) [
              | inl chunk ↦ rw (other, chunk) (on_chunk-leaves a msg.id b msg.payload s apart)
              | inr none_of_both ↦ rw (other, none_of_both) refl
            ]
          ])
  ]

  pub on_frame-leaves :
      (a : ℕ) (wire : Str) (s : Server Limiter)
      → IsOver a s
      → IfOk (λ s'. s'.streams a ≡ s.streams a) (on_frame read_response wire s)
  unfolding on_frame
  on_frame-leaves a wire s o = elim (Option-cases (deserialize_tunnel_message wire)) [
    | inl short ↦ rw (short, on_frame) refl
    | inr (msg, e) ↦ rw (e, on_frame) (on_message-leaves a msg s o)
  ]
