-- ===== src/Server/Tunnel/Live.antt =====
-- The WebSocket side never closes a stream twice: the streams that are registered are open.
use single_proxy.Base.{
  ℕ, Str, List, [], ◌∷◌, false, Option, none, some, lookup, delete, ◌==◌, nat_key, str_key,
  nat_beq_iff, ◌≡◌, refl, arith, lookup-delete, Option-cases, Bool-cases, KeysApart,
  KeysApart-delete, Agrees, Agrees-self, Agrees-weaken, inl, inr,
}
use single_proxy.Protocol.Message.{
  TunnelMessage, deserialize_tunnel_message, msg_type_http_res, msg_type_http_res_chunk,
}
use single_proxy.Server.State.{Server, Outcome, ok, Stream, Response, close_done, update}
use single_proxy.Server.Tunnel.{
  on_response, on_chunk, on_message, on_frame, on_frames, cleanup, end_stream, close_socket,
  replace_conn, register_tunnel, read_loop_exit, write_response_head,
}

module _ {Limiter : Type 0} where
  -- Registered streams are open, and no two requests share one.
  pub record IsLive (s : Server Limiter) : Type 0 where
    pub is_open : (id a : ℕ) → lookup id s.stream_handlers ≡ some a → (s.streams a).done ≡ false
    pub distinct :
        (i j a : ℕ)
        → lookup i s.stream_handlers ≡ some a
        → lookup j s.stream_handlers ≡ some a
        → i ≡ j
    pub unique : KeysApart s.stream_handlers

  -- The outcome is no panic, and the state keeps the property.
  abbrev pub Keeps {ℓ} : (Server Limiter → Type ℓ) → Outcome (Server Limiter) → Type ℓ
  Keeps P r = (s : Server Limiter) × (r ≡ ok s) × P s

module _ {Limiter : Type 0} where
  pub end_stream-IsLive :
      (id a : ℕ) (s : Server Limiter)
      → IsLive s
      → lookup id s.stream_handlers ≡ some a
      → IsLive (end_stream id a s)
  end_stream-IsLive id a s v e = record {
    is_open = λ i b h. grind (
      arith,
      lookup-delete id i s.stream_handlers,
      v.is_open i b,
      v.distinct i id a,
      nat_beq_iff id i,
      nat_beq_iff a b,
    );
    distinct = λ i j b h k. grind (
      arith,
      lookup-delete id i s.stream_handlers,
      lookup-delete id j s.stream_handlers,
      v.distinct i j b,
    );
    unique = KeysApart-delete id s.stream_handlers v.unique;
  }

  -- Writing to a stream does not touch its channel.
  pub write-IsLive :
      (a : ℕ) (st : Stream) (s : Server Limiter)
      → st.done ≡ (s.streams a).done
      → IsLive s
      → IsLive (record s { streams = update s.streams a st })
  write-IsLive a st s same v = record {
    is_open = λ i b h. grind (arith, v.is_open i b, nat_beq_iff a b);
    distinct = v.distinct;
    unique = v.unique;
  }

  -- Closing what is pending keeps the property, and leaves no entry of the list registered.
  pub cleanup-IsLive :
      (handlers : List (ℕ × ℕ)) (s : Server Limiter)
      → IsLive s
      → KeysApart handlers
      → Agrees s.stream_handlers handlers
      → IsLive (cleanup handlers s)
  unfolding cleanup
  cleanup-IsLive [] s v k a = v
  cleanup-IsLive ((id, b) ∷ handlers) s v k a = rw (v.is_open id b a.0) (
      cleanup-IsLive handlers _ (end_stream-IsLive id b s v a.0) k.1 (
        Agrees-weaken s.stream_handlers (delete id s.stream_handlers) handlers id k.0
          (λ j ne. ground (arith, lookup-delete id j s.stream_handlers, nat_beq_iff id j)) a.1))

  replace_conn-IsLive :
      (old : Option ℕ) (s : Server Limiter) → IsLive s → IsLive (replace_conn old s)
  unfolding replace_conn close_socket
  replace_conn-IsLive none s v = v
  replace_conn-IsLive (some old) s v =
      cleanup-IsLive s.stream_handlers (close_socket old s)
        (record { is_open = v.is_open; distinct = v.distinct; unique = v.unique }) v.unique
        (Agrees-self s.stream_handlers v.unique)

  -- A registration, with the replacement of an older connection, keeps the registered streams open
  -- and distinct; so does the end of a read loop.
  pub register_tunnel-IsLive :
      (key : Str) (conn : ℕ) (s : Server Limiter) → IsLive s → IsLive (register_tunnel key conn s)
  unfolding register_tunnel
  register_tunnel-IsLive key conn s v =
      let v' = replace_conn-IsLive (lookup key s.client_conns) s v in
      record { is_open = v'.is_open; distinct = v'.distinct; unique = v'.unique }

  pub read_loop_exit-IsLive :
      (conn : ℕ) (key : Str) (s : Server Limiter) → IsLive s → IsLive (read_loop_exit conn key s)
  unfolding read_loop_exit close_socket
  read_loop_exit-IsLive conn key s v = record {
    is_open = v.is_open;
    distinct = v.distinct;
    unique = v.unique;
  }

module _ {Limiter : Type 0} (read_response : Str → Option Response) where
  on_response-Keeps :
      (id a : ℕ) (payload : Str) (s : Server Limiter)
      → IsLive s
      → lookup id s.stream_handlers ≡ some a
      → Keeps IsLive (on_response read_response id a payload s)
  unfolding on_response close_done
  on_response-Keeps id a payload s v e = elim (Option-cases (read_response payload)) [
    | inl bad ↦
        (_, rw (bad, on_response) (rw (v.is_open id a e) refl), end_stream-IsLive id a s v e)
    | inr (resp, good) ↦ (
      _,
      rw (good, on_response),
      write-IsLive a
          (record (s.streams a) { writer = write_response_head resp (s.streams a).writer }) s refl
          v,
    )
  ]

  on_chunk-Keeps :
      (id a : ℕ) (payload : Str) (s : Server Limiter)
      → IsLive s
      → lookup id s.stream_handlers ≡ some a
      → Keeps IsLive (on_chunk read_response id a payload s)
  unfolding on_chunk close_done
  on_chunk-Keeps id a [] s v e = (_, rw (v.is_open id a e) refl, end_stream-IsLive id a s v e)
  on_chunk-Keeps id a (b ∷ payload) s v e = (_, refl, write-IsLive a _ s refl v)

  on_message-Keeps :
      (msg : TunnelMessage) (s : Server Limiter)
      → IsLive s
      → Keeps IsLive (on_message read_response msg s)
  unfolding on_message
  on_message-Keeps msg s v = elim (Option-cases (lookup msg.id s.stream_handlers)) [
    | inl unknown ↦ (s, rw (unknown, on_message), v)
    | inr (a, e) ↦
        let r = on_response-Keeps msg.id a msg.payload s v e in
        let c = on_chunk-Keeps msg.id a msg.payload s v e in
        elim (Bool-cases (msg.type == msg_type_http_res)) [
          | inl res ↦ (r.0, rw (e, on_message) (rw (res) r.1), r.2)
          | inr other ↦ elim (Bool-cases (msg.type == msg_type_http_res_chunk)) [
            | inl chunk ↦ (c.0, rw (e, on_message) (rw (other, chunk) c.1), c.2)
            | inr none_of_both ↦ (s, rw (e, on_message) (rw (other, none_of_both)), v)
          ]
        ]
  ]

  pub on_frame-Keeps :
      (wire : Str) (s : Server Limiter) → IsLive s → Keeps IsLive (on_frame read_response wire s)
  unfolding on_frame
  on_frame-Keeps wire s v = elim (Option-cases (deserialize_tunnel_message wire)) [
    | inl short ↦ (s, rw (short, on_frame), v)
    | inr (msg, e) ↦ let k = on_message-Keeps msg s v in (k.0, rw (e, on_frame) k.1, k.2)
  ]

  -- Whatever bytes a tunnel client sends, in any number of frames, reading them never panics and
  -- keeps the registered streams open and distinct.
  pub on_frames-Keeps :
      (wires : List Str) (s : Server Limiter)
      → IsLive s
      → Keeps IsLive (on_frames read_response wires s)
  unfolding on_frames
  on_frames-Keeps [] s v = (s, refl, v)
  on_frames-Keeps (wire ∷ wires) s v =
      let (s', e, v') = on_frame-Keeps wire s v in
      let (t, e', v'') = on_frames-Keeps wires s' v' in (t, rw e e', v'')
