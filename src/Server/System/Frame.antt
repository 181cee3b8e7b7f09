-- ===== src/Server/System/Frame.antt =====
-- What a frame or a registration may do to the requests that are registered.
use single_proxy.Base.{
  ℕ, Str, List, [], ◌∷◌, Option, none, some, lookup, nat_key, str_key, ◌≡◌, refl, ◌∙◌, arith,
  Option-cases, Bool-cases, inl, inr, lookup-delete, ◌==◌,
}
use single_proxy.Protocol.Message.{
  TunnelMessage, deserialize_tunnel_message, msg_type_http_res, msg_type_http_res_chunk,
}
use single_proxy.Server.State.{Server, Outcome, ok, panic, Response, close_done}
use single_proxy.Server.Tunnel.{
  on_frame, on_message, on_response, on_chunk, register_tunnel, read_loop_exit, cleanup,
  replace_conn, close_socket, end_stream,
}
use single_proxy.Server.Tunnel.Live.{IsLive}
use single_proxy.Server.Public.Open.{IsWf}

module _ {Limiter : Type 0} where
  -- No request is added, and the counters and the polling clients are as before.
  pub record AddsNone (s s' : Server Limiter) : Type 0 where
    pub clients : s'.tunnel_clients ≡ s.tunnel_clients
    pub ids : s'.next_request_id ≡ s.next_request_id
    pub stream_count : s'.next_stream ≡ s.next_stream
    pub kept :
        (id a : ℕ) → lookup id s'.stream_handlers ≡ some a → lookup id s.stream_handlers ≡ some a

  abbrev pub IfOk : (Server Limiter → Type 0) → Outcome (Server Limiter) → Type 0
  IfOk P (ok s) = P s
  IfOk P (panic p) = Unit

  AddsNone-self : (s : Server Limiter) → AddsNone s s
  AddsNone-self s = record { clients = refl; ids = refl; stream_count = refl; kept = λ id a e. e }

  AddsNone-trans : (r s t : Server Limiter) → AddsNone r s → AddsNone s t → AddsNone r t
  AddsNone-trans r s t f g = record {
    clients = g.clients ∙ f.clients;
    ids = g.ids ∙ f.ids;
    stream_count = g.stream_count ∙ f.stream_count;
    kept = λ id a e. f.kept id a (g.kept id a e);
  }

  end_stream-AddsNone : (id a : ℕ) (s : Server Limiter) → AddsNone s (end_stream id a s)
  end_stream-AddsNone id a s = record {
    clients = refl;
    ids = refl;
    stream_count = refl;
    kept = λ i b e. ground (arith, lookup-delete id i s.stream_handlers);
  }

  cleanup-AddsNone :
      (handlers : List (ℕ × ℕ)) (s : Server Limiter) → AddsNone s (cleanup handlers s)
  unfolding cleanup
  cleanup-AddsNone [] s = AddsNone-self s
  cleanup-AddsNone ((id, a) ∷ handlers) s = elim (Bool-cases (s.streams a).done) [
    | inl ended ↦ rw (ended) (cleanup-AddsNone handlers s)
    | inr pending ↦ rw (pending) (
        AddsNone-trans s _ _ (end_stream-AddsNone id a s)
          (cleanup-AddsNone handlers (end_stream id a s)))
  ]

  replace_conn-AddsNone : (old : Option ℕ) (s : Server Limiter) → AddsNone s (replace_conn old s)
  unfolding replace_conn close_socket
  replace_conn-AddsNone none s = AddsNone-self s
  replace_conn-AddsNone (some old) s =
      let c = cleanup-AddsNone s.stream_handlers (close_socket old s) in
      record { clients = c.clients; ids = c.ids; stream_count = c.stream_count; kept = c.kept }

  pub register_tunnel-AddsNone :
      (key : Str) (conn : ℕ) (s : Server Limiter) → AddsNone s (register_tunnel key conn s)
  unfolding register_tunnel
  register_tunnel-AddsNone key conn s =
      let c = replace_conn-AddsNone (lookup key s.client_conns) s in
      record { clients = c.clients; ids = c.ids; stream_count = c.stream_count; kept = c.kept }

  pub read_loop_exit-AddsNone :
      (conn : ℕ) (key : Str) (s : Server Limiter) → AddsNone s (read_loop_exit conn key s)
  unfolding read_loop_exit close_socket
  read_loop_exit-AddsNone conn key s = record {
    clients = refl;
    ids = refl;
    stream_count = refl;
    kept = λ id a e. e;
  }

  -- Where no request is added and the streams stay open and distinct, the state stays well formed.
  pub AddsNone-IsWf : (s s' : Server Limiter) → AddsNone s s' → IsLive s' → IsWf s → IsWf s'
  AddsNone-IsWf s s' f live v = record {
    live = live;
    used_ids = λ id a e. rw (f.ids) (v.used_ids id a (f.kept id a e));
    used_streams = λ id a e. rw (f.stream_count) (v.used_streams id a (f.kept id a e));
  }

module _ {Limiter : Type 0} (read_response : Str → Option Response) where
  on_response-AddsNone :
      (id a : ℕ) (payload : Str) (s : Server Limiter)
      → IfOk (AddsNone s) (on_response read_response id a payload s)
  unfolding on_response close_done
  on_response-AddsNone id a payload s = elim (Option-cases (read_response payload)) [
    | inl bad ↦
        rw (bad, on_response)
          (elim (Bool-cases (s.streams a).done) [
            | inl ended ↦ rw (ended) tt
            | inr pending ↦ rw (pending) (end_stream-AddsNone id a s)
          ])
    | inr (resp, good) ↦
        rw (good, on_response)
          (record { clients = refl; ids = refl; stream_count = refl; kept = λ i b e. e })
  ]

  on_chunk-AddsNone :
      (id a : ℕ) (payload : Str) (s : Server Limiter)
      → IfOk (AddsNone s) (on_chunk read_response id a payload s)
  unfolding on_chunk close_done
  on_chunk-AddsNone id a [] s = elim (Bool-cases (s.streams a).done) [
    | inl ended ↦ rw (ended) tt
    | inr pending ↦ rw (pending) (end_stream-AddsNone id a s)
  ]
  on_chunk-AddsNone id a (b ∷ payload) s = record {
    clients = refl;
    ids = refl;
    stream_count = refl;
    kept = λ i c e. e;
  }

  on_message-AddsNone :
      (msg : TunnelMessage) (s : Server Limiter)
      → IfOk (AddsNone s) (on_message read_response msg s)
  unfolding on_message
  on_message-AddsNone msg s = elim (Option-cases (lookup msg.id s.stream_handlers)) [
    | inl unknown ↦ rw (unknown, on_message) (AddsNone-self s)
    | inr (a, e) ↦
        rw (e, on_message)
          (elim (Bool-cases (msg.type == msg_type_http_res)) [
            | inl res ↦ rw (res) (on_response-AddsNone msg.id a msg.payload s)
            | inr other ↦ elim (Bool-cases (msg.type == msg_type_http_res_chunk)) [
              | inl chunk ↦ rw (other, chunk) (on_chunk-AddsNone msg.id a msg.payload s)
              | inr none_of_both ↦ rw (other, none_of_both) (AddsNone-self s)
            ]
          ])
  ]

  pub on_frame-AddsNone :
      (wire : Str) (s : Server Limiter) → IfOk (AddsNone s) (on_frame read_response wire s)
  unfolding on_frame
  on_frame-AddsNone wire s = elim (Option-cases (deserialize_tunnel_message wire)) [
    | inl short ↦ rw (short, on_frame) (AddsNone-self s)
    | inr (msg, e) ↦ rw (e, on_frame) (on_message-AddsNone msg s)
  ]
