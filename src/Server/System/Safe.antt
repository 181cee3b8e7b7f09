-- ===== src/Server/System/Safe.antt =====
-- Without polling clients no order of steps makes the server panic.
use std.Path.{subst}
use single_proxy.Base.{
  ℕ, suc, ◌+◌, ◌^◌, ◌<◌, Str, List, [], ◌∷◌, Bool, Option, none, some, lookup, nat_key, str_key,
  ◌≡◌, ◌⊎◌, refl, sym, ◌∙◌, arith, Map, Option-cases, Bool-cases, inl, inr, not, ◌||◌, length,
}
use single_proxy.Protocol.Http.{Request, serialize_http_request}
use single_proxy.Protocol.Message.{serialize_tunnel_message}
use single_proxy.Server.Writer.{Writer}
use single_proxy.Server.Limits.{RateLimiter}
use single_proxy.Server.State.{Server, ok, Response}
use single_proxy.Server.Tunnel.Live.{
  IsLive, on_frame-Keeps, register_tunnel-IsLive, read_loop_exit-IsLive,
}
use single_proxy.Server.Public.{
  Admission, refused, admitted, admit, tunnel_for, ws_tunnel, no_tunnel, dispatch, after_admission,
  public_request, finish_timeout, next_id, forward_ws, open_stream,
}
use single_proxy.Server.Public.Admit.{admit-only_limiters}
use single_proxy.Server.Public.Open.{
  IsWf, HasIds, request_message, dispatch_ws, dispatch_ws-none, forward_ws-IsWf, open_stream-IsWf,
  finish_timeout-IsWf,
}
use single_proxy.Server.System.{
  Event, frame, registers, exits, requests, admits, opens, sends, times_out, happen, happen_all,
  state_of,
}
use single_proxy.Server.System.Frame.{
  AddsNone, AddsNone-IsWf, IfOk, on_frame-AddsNone, register_tunnel-AddsNone,
  read_loop_exit-AddsNone,
}

module _ {Limiter : Type 0} where
  -- Well formed, without polling clients, and with IDs left for `n` requests.
  pub record IsReady (n : ℕ) (s : Server Limiter) : Type 0 where
    pub wf : IsWf s
    pub no_polling : s.tunnel_clients ≡ []
    pub ids : s.next_request_id + n < 2 ^ 64

  AddsNone-IsReady :
      (n : ℕ) (s s' : Server Limiter) → AddsNone s s' → IsLive s' → IsReady (suc n) s → IsReady n s'
  AddsNone-IsReady n s s' f live v = record {
    wf = AddsNone-IsWf s s' f live v.wf;
    no_polling = f.clients ∙ v.no_polling;
    ids = ground (arith, f.ids, v.ids);
  }

  -- Forwarding counts no request and adds no polling client.
  forward_ws-fields :
      (delivers : Bool) (bytes : Option Str) (conn id a : ℕ) (s : Server Limiter)
      → ((forward_ws delivers bytes conn id a s).1.tunnel_clients ≡ s.tunnel_clients)
        × ((forward_ws delivers bytes conn id a s).1.next_request_id ≡ s.next_request_id)
  unfolding forward_ws
  forward_ws-fields delivers none conn id a s = (refl, refl)
  forward_ws-fields delivers (some bytes) conn id a s =
      elim (Bool-cases ((s.sockets conn).closed || not delivers)) [
        | inl failed ↦ rw (failed, forward_ws) (refl, refl)
        | inr sent ↦ rw (sent, forward_ws) (refl, refl)
      ]

  dispatch_ws-IsReady :
      (n : ℕ) (delivers : Bool) (conn : ℕ) (r : Request) (w : Writer) (s : Server Limiter)
      → IsReady (suc n) s
      → (s' : Server Limiter) × (state_of (dispatch delivers (ws_tunnel conn) r w s) ≡ ok s')
        × IsReady n s'
  unfolding open_stream
  dispatch_ws-IsReady n delivers conn r w s v = elim (Option-cases (serialize_http_request r)) [
    | inl broken ↦ (
      s,
      rw ((dispatch_ws-none delivers conn r w s broken).1),
      record { wf = v.wf; no_polling = v.no_polling; ids = ground (arith, v.ids) },
    )
    | inr (bytes, e) ↦
        let msg : Option Str = serialize_tunnel_message (request_message (next_id s) bytes) in
        let has : HasIds s = ground (arith, v.ids) in
        let (clients, ids) =
          forward_ws-fields delivers msg conn (next_id s) s.next_stream (open_stream w s) in
        (
          (forward_ws delivers msg conn (next_id s) s.next_stream (open_stream w s)).1,
          rw (dispatch_ws delivers conn r bytes w s e),
          record {
            wf =
                forward_ws-IsWf delivers msg conn (next_id s) s.next_stream (open_stream w s)
                  (open_stream-IsWf w s has v.wf);
            no_polling = clients ∙ v.no_polling;
            ids = ground (arith, ids, v.ids);
          },
        )
  ]

  -- Without polling clients a key has a WebSocket or nothing.
  pub tunnel_for-cases :
      (key : Str) (s : Server Limiter)
      → s.tunnel_clients ≡ []
      → ((conn : ℕ) × (tunnel_for key s ≡ ws_tunnel conn)) ⊎ (tunnel_for key s ≡ no_tunnel)
  unfolding tunnel_for lookup
  tunnel_for-cases key s h = elim (Option-cases (lookup key s.client_conns)) [
    | inl absent ↦ inr (rw (absent, h, tunnel_for))
    | inr (conn, e) ↦ inl (conn, rw (e, tunnel_for))
  ]

  dispatch-IsReady :
      (n : ℕ) (delivers : Bool) (key : Str) (r : Request) (w : Writer) (s : Server Limiter)
      → IsReady (suc n) s
      → (s' : Server Limiter) × (state_of (dispatch delivers (tunnel_for key s) r w s) ≡ ok s')
        × IsReady n s'
  unfolding dispatch
  dispatch-IsReady n delivers key r w s v = elim (tunnel_for-cases key s v.no_polling) [
    | inl (conn, e) ↦
        let (s', done, v') = dispatch_ws-IsReady n delivers conn r w s v in (s', rw (e) done, v')
    | inr absent ↦ (
      s,
      rw (absent),
      record { wf = v.wf; no_polling = v.no_polling; ids = ground (arith, v.ids) },
    )
  ]

  limiters-IsReady :
      (n : ℕ) (ips keys : Map Str Limiter) (s : Server Limiter)
      → IsReady n s
      → IsReady n (record s { ip_limiters = ips; key_limiters = keys })
  limiters-IsReady n ips keys s v = record {
    wf = record {
      live = record {
        is_open = v.wf.live.is_open;
        distinct = v.wf.live.distinct;
        unique = v.wf.live.unique;
      };
      used_ids = v.wf.used_ids;
      used_streams = v.wf.used_streams;
    };
    no_polling = v.no_polling;
    ids = v.ids;
  }

  weaken-IsReady : (n : ℕ) (s : Server Limiter) → IsReady (suc n) s → IsReady n s
  weaken-IsReady n s v = record {
    wf = v.wf;
    no_polling = v.no_polling;
    ids = ground (arith, v.ids);
  }

  open_stream-IsReady :
      (n : ℕ) (w : Writer) (s : Server Limiter) → IsReady (suc n) s → IsReady n (open_stream w s)
  unfolding open_stream
  open_stream-IsReady n w s v = record {
    wf = open_stream-IsWf w s (ground (arith, v.ids)) v.wf;
    no_polling = v.no_polling;
    ids = ground (arith, v.ids);
  }

  forward_ws-IsReady :
      (n : ℕ) (delivers : Bool) (bytes : Option Str) (conn id a : ℕ) (s : Server Limiter)
      → IsReady n s
      → IsReady n (forward_ws delivers bytes conn id a s).1
  forward_ws-IsReady n delivers bytes conn id a s v =
      let (clients, ids) = forward_ws-fields delivers bytes conn id a s in
      record {
        wf = forward_ws-IsWf delivers bytes conn id a s v.wf;
        no_polling = clients ∙ v.no_polling;
        ids = ground (arith, ids, v.ids);
      }

module _ (lib : RateLimiter) (read_response : Str → Option Response) where
  open lib use {Limiter}

  after_admission-IsReady :
      (n : ℕ) (delivers : Bool) (r : Request) (w : Writer) (a : Admission) (s : Server Limiter)
      → IsReady (suc n) s
      → (s' : Server Limiter) × (state_of (after_admission lib delivers r w (a, s)) ≡ ok s')
        × IsReady n s'
  after_admission-IsReady n delivers r w (refused f) s v =
      (s, refl, record { wf = v.wf; no_polling = v.no_polling; ids = ground (arith, v.ids) })
  after_admission-IsReady n delivers r w (admitted key) s v =
      dispatch-IsReady n delivers key r w s v

  admit-IsReady :
      (n now : ℕ) (r : Request) (s : Server Limiter)
      → IsReady (suc n) s
      → IsReady (suc n) (admit lib now r s).1
  admit-IsReady n now r s v = subst (IsReady (suc n)) (sym (admit-only_limiters lib now r s)) (
      limiters-IsReady (suc n) (admit lib now r s).1.ip_limiters (admit lib now r s).1.key_limiters
        s v)

  request-IsReady :
      (n now : ℕ) (delivers : Bool) (r : Request) (w : Writer) (s : Server Limiter)
      → IsReady (suc n) s
      → (s' : Server Limiter) × (state_of (public_request lib now delivers r w s) ≡ ok s')
        × IsReady n s'
  unfolding public_request
  request-IsReady n now delivers r w s v =
      after_admission-IsReady n delivers r w (admit lib now r s).0 (admit lib now r s).1
        (admit-IsReady n now r s v)

  pub timeout-IsReady :
      (n id a : ℕ) (s : Server Limiter) → IsReady (suc n) s → IsReady n (finish_timeout id a s).1
  unfolding finish_timeout
  timeout-IsReady n id a s v = record {
    wf = finish_timeout-IsWf id a s v.wf;
    no_polling = v.no_polling;
    ids = ground (arith, v.ids);
  }

  pub happen-IsReady :
      (n : ℕ) (e : Event) (s : Server Limiter)
      → IsReady (suc n) s
      → (s' : Server Limiter) × (happen lib read_response e s ≡ ok s') × IsReady n s'
  unfolding happen
  happen-IsReady n (frame wire) s v =
      let (s', e, live) = on_frame-Keeps read_response wire s v.wf.live in
      let f = on_frame-AddsNone read_response wire s in
      (s', e, AddsNone-IsReady n s s' (subst (IfOk (AddsNone s)) e f) live v)
  happen-IsReady n (registers key conn) s v = (
    _,
    refl,
    AddsNone-IsReady n s _ (register_tunnel-AddsNone key conn s)
        (register_tunnel-IsLive key conn s v.wf.live) v,
  )
  happen-IsReady n (exits conn key) s v = (
    _,
    refl,
    AddsNone-IsReady n s _ (read_loop_exit-AddsNone conn key s)
        (read_loop_exit-IsLive conn key s v.wf.live) v,
  )
  happen-IsReady n (requests now delivers r w) s v = request-IsReady n now delivers r w s v
  happen-IsReady n (admits now r) s v = (_, refl, weaken-IsReady n _ (admit-IsReady n now r s v))
  happen-IsReady n (opens w) s v = (_, refl, open_stream-IsReady n w s v)
  happen-IsReady n (sends delivers bytes conn id a) s v =
      (_, refl, forward_ws-IsReady n delivers bytes conn id a s (weaken-IsReady n s v))
  happen-IsReady n (times_out id a) s v = (_, refl, timeout-IsReady n id a s v)

  -- Take a server whose registered streams are open, distinct and numbered below the counters, that
  -- has no polling clients, and whose counter of IDs is further from 2^64 than the number of steps.
  -- Then no sequence of frames, registrations, ends of read loops, timeouts, public requests, and
  -- parts of public requests that come between one another (their admissions, the registrations of
  -- their streams, their messages) closes a channel twice, and the registered streams are again open,
  -- distinct and numbered below the counters. Each message is one step: that two calls of
  -- WriteMessage on one connection may overlap is not covered.
  pub happen_all-IsReady :
      (es : List Event) (s : Server Limiter)
      → IsReady (length es) s
      → (s' : Server Limiter) × (happen_all lib read_response es s ≡ ok s') × IsReady 0 s'
  unfolding happen_all
  happen_all-IsReady [] s v = (s, refl, v)
  happen_all-IsReady (e ∷ es) s v =
      let (s', step, v') = happen-IsReady (length es) e s v in
      let (t, steps, v'') = happen_all-IsReady es s' v' in (t, rw step steps, v'')
