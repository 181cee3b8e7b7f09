-- ===== src/Server/System/Rests.antt =====
-- A stream that is over, in all steps of the server.
use mathlib.Core.Path.{subst}
use single_proxy.Base.{
  ℕ, suc, Str, List, [], ◌∷◌, Bool, Option, All, length, nat_key, ◌≡◌, ◌≢◌, refl, sym, ◌∙◌,
  Option-cases, inl, inr, Map,
}
use single_proxy.Protocol.Http.{Request, serialize_http_request}
use single_proxy.Protocol.Message.{serialize_tunnel_message}
use single_proxy.Server.Writer.{Writer}
use single_proxy.Server.Limits.{RateLimiter}
use single_proxy.Server.State.{Server, Outcome, ok, panic, Response}
use single_proxy.Server.Tunnel.{read_loop_exit, close_socket}
use single_proxy.Server.Tunnel.Live.{on_frame-Keeps}
use single_proxy.Server.Public.{
  Admission, refused, admitted, admit, after_admission, ws_tunnel, tunnel_for, dispatch, next_id,
  public_request,
}
use single_proxy.Server.Public.Admit.{admit-only_limiters}
use single_proxy.Server.Public.Open.{request_message, dispatch_ws, dispatch_ws-none}
use single_proxy.Server.System.{
  Event, frame, registers, exits, requests, admits, opens, sends, times_out, happen, happen_all,
  state_of,
}
use single_proxy.Server.System.Frame.{
  IfOk, on_frame-AddsNone, register_tunnel-AddsNone, read_loop_exit-AddsNone,
}
use single_proxy.Server.System.Safe.{IsReady, tunnel_for-cases, happen-IsReady}
use single_proxy.Server.System.Over.{
  IsOver, Rests, AddsNone-Rests, on_frame-leaves, register_tunnel-leaves, forward_ws-Rests,
  timeout-Rests, opened-Rests, sends-Rests,
}

-- A step that is not the timer of the stream's request, nor its write.
abbrev pub IsElse : ℕ → Event → Type 0
IsElse a (frame wire) = Unit
IsElse a (registers key conn) = Unit
IsElse a (exits conn key) = Unit
IsElse a (requests now delivers r w) = Unit
IsElse a (admits now r) = Unit
IsElse a (opens w) = Unit
IsElse a (sends delivers bytes conn id b) = b ≢ a
IsElse a (times_out id b) = b ≢ a

module _ {Limiter : Type 0} where
  self-Rests : (a : ℕ) (s : Server Limiter) → IsOver a s → Rests a s s
  self-Rests a s o = record { same = refl; over = o }

  -- The limiters have nothing to do with streams.
  limited-IfOk :
      (a : ℕ) (ips keys : Map Str Limiter) (s : Server Limiter) (r : Outcome (Server Limiter))
      → IfOk (Rests a (record s { ip_limiters = ips; key_limiters = keys })) r
      → IfOk (Rests a s) r
  limited-IfOk a ips keys s (ok s') rests = record { same = rests.same; over = rests.over }
  limited-IfOk a ips keys s (panic p) rests = tt

  dispatch_ws-Rests :
      (delivers : Bool) (conn a : ℕ) (r : Request) (w : Writer) (s : Server Limiter)
      → IsOver a s
      → IfOk (Rests a s) (state_of (dispatch delivers (ws_tunnel conn) r w s))
  dispatch_ws-Rests delivers conn a r w s o = elim (Option-cases (serialize_http_request r)) [
    | inl broken ↦ rw ((dispatch_ws-none delivers conn r w s broken).1) (self-Rests a s o)
    | inr (bytes, e) ↦ rw (dispatch_ws delivers conn r bytes w s e) (
        forward_ws-Rests delivers (serialize_tunnel_message (request_message (next_id s) bytes))
          conn a w s o)
  ]

  dispatch-Rests :
      (delivers : Bool) (key : Str) (a : ℕ) (r : Request) (w : Writer) (s : Server Limiter)
      → s.tunnel_clients ≡ []
      → IsOver a s
      → IfOk (Rests a s) (state_of (dispatch delivers (tunnel_for key s) r w s))
  unfolding dispatch
  dispatch-Rests delivers key a r w s none_polls o = elim (tunnel_for-cases key s none_polls) [
    | inl (conn, e) ↦ rw (e) (dispatch_ws-Rests delivers conn a r w s o)
    | inr absent ↦ rw (absent) (self-Rests a s o)
  ]

module _ (lib : RateLimiter) (read_response : Str → Option Response) where
  open lib use {Limiter}

  after_admission-Rests :
      (delivers : Bool) (a : ℕ) (r : Request) (w : Writer) (adm : Admission) (s : Server Limiter)
      → s.tunnel_clients ≡ []
      → IsOver a s
      → IfOk (Rests a s) (state_of (after_admission lib delivers r w (adm, s)))
  after_admission-Rests delivers a r w (refused f) s none_polls o = self-Rests a s o
  after_admission-Rests delivers a r w (admitted key) s none_polls o =
      dispatch-Rests delivers key a r w s none_polls o

  request-Rests :
      (now : ℕ) (delivers : Bool) (a : ℕ) (r : Request) (w : Writer) (s : Server Limiter)
      → s.tunnel_clients ≡ []
      → IsOver a s
      → IfOk (Rests a s) (state_of (public_request lib now delivers r w s))
  unfolding public_request
  request-Rests now delivers a r w s none_polls o =
      let t = (admit lib now r s).1 in
      let s₁ : Server Limiter = record s {
        ip_limiters = t.ip_limiters;
        key_limiters = t.key_limiters;
      } in
      let o₁ : IsOver a s₁ = record { free = o.free; old = o.old } in
      let q = after_admission lib delivers r w in
      limited-IfOk a t.ip_limiters t.key_limiters s _ (
        subst (λ x. IfOk (Rests a s₁) (state_of (q ((admit lib now r s).0, x))))
          (sym (admit-only_limiters lib now r s))
          (after_admission-Rests delivers a r w (admit lib now r s).0 s₁ none_polls o₁))

  happen-Rests :
      (n a : ℕ) (e : Event) (s : Server Limiter)
      → IsReady (suc n) s
      → IsOver a s
      → IsElse a e
      → IfOk (Rests a s) (happen lib read_response e s)
  unfolding happen read_loop_exit close_socket
  happen-Rests n a (frame wire) s v o other =
      let (s', e, live) = on_frame-Keeps read_response wire s v.wf.live in
      subst (IfOk (Rests a s)) (sym e) (
        AddsNone-Rests a s s' o (subst (IfOk _) e (on_frame-AddsNone read_response wire s)) (
          subst (IfOk (λ x. x.streams a ≡ s.streams a)) e
            (on_frame-leaves read_response a wire s o)))
  happen-Rests n a (registers key conn) s v o other =
      AddsNone-Rests a s _ o (register_tunnel-AddsNone key conn s)
        (register_tunnel-leaves a key conn s o v.wf.live.unique)
  happen-Rests n a (exits conn key) s v o other =
      AddsNone-Rests a s _ o (read_loop_exit-AddsNone conn key s) refl
  happen-Rests n a (requests now delivers r w) s v o other =
      request-Rests now delivers a r w s v.no_polling o
  happen-Rests n a (admits now r) s v o other =
      limited-IfOk a (admit lib now r s).1.ip_limiters (admit lib now r s).1.key_limiters s
        (ok (admit lib now r s).1)
        (subst (Rests a _) (sym (admit-only_limiters lib now r s))
          (record { same = refl; over = record { free = o.free; old = o.old } }))
  happen-Rests n a (opens w) s v o other = opened-Rests a w s o
  happen-Rests n a (sends delivers bytes conn id b) s v o other =
      sends-Rests delivers bytes conn id a b s o other
  happen-Rests n a (times_out id b) s v o other = timeout-Rests id a b s o other

  -- After a stream is over nothing more is written to it.
  pub happen_all-Rests :
      (a : ℕ) (es : List Event) (s : Server Limiter)
      → IsReady (length es) s
      → IsOver a s
      → All (IsElse a) es
      → (s' : Server Limiter) × (happen_all lib read_response es s ≡ ok s')
        × (s'.streams a ≡ s.streams a)
  unfolding happen_all
  happen_all-Rests a [] s v o others = (s, refl, refl)
  happen_all-Rests a (e ∷ es) s v o (other, others) =
      let (s', step, v') = happen-IsReady lib read_response (length es) e s v in
      let rests : Rests a s s' =
        subst (IfOk (Rests a s)) step (happen-Rests (length es) a e s v o other) in
      let (t, steps, same) = happen_all-Rests a es s' v' rests.over others in
      (t, rw step steps, same ∙ rests.same)
