-- ===== src/Relay/Mux/Request.antt =====
-- A public request on a tunnel that others share, from its arrival: handlePublicHTTPRequest and
-- clientReadLoop (pkg/server/handlers.go) with the client's goroutines (pkg/client/client.go).
use mathlib.Core.Path.{subst}
use single_proxy.Base.{
  ℕ, Str, List, [], ◌∷◌, ◌++◌, true, false, Option, none, some, All, ◌≡◌, ap, sym, ◌∙◌, arith,
}
use single_proxy.Http.Header.{assign_all}
use single_proxy.Protocol.Http.{Request}
use single_proxy.Protocol.Wire.{wire_of}
use single_proxy.Client.Stream.{Answer}
use single_proxy.Client.Tunnel.{TunnelClient}
use single_proxy.Client.Tunnel.Loops.{Target}
use single_proxy.Client.Tunnel.Steps.{Event}
use single_proxy.Client.Tunnel.Steps.Sole.{NotAsked}
use single_proxy.Client.Tunnel.Steps.Delivered.{Holds}
use single_proxy.Server.Writer.{Writer}
use single_proxy.Server.Writer.Response.{head}
use single_proxy.Server.Limits.{RateLimiter}
use single_proxy.Server.State.{Server, ok, Response}
use single_proxy.Server.Public.{waiting, public_request, dispatch, ws_tunnel, next_id, Progress}
use single_proxy.Server.Public.Open
use single_proxy.Server.Public.Open.{request_message, HasIds, dispatch_ws-Keeps}
use single_proxy.Server.Public.Relay.{joined}
use single_proxy.Relay.Request.{IsAccepted, limited, accepted-IsForwarded}
use single_proxy.Relay.Mux.{IsAnswered, IsRelayed, IsWaiting, mux-IsRelayed}
use single_proxy.Relay.Mux.Client.{IsUnasked}
use single_proxy.Relay.Mux.Frames.{IsOther, ok_inj}

module _ (lib : RateLimiter) where
  open lib use {Limiter}

  limited-IsWf :
      (now : ℕ) (r : Request) (s : Server Limiter) → Open.IsWf s → Open.IsWf (limited lib now r s)
  limited-IsWf now r s v = record {
    live = record { is_open = v.live.is_open; distinct = v.live.distinct; unique = v.live.unique };
    used_ids = v.used_ids;
    used_streams = v.used_streams;
  }

  -- A request that waits is in a state that is well formed.
  waiting-IsWf :
      (now : ℕ) (r : Request) (conn : ℕ) (w : Writer) (s s₁ : Server Limiter)
      → Open.IsWf s
      → HasIds s
      → dispatch true (ws_tunnel conn) r w (limited lib now r s)
        ≡ ok (waiting (next_id s) s.next_stream, s₁)
      → Open.IsWf s₁
  waiting-IsWf now r conn w s s₁ v ids dispatched =
      let (p, e, wf) =
        dispatch_ws-Keeps true conn r w (limited lib now r s) ids (limited-IsWf now r s v) in
      subst (λ (x : Progress × Server Limiter). Open.IsWf x.1) (ok_inj (sym e ∙ dispatched)) wf

  -- Take a request that the rate limits admit, whose key has an open WebSocket connection on
  -- which the write succeeds, from a user whose connection takes bytes and has been sent no
  -- header; let the registered streams of the server be open, distinct and below the next
  -- numbers, with IDs left. Then the request waits, and the tunnel has been sent one more frame,
  -- its message. Let a client that reads from a connection that is up, with an open channel and
  -- at most 256 messages, and that has nothing to do with the ID yet, read that frame; let the
  -- target answer, with a header that http.ReadResponse parses. Then whatever the client's
  -- goroutines do next in whatever order, as long as the server does not ask again under that ID
  -- and nothing ends the connection, and whatever frames of other requests and tunnels the server
  -- reads between those of the client, none of another tunnel with that ID: neither side panics;
  -- what the client's writers take is written to the connection; the frames of the request that
  -- the server has read begin those of the answer; and what the user was sent begins the header
  -- of the response and the body, and it is all of it, and the stream has ended, exactly where
  -- the server has read all frames of the answer.
  pub public_request-IsRelayed :
      (read_response : Str → Option Response) (target : Target) (now : ℕ) (r : Request) (key : Str)
      (conn k : ℕ) (bytes : Str) (w : Writer) (s : Server Limiter) (answer : Answer)
      (resp : Response) (events : List Event) (schedule : List (Option Str)) (c : TunnelClient)
      → Open.IsWf s
      → HasIds s
      → IsAccepted lib now r key conn bytes s
      → w.alive ≡ true
      → w.header_written ≡ false
      → IsUnasked (next_id s) k c
      → IsAnswered target read_response bytes answer resp c
      → All (NotAsked (next_id s)) events
      → All Holds events
      → All (IsOther (next_id s)) schedule
      → (s₁ : Server Limiter) × (public_request lib now true r w s
          ≡ ok (waiting (next_id s) s.next_stream, s₁))
        × ((s₁.sockets conn).written
            ≡ (s.sockets conn).written ++ wire_of (request_message (next_id s) bytes) ∷ [])
        × IsRelayed target read_response
            (next_id s)
            k
            s.next_stream
            bytes
            (w.sent
              ++ (head resp.status_code (assign_all resp.header w.header) ++ joined answer.reads))
            answer
            events
            schedule
            c
            s₁
  public_request-IsRelayed read_response target now r key conn k bytes w s answer resp events
        schedule c v ids accepted up fresh unasked answered others held foreign =
      let (s₁, requested, dispatched, forwarded) =
        accepted-IsForwarded lib now r key conn bytes w s accepted up in
      let wf = waiting-IsWf now r conn w s s₁ v ids dispatched in
      let waits : IsWaiting (next_id s) s.next_stream s₁ = record {
        fits = omega arith;
        live = wf.live;
        stream = forwarded.stream;
        fresh = ap (λ x. x.header_written) forwarded.writer ∙ fresh;
      } in
      let relayed =
        mux-IsRelayed target read_response (next_id s) k s.next_stream bytes answer resp events
          schedule c s₁ unasked waits answered others held foreign in
      (
        s₁,
        requested,
        forwarded.frame.2
            ∙ ap (λ (x : Str). (s.sockets conn).written ++ x ∷ [])
                (ap (λ x. elim x [ none ↦ [] | some wire ↦ wire ]) (sym forwarded.frame.1)),
        subst
            (λ (x : Writer).
              IsRelayed target read_response (next_id s) k s.next_stream bytes
                (x.sent
                  ++ (head resp.status_code (assign_all resp.header x.header)
                      ++ joined answer.reads))
                answer events schedule c s₁)
            forwarded.writer relayed,
      )
