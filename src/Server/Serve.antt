-- ===== src/Server/Serve.antt =====
-- The server's dispatch of a request: ServeHTTP and handleTunnelRegistration of
-- pkg/server/server.go, handleHTTPTunnel of pkg/server/handlers.go. A handler runs up to the point
-- where it waits. The upgrade to a WebSocket is a parameter.
use single_proxy.Base.{
  ℕ, Str, codes, [], Bool, Option, none, some, ◌==◌, nat_key, str_key, if◌then◌else◌,
}
use single_proxy.Http.Status.{status_bad_request}
use single_proxy.Protocol.Http.{Request, Body, no_body, broken, body}
use single_proxy.Server.Writer.{Writer, error}
use single_proxy.Server.Limits.{RateLimiter}
use single_proxy.Server.State.{Server, Outcome, ok, panic, Response}
use single_proxy.Server.Route.{
  Route, route, tunnel_registration, http_tunnel, http_proxy, public_request, tunnel_key,
  tunnel_call, TunnelCall, register, poll, response, bad_format, empty_key, bad_operation,
}
use single_proxy.Server.Tunnel.{register_tunnel}
use single_proxy.Server.Polling.{
  Polling, answered, waiting, handle_register, poll_begin, handle_response,
}
use single_proxy.Server.Proxy.{Network, handle_proxy}
use single_proxy.Server.Public
use single_proxy.Server.Public.{Progress}

-- How far a handler gets: it returns, or it waits in the select of a poll, in that of a public
-- request with an ID and a stream, or in the read loop of a connection for a key.
pub data Served : Type 0 where
  finished : Writer → Served
  polls : ℕ → Writer → Served
  waits : ℕ → ℕ → Served
  runs_tunnel : ℕ → Str → Writer → Served

-- What a request meets outside the server: the time, the bytes that its body gives, its network,
-- whether the write to its tunnel succeeds, the upgrade and the connection that it makes.
pub record Surroundings : Type 0 where
  pub now : ℕ
  pub network : Network
  pub delivers : Bool
  -- p.upgrader.Upgrade: whether it succeeds, and the writer after it
  pub upgrade : Request → Writer → Bool × Writer
  pub conn : ℕ
  pub read_response : Str → Option Response

-- io.ReadAll of the body of a request.
abbrev pub read_all : Body → Option Str
read_all no_body = some []
read_all broken = none
read_all (body bytes) = some bytes

module _ {Limiter : Type 0} where
  unfoldable pub polling_of : Polling × Server Limiter → Served × Server Limiter
  polling_of (answered w, s) = (finished w, s)
  polling_of (waiting a w, s) = (polls a w, s)

  unfoldable pub returned : Outcome (Writer × Server Limiter) → Outcome (Served × Server Limiter)
  returned (ok (w, s)) = ok (finished w, s)
  returned (panic p) = panic p

  unfoldable pub on_call :
      Surroundings
      → Request
      → Writer
      → Server Limiter
      → TunnelCall
      → Outcome (Served × Server Limiter)
  unfolding polling_of returned
  on_call env r w s (register key) =
      returned (handle_register env.now r.method key r.remote_addr w s)
  on_call env r w s (poll key) = ok (polling_of (poll_begin env.now r.method key w s))
  on_call env r w s (response key) =
      returned (handle_response env.read_response env.now r.method key (read_all r.content) w s)
  on_call env r w s bad_format = ok (
    finished (
        error (codes "Invalid HTTP tunnel path format. Use: /http-tunnel/{operation}/{key}")
          status_bad_request w),
    s,
  )
  on_call env r w s empty_key =
      ok (finished (error (codes "Tunnel key cannot be empty") status_bad_request w), s)
  on_call env r w s bad_operation = ok (
    finished
        (error (codes "Invalid operation. Use: register, poll, or response") status_bad_request w),
    s,
  )

  -- handleHTTPTunnel
  unfoldable pub handle_http_tunnel :
      Surroundings → Request → Writer → Server Limiter → Outcome (Served × Server Limiter)
  unfolding on_call
  handle_http_tunnel env r w s = on_call env r w s (tunnel_call r.path)

  -- handleTunnelRegistration; the upgrade has answered the request where it fails.
  unfoldable pub handle_tunnel_registration :
      Surroundings → Request → Writer → Server Limiter → Served × Server Limiter
  handle_tunnel_registration env r w s =
      let key = tunnel_key r.path in
      let upgraded = env.upgrade r w in
      if key == []
      then (finished (error (codes "Tunnel key cannot be empty") status_bad_request w), s)
      else if upgraded.0
      then (runs_tunnel env.conn key upgraded.1, register_tunnel key env.conn s)
      else (finished upgraded.1, s)

  unfoldable pub public_of : Outcome (Progress × Server Limiter) → Outcome (Served × Server Limiter)
  public_of (ok (Public.answered w, s)) = ok (finished w, s)
  public_of (ok (Public.waiting id a, s)) = ok (waits id a, s)
  public_of (panic p) = panic p

  unfoldable pub proxied : Writer × Server Limiter → Outcome (Served × Server Limiter)
  proxied (w, s) = ok (finished w, s)

module _ (lib : RateLimiter) where
  open lib use {Limiter}

  unfoldable pub on_route :
      Surroundings → Request → Writer → Server Limiter → Route → Outcome (Served × Server Limiter)
  unfolding public_of proxied
  on_route env r w s tunnel_registration = ok (handle_tunnel_registration env r w s)
  on_route env r w s http_tunnel = handle_http_tunnel env r w s
  on_route env r w s http_proxy = proxied (handle_proxy lib env.now env.network r w s)
  on_route env r w s public_request =
      public_of (Public.public_request lib env.now env.delivers r w s)

  -- ServeHTTP
  unfoldable pub serve_http :
      Surroundings → Request → Writer → Server Limiter → Outcome (Served × Server Limiter)
  unfolding on_route
  serve_http env r w s = on_route env r w s (route r.path)
