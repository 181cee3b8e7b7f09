-- ===== src/Server/System.antt =====
-- The server's steps, in any order: frames of tunnel clients, registrations, ends of read loops,
-- public requests and timeouts (pkg/server/handlers.go, pkg/server/server.go). A step is a critical
-- section, or a run up to a wait, as the modules of Server give them. A public request keeps no lock
-- on its way, so that it is three steps too, which other steps may come between: its admission, the
-- registration of its stream, and the call of WriteMessage. That call itself is one step: what
-- gorilla does where two of them overlap on one connection is not modelled, and Overlap shows that
-- the code lets requests come there together.
pub mod Frame
pub mod Safe
pub mod Over
pub mod Rests
pub mod Timeout
pub mod Overlap
mod Tests
use single_proxy.Base.{
  ℕ, ◌+◌, ◌%◌, ◌^◌, ◌≤◌, ◌<◌, Str, List, [], ◌∷◌, Bool, Option, none, some, lookup, str_key, ◌≡◌,
  refl, ap, sym, ◌∙◌, arith, Map, Option-cases, length, inl, inr,
}
use single_proxy.Protocol.Http.{Request, serialize_http_request}
use single_proxy.Server.Writer.{Writer}
use single_proxy.Server.Limits.{RateLimiter}
use single_proxy.Server.State.{Server, Outcome, ok, panic, ◌>>=◌, Response}
use single_proxy.Server.Tunnel.{on_frame, register_tunnel, read_loop_exit}
use single_proxy.Server.Tunnel.Live.{IsLive, Keeps}
use single_proxy.Server.Public.{
  Progress, public_request, admit, open_stream, forward_ws, finish_timeout,
}

pub data Event : Type 0 where
  -- the bytes of one message from a tunnel client
  frame : Str → Event
  -- an upgraded connection registers for a key; the read loop of a connection ends
  registers : Str → ℕ → Event
  exits : ℕ → Str → Event
  -- a public request that nothing comes between: the time, whether a write to its tunnel succeeds, and its writer
  requests : ℕ → Bool → Request → Writer → Event
  -- its parts, with other steps between them: the rate limits; a new ID and stream; the message with
  -- these bytes, if it could be encoded, for a connection, from the request with an ID and a stream
  admits : ℕ → Request → Event
  opens : Writer → Event
  sends : Bool → Option Str → ℕ → ℕ → ℕ → Event
  -- the timer of the request with an ID and a stream
  times_out : ℕ → ℕ → Event

module _ {Limiter : Type 0} where
  abbrev pub state_of : Outcome (Progress × Server Limiter) → Outcome (Server Limiter)
  state_of (ok (p, s)) = ok s
  state_of (panic p) = panic p

module _ (lib : RateLimiter) (read_response : Str → Option Response) where
  open lib use {Limiter}

  unfoldable pub happen : Event → Server Limiter → Outcome (Server Limiter)
  happen (frame wire) s = on_frame read_response wire s
  happen (registers key conn) s = ok (register_tunnel key conn s)
  happen (exits conn key) s = ok (read_loop_exit conn key s)
  happen (requests now delivers r w) s = state_of (public_request lib now delivers r w s)
  happen (admits now r) s = ok (admit lib now r s).1
  happen (opens w) s = ok (open_stream w s)
  happen (sends delivers bytes conn id a) s = ok (forward_ws delivers bytes conn id a s).1
  happen (times_out id a) s = ok (finish_timeout id a s).1

  unfoldable pub happen_all : List Event → Server Limiter → Outcome (Server Limiter)
  happen_all [] s = ok s
  happen_all (e ∷ es) s = happen e s >>= happen_all es
