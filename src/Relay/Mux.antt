-- ===== src/Relay/Mux.antt =====
-- Requests that share a tunnel, from end to end: the goroutines of the WebSocket client
-- (pkg/client/client.go) in any order, and the server (pkg/server/handlers.go) that reads what they
-- write among the frames of other tunnels.
pub mod Client
pub mod Frames
pub mod Request
pub mod Complete
mod Tests
use mathlib.Core.Path.{subst}
use single_proxy.Base.{
  ℕ, ◌+◌, ◌<◌, ◌^◌, Str, List, [], ◌∷◌, ◌++◌, Bool, true, false, Option, none, some, All, map, ◌==◌,
  nat_key, nat_beq_iff, ◌≡◌, refl, sym, ap, ◌∙◌, arith, inl, inr, Bool-cases, append_assoc,
  append-nil,
}
use single_proxy.Http.Header.{assign_all}
use single_proxy.Protocol.Message.{IsValid}
use single_proxy.Protocol.Wire.{wire_of, deserialize-wire_of}
use single_proxy.Client.Stream.{Answer, request_messages, head_payload}
use single_proxy.Client.Tunnel.{TunnelClient}
use single_proxy.Client.Tunnel.Loops.{Target, Moved, quiet, answer_to, on_data, on_decoded}
use single_proxy.Client.Tunnel.Steps.{Event, reads, happen_all}
use single_proxy.Client.Tunnel.Steps.Rounds.{own, texts}
use single_proxy.Client.Tunnel.Steps.Order.{InOrder, happen_all-next, both}
use single_proxy.Client.Tunnel.Steps.Messages.{on_data-Step}
use single_proxy.Client.Tunnel.Steps.Answers.{answer-tested}
use single_proxy.Client.Tunnel.Steps.Sole.{Sole, NoneMine, NotAsked, Shared, IfMoved, update-Sole}
use single_proxy.Client.Tunnel.Steps.Own.{frames_of-append, happen_all-Shared}
use single_proxy.Client.Tunnel.Steps.Delivered.{
  Holds, IsUp, Delivers, happen_all-Delivers, quiet-Delivers,
}
use single_proxy.Client.Tunnel.Steps.Rounds
use single_proxy.Server.Writer.Response.{head}
use single_proxy.Server.State.{Server, Outcome, ok, update, Response}
use single_proxy.Server.Tunnel.{on_frames}
use single_proxy.Server.Tunnel.Live.{IsLive}
use single_proxy.Server.Tunnel.Streams.{concerns, frames_of}
use single_proxy.Server.Public.Open.{request_message}
use single_proxy.Server.Public.Relay.{joined, IsOpen}
use single_proxy.Server.Public.Prefix.{IsPart}
use single_proxy.Relay.Mux.Frames.{mix, IsOther, mix-frames_of, frames-IsPart}
use single_proxy.Relay.Mux.Client.{IsUnasked, asked_frames}

-- The target answers the payload, and http.ReadResponse parses the header of the answer.
pub record IsAnswered (target : Target) (read_response : Str → Option Response) (payload : Str)
    (r : Answer) (resp : Response) (c : TunnelClient) : Type 0 where
  pub answered : answer_to target c payload ≡ some r
  pub parsed : read_response (head_payload r) ≡ some resp

module _ {Limiter : Type 0} where
  -- A request waits on an open stream that has sent nothing.
  pub record IsWaiting (id a : ℕ) (s : Server Limiter) : Type 0 where
    pub fits : id < 2 ^ 64
    pub live : IsLive s
    pub stream : IsOpen id a s
    pub fresh : (s.streams a).writer.header_written ≡ false

-- What becomes of a request with the answer `r` while the client goes through `events`, and the
-- server through the frames that the schedule gives: the client does not panic, what its writers
-- take is written to connection `k`, the server does not panic, its frames of the request begin those
-- of the answer, and what the user was sent begins the bytes, and is all of them, and the stream has
-- ended, exactly where no frame is to come.
pub record IsRelayed {Limiter : Type 0} (target : Target) (read_response : Str → Option Response)
    (id k a : ℕ) (payload bytes : Str) (r : Answer) (events : List Event)
    (schedule : List (Option Str)) (c : TunnelClient) (s : Server Limiter) : Type 0 where
  pub moved : Moved
  pub after : Server Limiter
  pub coming : List Str
  pub runs : happen_all target (reads (wire_of (request_message id payload)) ∷ events) c ≡ ok moved
  pub written_to : (moved.after.conns k).written ≡ (c.conns k).written ++ moved.taken
  pub read_by : on_frames read_response (mix schedule moved.taken) s ≡ ok after
  pub begins :
      frames_of id (mix schedule moved.taken) ++ coming ≡ map wire_of (request_messages id (some r))
  pub part : IsPart a bytes coming after

module _ {Limiter : Type 0} (target : Target) (read_response : Str → Option Response) where
  -- The same of a request that waits: what the user is sent is a matter of its own frames, in
  -- whatever order the goroutines of the client take turns, and whatever else the server reads.
  pub mux-IsRelayed :
      (id k a : ℕ) (payload : Str) (r : Answer) (resp : Response) (events : List Event)
      (schedule : List (Option Str)) (c : TunnelClient) (s : Server Limiter)
      → IsUnasked id k c
      → IsWaiting id a s
      → IsAnswered target read_response payload r resp c
      → All (NotAsked id) events
      → All Holds events
      → All (IsOther id) schedule
      → IsRelayed target read_response id k a payload
          ((s.streams a).writer.sent
            ++ (head resp.status_code (assign_all resp.header (s.streams a).writer.header)
                ++ joined r.reads))
          r
          events
          schedule
          c
          s
  mux-IsRelayed id k a payload r resp events schedule c s u waits answer others held foreign =
      let (m, run, written, untaken, begins) =
        asked_frames target id k payload events c waits.fits u others held in
      let (unread, start) = mix-frames_of id schedule m.taken foreign in
      let coming = unread ++ untaken in
      let whole : frames_of id (mix schedule m.taken) ++ coming
          ≡ map wire_of (request_messages id (some r)) =
        sym (append_assoc (frames_of id (mix schedule m.taken)) unread untaken)
        ∙ ap (λ (x : List Str). x ++ untaken) start
        ∙ begins
        ∙ ap (λ (x : Option Answer). map wire_of (request_messages id x)) answer.answered in
      let (s', f, part) =
        frames-IsPart read_response id a r resp s (mix schedule m.taken) coming waits.fits
          waits.live waits.stream waits.fresh answer.parsed whole in
      record {
        moved = m;
        after = s';
        coming = coming;
        runs = run;
        written_to = written;
        read_by = f;
        begins = whole;
        part = part;
      }
