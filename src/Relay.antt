-- ===== src/Relay.antt =====
-- From end to end: the WebSocket client's messages (pkg/client/client.go), their wire format
-- (pkg/protocol/message.go) and the server that reads them (pkg/server/handlers.go).
pub mod Request
pub mod Poll
pub mod Stale
pub mod Mux
mod Tests
use mathlib.Core.Path.{fun_ext}
use single_proxy.Protocol.Wire.{wire_of, deserialize-wire_of, serialize-wire_of}
use single_proxy.Base.{
  ℕ, ◌^◌, ◌<◌, Str, List, [], ◌∷◌, ◌++◌, map, Bool, true, false, Option, none, some, lookup,
  nat_key, All, ◌≡◌, refl, ap, ◌∙◌, arith,
}
use single_proxy.Http.Header.{assign_all}
use single_proxy.Protocol.Message.{
  TunnelMessage, IsValid, serialize_tunnel_message, deserialize_tunnel_message,
}
use single_proxy.Protocol.RoundTrip.{deserialize-serialize}
use single_proxy.Client.Stream.{Answer, body_messages, request_messages, head_payload}
use single_proxy.Server.Writer.{Writer}
use single_proxy.Server.Writer.Response.{head}
use single_proxy.Server.State.{Server, Outcome, ok, ◌>>=◌, Stream, Response}
use single_proxy.Server.Tunnel.{on_message, on_frame, on_frames}
use single_proxy.Server.Public.Relay.{joined, on_messages, IsOpen, IsEnded, relay-messages}

body_messages-IsValid :
    (id : ℕ) (reads : List Str) → id < 2 ^ 64 → All IsValid (body_messages id reads)
unfolding body_messages
body_messages-IsValid id [] h = (record { id_fits = h; type_fits = omega arith }, tt)
body_messages-IsValid id ([] ∷ reads) h = body_messages-IsValid id reads h
body_messages-IsValid id ((b ∷ bytes) ∷ reads) h =
    (record { id_fits = h; type_fits = omega arith }, body_messages-IsValid id reads h)

pub answer-IsValid :
    (id : ℕ) (r : Answer) → id < 2 ^ 64 → All IsValid (request_messages id (some r))
unfolding request_messages
answer-IsValid id r fits =
    (record { id_fits = fits; type_fits = omega arith }, body_messages-IsValid id r.reads fits)

module _ {Limiter : Type 0} (read_response : Str → Option Response) where
  pub on_frames-wire_of :
      (ms : List TunnelMessage) (s : Server Limiter)
      → All IsValid ms
      → on_frames read_response (map wire_of ms) s ≡ on_messages read_response ms s
  unfolding on_frames on_frame
  on_frames-wire_of [] s v = refl
  on_frames-wire_of (m ∷ ms) s v =
      rw (deserialize-wire_of m v.0, on_frame)
        (ap (λ (k : Server Limiter → Outcome (Server Limiter)). on_message read_response m s >>= k)
          (fun_ext (λ x. on_frames-wire_of ms x v.1)))

  -- Take a request that waits on an open stream which has sent nothing, and let the client's target
  -- answer it, with a header that http.ReadResponse parses to `resp` and a body that is read in any
  -- pieces. Then the server, reading the client's frames, does not panic; the outside user has been
  -- sent the status line and headers of `resp` and the whole body in order; the stream has ended and
  -- is registered no more; and all other streams and requests are as before.
  pub relay-answer :
      (id a : ℕ) (r : Answer) (resp : Response) (s : Server Limiter)
      → id < 2 ^ 64
      → IsOpen id a s
      → (s.streams a).writer.header_written ≡ false
      → read_response (head_payload r) ≡ some resp
      → (s' : Server Limiter) × (on_frames read_response
            (map wire_of (request_messages id (some r)))
            s
          ≡ ok s')
        × IsEnded id a
            ((s.streams a).writer.sent
              ++ (head resp.status_code (assign_all resp.header (s.streams a).writer.header)
                  ++ joined r.reads))
            s
            s'
  unfolding request_messages
  relay-answer id a r resp s fits o fresh parsed =
      let (s', e, ended) = relay-messages read_response id a r resp s o fresh parsed in
      (s', on_frames-wire_of (request_messages id (some r)) s (answer-IsValid id r fits) ∙ e, ended)
