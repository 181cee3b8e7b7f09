-- ===== src/Relay/Request.antt =====
-- A public request from its arrival to the end of its response: handlePublicHTTPRequest and
-- clientReadLoop (pkg/server/handlers.go) with the client's messages (pkg/client/client.go) between.
use single_proxy.Protocol.Wire.{wire_of}
use single_proxy.Base.{
  ℕ, ◌^◌, ◌<◌, Str, [], ◌∷◌, ◌++◌, map, Bool, true, false, Option, some, lookup, nat_key, str_key,
  ◌≡◌, refl, ap, ◌∙◌, arith,
}
use single_proxy.Http.Header.{assign_all}
use single_proxy.Protocol.Http.{Request, serialize_http_request}
use single_proxy.Protocol.Message.{deserialize_tunnel_message}
use single_proxy.Protocol.RoundTrip.{deserialize-serialize}
use single_proxy.Client.Stream.{Answer, request_messages, head_payload}
use single_proxy.Server.Writer.{Writer}
use single_proxy.Server.Writer.Response.{head}
use single_proxy.Server.Limits.{RateLimiter}
use single_proxy.Server.State.{Server, ok, Response}
use single_proxy.Server.Tunnel.{on_frames}
use single_proxy.Server.Public.{
  waiting, admit, admitted, after_admission, public_request, dispatch, tunnel_for, ws_tunnel,
  next_id, finish_done,
}
use single_proxy.Server.Public.Admit.{admit-only_limiters}
use single_proxy.Server.Public.Open.{request_message, IsForwarded, dispatch_ws-IsForwarded}
use single_proxy.Server.Public.Relay.{joined}
use single_proxy.Relay.{relay-answer}

module _ (lib : RateLimiter) where
  open lib use {Limiter}

  -- The state after the rate limits.
  abbrev pub limited : ℕ → Request → Server Limiter → Server Limiter
  limited now r s = record s {
    ip_limiters = (admit lib now r s).1.ip_limiters;
    key_limiters = (admit lib now r s).1.key_limiters;
  }

  public_request-admitted :
      (now : ℕ) (delivers : Bool) (r : Request) (key : Str) (w : Writer) (s : Server Limiter)
      → (admit lib now r s).0 ≡ admitted key
      → public_request lib now delivers r w s
        ≡ dispatch delivers (tunnel_for key (limited now r s)) r w (limited now r s)
  unfolding public_request
  public_request-admitted now delivers r key w s e =
      ap (λ a. after_admission lib delivers r w (a, (admit lib now r s).1)) e
      ∙ ap (λ x. dispatch delivers (tunnel_for key x) r w x) (admit-only_limiters lib now r s)

  tunnel_for-conn :
      (key : Str) (conn : ℕ) (s : Server Limiter)
      → lookup key s.client_conns ≡ some conn
      → tunnel_for key s ≡ ws_tunnel conn
  unfolding tunnel_for
  tunnel_for-conn key conn s e = rw (e, tunnel_for)

  -- A request that the rate limits admit for a key whose WebSocket connection is open.
  pub record IsAccepted (now : ℕ) (r : Request) (key : Str) (conn : ℕ) (bytes : Str)
      (s : Server Limiter) : Type 0 where
    pub within_limits : (admit lib now r s).0 ≡ admitted key
    pub connected : lookup key s.client_conns ≡ some conn
    pub conn_open : (s.sockets conn).closed ≡ false
    pub serialized : serialize_http_request r ≡ some bytes

  -- A request that is accepted is forwarded, and waits.
  pub accepted-IsForwarded :
      (now : ℕ) (r : Request) (key : Str) (conn : ℕ) (bytes : Str) (w : Writer) (s : Server Limiter)
      → IsAccepted now r key conn bytes s
      → w.alive ≡ true
      → (s₁ : Server Limiter) × (public_request lib now true r w s
          ≡ ok (waiting (next_id s) s.next_stream, s₁))
        × (dispatch true (ws_tunnel conn) r w (limited now r s)
            ≡ ok (waiting (next_id s) s.next_stream, s₁))
        × IsForwarded conn bytes w (limited now r s) s₁
  accepted-IsForwarded now r key conn bytes w s accepted up =
      let (s₁, dispatched, forwarded) =
        dispatch_ws-IsForwarded conn r bytes w (limited now r s) accepted.serialized
          accepted.conn_open up in
      (
        s₁,
        public_request-admitted now true r key w s accepted.within_limits
            ∙ (ap (λ t. dispatch true t r w (limited now r s))
                  (tunnel_for-conn key conn (limited now r s) accepted.connected)
                ∙ dispatched),
        dispatched,
        forwarded,
      )

  -- Take a request that the rate limits admit, that serialises to `bytes`, and whose key has an open
  -- WebSocket connection on which the write succeeds, from a user whose connection takes bytes and
  -- has been sent no header. Then the request waits, and the tunnel's client has been sent one
  -- more frame, which decodes to the new ID, the type of a request and `bytes`. If the target then
  -- answers with a header that http.ReadResponse parses to `resp`, reading the client's frames does
  -- not panic, the wait ends, and the user has been sent the header of `resp` and the whole body.
  pub relay-request :
      (read_response : Str → Option Response) (now : ℕ) (r : Request) (key : Str) (conn : ℕ)
      (bytes : Str) (w : Writer) (s : Server Limiter) (target : Answer) (resp : Response)
      → IsAccepted now r key conn bytes s
      → w.alive ≡ true
      → w.header_written ≡ false
      → read_response (head_payload target) ≡ some resp
      → (s₁ s₂ : Server Limiter) × (sent : Str) × (public_request lib now true r w s
          ≡ ok (waiting (next_id s) s.next_stream, s₁))
        × ((s₁.sockets conn).written ≡ (s.sockets conn).written ++ sent ∷ [])
        × (deserialize_tunnel_message sent ≡ some (request_message (next_id s) bytes))
        × (on_frames read_response (map wire_of (request_messages (next_id s) (some target))) s₁
            ≡ ok s₂)
        × ((s₂.streams s.next_stream).done ≡ true)
        × ((finish_done (next_id s) s.next_stream s₂).0.sent
            ≡ w.sent
              ++ (head resp.status_code (assign_all resp.header w.header) ++ joined target.reads))
  relay-request read_response now r key conn bytes w s target resp accepted up fresh parsed =
      let (s₁, requested, dispatched, forwarded) =
        accepted-IsForwarded now r key conn bytes w s accepted up in
      let fits : next_id s < 2 ^ 64 = omega arith in
      let (s₂, answered, ended) =
        relay-answer read_response (next_id s) s.next_stream target resp s₁ fits forwarded.stream
          (rw (forwarded.writer) fresh) parsed in
      (
        s₁,
        s₂,
        forwarded.frame.0,
        requested,
        forwarded.frame.2,
        deserialize-serialize (request_message (next_id s) bytes) forwarded.frame.0
            (record { id_fits = fits; type_fits = omega arith }) forwarded.frame.1,
        answered,
        ended.done,
        ended.sent ∙ rw (forwarded.writer) refl,
      )
