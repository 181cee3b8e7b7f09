-- ===== src/Relay/Poll/Recover.antt =====
-- A polling client that the server does not know, for it was cleaned up or the server is new.
use single_proxy.Base.{
  ℕ, Str, Bool, false, length, ◌<◌, codes, [], ◌∷◌, ◌++◌, true, Option, none, some, lookup, nat_beq,
  nat_beq_iff, nat_key, str_key, ◌≡◌, refl, ap, ◌∙◌, arith, lookup-insert_self,
}
use single_proxy.Http.Status.{status_ok, status_not_found}
use single_proxy.Client.Url.{poll_url, register_url}
use single_proxy.Client.Url.Agreement.{http_client-route}
use single_proxy.Client.Poll.{PollingClient, Reply, poll_once, register, after_register}
use single_proxy.Client.Poll.Cycle.{poll_once-registers}
use single_proxy.Server.Writer.{Writer, new_writer}
use single_proxy.Server.State.{Server, ok, capacity, Chan, set_tunnel}
use single_proxy.Server.Polling.{poll_begin, handle_register, registered_body}
use single_proxy.Server.Polling.Answer.{receipt-sent}
use single_proxy.Server.Polling.Channels.{IsPolled, added, register_client-added}
use single_proxy.Server.Polling.Queue.{forward_http-space}
use single_proxy.Server.Public
use single_proxy.Server.Public.{
  admit, admitted, after_admission, public_request, next_id, tunnel_for, dispatch, forward,
  open_stream,
}
use single_proxy.Server.Public.Admit.{admit-only_limiters, admit-clients}
use single_proxy.Server.Public.Open.{request_message}
use single_proxy.Server.Limits.{RateLimiter}
use single_proxy.Protocol.Http.{Request, serialize_http_request}
use single_proxy.Server.Serve.{handle_http_tunnel, on_call, polling_of}
use single_proxy.Relay.Poll.{Link, web_of}
use single_proxy.Relay.Poll.Linked.{IsLinked, unknown_key}

module _ {Limiter : Type 0} (link : Link) (c : PollingClient) (linked : IsLinked link c) where
  get-refused :
      (s : Server Limiter)
      → lookup c.key s.tunnel_clients ≡ none
      → (web_of link).get (poll_url c.server_url c.key) (ok s) ≡ (
        some (record { status_code = status_not_found; body = some (unknown_key ++ 10 ∷ []) }),
        ok s,
      )
  unfolding web_of handle_http_tunnel on_call polling_of poll_begin
  get-refused s unknown =
      rw (linked.poll_path, (http_client-route c.key linked.clear linked.present).1.1)
        (rw (unknown, poll_begin) (ap (λ (r : Option Reply). (r, ok s)) linked.reads_refusal))

  -- The state after the registration.
  abbrev registered : Server Limiter → Server Limiter
  registered s = added link.env.now c.key link.client_addr s

  post-registration :
      (s : Server Limiter)
      → IsPolled s
      → lookup c.key s.tunnel_clients ≡ none
      → (web_of link).post (register_url c.server_url c.key) (codes "application/json") [] (ok s)
        ≡ (
          some (record { status_code = status_ok; body = some registered_body }),
          ok (registered s),
        )
  unfolding web_of handle_http_tunnel on_call handle_register
  post-registration s v unknown =
      rw (linked.register_path, (http_client-route c.key linked.clear linked.present).0.1)
        (rw ((register_client-added link.env.now c.key link.client_addr s v unknown).0) (
          ap (λ (r : Option Reply). (r, ok (registered s)))
            (ap link.read_reply (receipt-sent registered_body new_writer refl refl)
              ∙ linked.reads_receipts registered_body)))

-- A request for the key of a polling client, at a key without a WebSocket.
module _ (lib : RateLimiter) where
  open lib use {Limiter}

  after_admission-polls :
      (delivers : Bool) (r : Request) (w : Writer) (key bytes : Str) (a : ℕ) (s : Server Limiter)
      → lookup key s.client_conns ≡ none
      → lookup key s.tunnel_clients ≡ some a
      → serialize_http_request r ≡ some bytes
      → (s.tunnels a).poll_chan.closed ≡ false
      → length (s.tunnels a).poll_chan.queue < capacity
      → (t : Server Limiter) × (after_admission lib delivers r w (admitted key, s)
          ≡ ok (Public.waiting (next_id s) s.next_stream, t))
        × (lookup (next_id s) t.stream_handlers ≡ some s.next_stream)
        × ((t.tunnels a).poll_chan.queue
            ≡ (s.tunnels a).poll_chan.queue ++ request_message (next_id s) bytes ∷ [])
  unfolding tunnel_for dispatch forward open_stream
  after_admission-polls delivers r w key bytes a s absent known e up room =
      let msg = request_message (next_id s) bytes in
      let sends = forward_http-space msg a (next_id s) s.next_stream (open_stream w s) up room in
      let chan : Chan = record (s.tunnels a).poll_chan {
        queue = (s.tunnels a).poll_chan.queue ++ msg ∷ [];
      } in
      (
        set_tunnel a (record (s.tunnels a) { poll_chan = chan }) (open_stream w s),
        rw (absent, tunnel_for) (rw (known, tunnel_for) (rw (e, dispatch) sends)),
        lookup-insert_self (next_id s) s.next_stream s.stream_handlers,
        ground (arith, nat_beq_iff a a),
      )

  public_request-polls :
      (now : ℕ) (delivers : Bool) (r : Request) (w : Writer) (key bytes : Str) (a : ℕ)
      (s : Server Limiter)
      → (admit lib now r s).0 ≡ admitted key
      → lookup key s.client_conns ≡ none
      → lookup key s.tunnel_clients ≡ some a
      → serialize_http_request r ≡ some bytes
      → (s.tunnels a).poll_chan.closed ≡ false
      → length (s.tunnels a).poll_chan.queue < capacity
      → (t : Server Limiter) × (public_request lib now delivers r w s
          ≡ ok (Public.waiting (next_id s) s.next_stream, t))
        × (lookup (next_id s) t.stream_handlers ≡ some s.next_stream)
        × ((t.tunnels a).poll_chan.queue
            ≡ (s.tunnels a).poll_chan.queue ++ request_message (next_id s) bytes ∷ [])
  unfolding public_request
  public_request-polls now delivers r w key bytes a s passes absent known e up room =
      let limited : Server Limiter = record s {
        ip_limiters = (admit lib now r s).1.ip_limiters;
        key_limiters = (admit lib now r s).1.key_limiters;
      } in
      let (t, waits, handled, queued) =
        after_admission-polls delivers r w key bytes a limited absent known e up room in
      (
        t,
        ap (λ x. after_admission lib delivers r w (x, (admit lib now r s).1)) passes
            ∙ ap (λ x. after_admission lib delivers r w (admitted key, x))
                (admit-only_limiters lib now r s)
            ∙ waits,
        handled,
        queued,
      )

module _ (lib : RateLimiter) (link : Link) (c : PollingClient) (linked : IsLinked link c) where
  open lib use {Limiter}

  -- Let the registered polling clients have open channels of their own with at most ten messages,
  -- and let the client's URLs lead to a server that does not know its key. Then one round of polling
  -- does not fail and registers the client, and the condition still holds. And a request that passes
  -- the rate limits with that key and can be serialised, where no WebSocket is registered for the
  -- key, then waits, registered under its new ID, as the one message in the client's queue.
  pub poll_once-recovers :
      (s : Server Limiter) (now : ℕ) (delivers : Bool) (r : Request) (w : Writer) (bytes : Str)
      → IsPolled s
      → lookup c.key s.tunnel_clients ≡ none
      → lookup c.key s.client_conns ≡ none
      → (admit lib now r s).0 ≡ admitted c.key
      → serialize_http_request r ≡ some bytes
      → (s' t : Server Limiter) × (poll_once (web_of link) c (ok s) ≡ (none, ok s'))
        × IsPolled s'
        × (lookup c.key s'.tunnel_clients ≡ some s.next_tunnel)
        × (public_request lib now delivers r w s'
            ≡ ok (Public.waiting (next_id s') s'.next_stream, t))
        × (lookup (next_id s') t.stream_handlers ≡ some s'.next_stream)
        × ((t.tunnels s.next_tunnel).poll_chan.queue ≡ request_message (next_id s') bytes ∷ [])
  unfolding register after_register
  poll_once-recovers s now delivers r w bytes v unknown absent passes e =
      let posts = post-registration link c linked s v unknown in
      let s' : Server Limiter = registered link c linked s in
      let same : nat_beq s.next_tunnel s.next_tunnel ≡ true =
        ground (arith, nat_beq_iff s.next_tunnel s.next_tunnel) in
      let known = lookup-insert_self c.key s.next_tunnel s.tunnel_clients in
      let (t, waits, handled, queued) =
        public_request-polls lib now delivers r w c.key bytes s.next_tunnel s'
          (admit-clients lib now r s _ _ _ ∙ passes) absent known e (rw (same) refl)
          (rw (same) (omega arith)) in
      (
        s',
        t,
        poll_once-registers (web_of link) c (some (unknown_key ++ 10 ∷ [])) (ok s) (ok s)
              (get-refused link c linked s unknown)
            ∙ ap (after_register (web_of link)) posts,
        (register_client-added link.env.now c.key link.client_addr s v unknown).1,
        known,
        waits,
        handled,
        rw (same) at queued,
      )
