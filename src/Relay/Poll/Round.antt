-- ===== src/Relay/Poll/Round.antt =====
-- A round of the polling client with the server.
use single_proxy.Base.{
  ℕ, ◌^◌, ◌<◌, Str, codes, List, ◌∷◌, ◌++◌, true, false, Option, none, some, lookup, nat_key,
  str_key, nat_beq_iff, ◌≡◌, ◌⊎◌, refl, ap, ◌∙◌, arith,
}
use single_proxy.Http.Header.{add_all}
use single_proxy.Http.Status.{status_ok}
use single_proxy.Protocol.Http.{Request}
use single_proxy.Protocol.Message.{TunnelMessage}
use single_proxy.Protocol.Wire.{wire_of, deserialize-wire_of}
use single_proxy.Client.Url.{poll_url}
use single_proxy.Client.Url.Agreement.{http_client-route}
use single_proxy.Client.Poll.{
  PollingClient, Reply, Answered, poll_once, after_post, response_message, answer_text, target_url,
  target_request,
}
use single_proxy.Client.Poll.Cycle.{posted, poll_once-answers}
use single_proxy.Server.Public.Open.{request_message}
use single_proxy.Server.Public.Relay.{IsOpen}
use single_proxy.Server.Polling.Answer.{IsAnswered, handle_response-IsAnswered}
use single_proxy.Server.Writer.{Writer, new_writer}
use single_proxy.Server.Writer.Response.{head}
use single_proxy.Server.State.{Server, ok, Chan, Response, set_tunnel}
use single_proxy.Server.Polling.{waiting, poll_begin, channel, touch, json_type, received_body}
use single_proxy.Server.Polling.Queue.{poll_end-message, written-head}
use single_proxy.Server.Serve.{handle_http_tunnel, on_call, polling_of}
use single_proxy.Relay.Poll.{Link, web_of, ready}
use single_proxy.Relay.Poll.Linked.{IsLinked}

touched :
    {Limiter : Type 0}
    → (now a : ℕ) (s : Server Limiter)
    → ((touch now a s).tunnels a).poll_chan ≡ (s.tunnels a).poll_chan
touched now a s = ground (arith, nat_beq_iff a a)

ready-channel :
    (c : Chan) (first : TunnelMessage) (rest : List TunnelMessage)
    → c.queue ≡ first ∷ rest
    → ready c ≡ channel
ready-channel c first rest e = rw (e)

module _ {Limiter : Type 0} where
  -- What a round does for the stream of the first request of the queue.
  pub record IsServed (k a : ℕ) (bytes : Str) (rest : List TunnelMessage) (s s' : Server Limiter)
      : Type 0 where
    pub sent : (s'.streams a).writer.sent ≡ bytes
    pub done : (s'.streams a).done ≡ true
    pub clients : s'.tunnel_clients ≡ s.tunnel_clients
    pub handlers : s'.stream_handlers ≡ s.stream_handlers
    pub others : (b : ℕ) → (a ≡ b) ⊎ (s'.streams b ≡ s.streams b)
    pub left : (s'.tunnels k).poll_chan.queue ≡ rest

module _ {Limiter : Type 0} (link : Link) (c : PollingClient) (linked : IsLinked link c) where
  poll_begin-waits :
      (a now : ℕ) (w : Writer) (s : Server Limiter)
      → lookup c.key s.tunnel_clients ≡ some a
      → poll_begin now (codes "GET") c.key w s ≡ (waiting a (json_type w), touch now a s)
  unfolding poll_begin
  poll_begin-waits a now w s e = rw (e, poll_begin)

  -- The state after a poll that took the first message.
  abbrev taken : ℕ → List TunnelMessage → Server Limiter → Server Limiter
  taken a rest s =
      let t = touch link.env.now a s in
      set_tunnel a
        (record (t.tunnels a) {
          poll_chan = record { queue = rest; closed = (t.tunnels a).poll_chan.closed };
        })
        t

  get-message :
      (a : ℕ) (first : TunnelMessage) (rest : List TunnelMessage) (s : Server Limiter)
      → lookup c.key s.tunnel_clients ≡ some a
      → (s.tunnels a).poll_chan.queue ≡ first ∷ rest
      → (web_of link).get (poll_url c.server_url c.key) (ok s) ≡ (
        some (record { status_code = status_ok; body = some (wire_of first) }),
        ok (taken a rest s),
      )
  unfolding web_of handle_http_tunnel on_call polling_of
  get-message a first rest s e queued =
      let q : ((touch link.env.now a s).tunnels a).poll_chan.queue ≡ first ∷ rest =
        ap (λ ch. ch.queue) (touched link.env.now a s) ∙ queued in
      rw (linked.poll_path, (http_client-route c.key linked.clear linked.present).1.1)
        (rw (poll_begin-waits a link.env.now new_writer s e) (
          rw
            (
              ready-channel ((touch link.env.now a s).tunnels a).poll_chan first rest q,
              poll_end-message first rest a (json_type new_writer) (touch link.env.now a s) q,
            )
            (ap (λ (r : Option Reply). (r, ok (taken a rest s)))
              (ap link.read_reply (written-head (wire_of first) (json_type new_writer) refl refl)
                ∙ linked.reads_messages (wire_of first)))))

  -- A post of a response for a stream that waits, and of a registration.
  post-response :
      (k id a : ℕ) (text body : Str) (resp : Response) (s : Server Limiter)
      → id < 2 ^ 64
      → lookup c.key s.tunnel_clients ≡ some k
      → IsOpen id a s
      → (s.streams a).writer.header_written ≡ false
      → link.env.read_response text ≡ some resp
      → resp.body ≡ some body
      → (s' : Server Limiter) × (posted (web_of link) c id text (ok s)
          ≡ (some (record { status_code = status_ok; body = some received_body }), ok s'))
        × IsAnswered link.env.read_response a
            ((s.streams a).writer.sent
              ++ (head resp.status_code (add_all resp.header (s.streams a).writer.header) ++ body))
            s
            s'
  unfolding web_of handle_http_tunnel on_call
  post-response k id a text body resp s fits e o fresh parsed whole =
      let (w', s', done, sent, answered) =
        handle_response-IsAnswered link.env.read_response link.env.now k id a c.key
          (wire_of (response_message id text)) text body resp new_writer s e
          (deserialize-wire_of (response_message id text)
            (record { id_fits = fits; type_fits = omega arith }))
          o fresh parsed whole refl refl in
      (
        s',
        rw (linked.response_path, (http_client-route c.key linked.clear linked.present).2.1)
            (rw (done) (
              ap (λ (r : Option Reply). (r, ok s'))
                (ap link.read_reply sent ∙ linked.reads_receipts received_body))),
        answered,
      )

  pub poll-round :
      (k id a : ℕ) (payload : Str) (rest : List TunnelMessage) (r : Request) (answer : Answered)
      (text_body body : Str) (resp : Response) (s : Server Limiter)
      → id < 2 ^ 64
      → lookup c.key s.tunnel_clients ≡ some k
      → (s.tunnels k).poll_chan.queue ≡ request_message id payload ∷ rest
      → IsOpen id a s
      → (s.streams a).writer.header_written ≡ false
      → link.read_request payload ≡ some r
      → link.makes_request r.method (target_url c r) ≡ true
      → link.target (target_request c r) ≡ some answer
      → answer.body ≡ some text_body
      → link.env.read_response (answer_text answer text_body) ≡ some resp
      → resp.body ≡ some body
      → (s' : Server Limiter) × (poll_once (web_of link) c (ok s) ≡ (none, ok s'))
        × IsServed k a
            ((s.streams a).writer.sent
              ++ (head resp.status_code (add_all resp.header (s.streams a).writer.header) ++ body))
            rest
            s
            s'
  unfolding web_of after_post
  poll-round k id a payload rest r answer text_body body resp s fits e queued o fresh parses makes
        answers whole reads complete =
      let msg : TunnelMessage = request_message id payload in
      let polled = get-message k msg rest s e queued in
      let o' : IsOpen id a (taken k rest s) = record {
        registered = o.registered;
        pending = o.pending;
        up = o.up;
      } in
      let (s', posts, answered) =
        post-response k id a (answer_text answer text_body) body resp (taken k rest s) fits e o'
          fresh reads complete in
      (
        s',
        poll_once-answers (web_of link) c (wire_of msg) payload id r answer text_body (ok s)
              (ok (taken k rest s)) (ok (taken k rest s)) polled
              (deserialize-wire_of msg (record { id_fits = fits; type_fits = omega arith })) parses
              makes (ap (λ (x : Option Answered). (x, ok (taken k rest s))) answers) whole
            ∙ ap (after_post (web_of link)) posts,
        record {
          sent = answered.sent;
          done = answered.done;
          clients = answered.clients;
          handlers = answered.handlers;
          others = answered.others;
          left = ap (λ ch. ch.queue) (answered.queues k) ∙ ground (arith, nat_beq_iff k k);
        },
      )

  -- Take a polling client whose URLs lead to the server and whose key is registered, and let its
  -- queue start with a request that waits on an open stream which has been sent no header. If the
  -- request parses, the target answers it with a body that can be read, and http.ReadResponse parses
  -- the client's text of that answer to `resp`, then one round of polling neither fails nor panics
  -- the server, the outside user has been sent the status and the added headers of `resp` and its
  -- whole body, the stream has ended, and the same polling clients are registered.
  pub relay-poll :
      (k id a : ℕ) (payload : Str) (rest : List TunnelMessage) (r : Request) (answer : Answered)
      (text_body body : Str) (resp : Response) (s : Server Limiter)
      → id < 2 ^ 64
      → lookup c.key s.tunnel_clients ≡ some k
      → (s.tunnels k).poll_chan.queue ≡ request_message id payload ∷ rest
      → IsOpen id a s
      → (s.streams a).writer.header_written ≡ false
      → link.read_request payload ≡ some r
      → link.makes_request r.method (target_url c r) ≡ true
      → link.target (target_request c r) ≡ some answer
      → answer.body ≡ some text_body
      → link.env.read_response (answer_text answer text_body) ≡ some resp
      → resp.body ≡ some body
      → (s' : Server Limiter) × (poll_once (web_of link) c (ok s) ≡ (none, ok s'))
        × ((s'.streams a).writer.sent
            ≡ (s.streams a).writer.sent
              ++ (head resp.status_code (add_all resp.header (s.streams a).writer.header) ++ body))
        × ((s'.streams a).done ≡ true)
        × (s'.tunnel_clients ≡ s.tunnel_clients)
  relay-poll k id a payload rest r answer text_body body resp s fits e queued o fresh parses makes
        answers whole reads complete =
      let (s', polls, served) =
        poll-round k id a payload rest r answer text_body body resp s fits e queued o fresh parses
          makes answers whole reads complete in
      (s', polls, served.sent, served.done, served.clients)
