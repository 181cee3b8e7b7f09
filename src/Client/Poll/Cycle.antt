-- ===== src/Client/Poll/Cycle.antt =====
-- What one round of the polling client does.
use single_proxy.Protocol.Wire.{wire_of, serialize-wire_of}
use single_proxy.Base.{
  ℕ, Str, codes, true, false, ◌⊎◌, refl, Option, none, some, ◌≡◌, ◌∙◌, Option-cases, Bool-cases,
  inl, inr,
}
use single_proxy.Http.Status.{status_ok, status_not_found}
use single_proxy.Protocol.Http.{Request}
use single_proxy.Protocol.Message.{TunnelMessage, deserialize_tunnel_message, msg_type_http_req}
use single_proxy.Client.Url.{poll_url, response_url}
use single_proxy.Client.Poll.{
  PollingClient, Reply, Answered, Web, poll_once, after_poll, handle_bytes, handle_message,
  handle_http_request, send_answer, send_response, send_error_response, error_text, after_post,
  response_message, answer_text, target_url, target_request, register,
}

module _ {World : Type 0} (web : Web World) (c : PollingClient) where
  -- What is posted for a message with an ID and a text.
  abbrev pub posted : ℕ → Str → World → Option Reply × World
  posted id text w =
      web.post (response_url c.server_url c.key) (codes "application/octet-stream")
        (wire_of (response_message id text)) w

  send_response_lem :
      (id : ℕ) (text : Str) (w : World)
      → send_response web c id text w ≡ after_post web (posted id text w)
  unfolding send_response
  send_response_lem id text w = rw (serialize-wire_of (response_message id text), send_response)

  -- The parts of a round in which a request is polled.
  after_poll-request :
      (bytes payload : Str) (id : ℕ) (w : World)
      → deserialize_tunnel_message bytes
        ≡ some (record { id = id; type = msg_type_http_req; payload = payload })
      → after_poll web c (some (record { status_code = status_ok; body = some bytes }), w)
        ≡ handle_http_request web c
            (record { id = id; type = msg_type_http_req; payload = payload })
            w
  unfolding after_poll handle_message
  after_poll-request bytes payload id w e = rw (e, handle_bytes)

  -- The text for what the target answers.
  abbrev pub Tells : Option Answered → Str → Type 0
  Tells answer text =
      ((answer ≡ none) × (text ≡ error_text (codes "Bad Gateway")))
      ⊎ ((a : Answered) × (answer ≡ some a)
          × (((a.body ≡ none) × (text ≡ error_text (codes "Internal Server Error")))
              ⊎ ((body : Str) × (a.body ≡ some body) × (text ≡ answer_text a body))))

  -- The text for a payload, and the world after what it takes to get it.
  abbrev pub Handles : Str → World → Str → World → Type 0
  Handles payload w text w' =
      ((web.read_request payload ≡ none) × (text ≡ error_text (codes "Bad Request")) × (w' ≡ w))
      ⊎ ((r : Request) × (web.read_request payload ≡ some r)
          × (((web.makes_request r.method (target_url c r) ≡ false)
                × (text ≡ error_text (codes "Internal Server Error"))
                × (w' ≡ w))
              ⊎ ((web.makes_request r.method (target_url c r) ≡ true)
                  × Tells (web.exchange (target_request c r) w).0 text
                  × (w' ≡ (web.exchange (target_request c r) w).1))))

  send_answer-Tells :
      (id : ℕ) (a : Option Answered) (w : World)
      → (text : Str) × (send_answer web c id (a, w) ≡ after_post web (posted id text w))
        × Tells a text
  unfolding send_answer send_error_response
  send_answer-Tells id none w =
      let text = error_text (codes "Bad Gateway") in
      (text, send_response_lem id text w, inl (refl, refl))
  send_answer-Tells id (some a) w = elim (Option-cases a.body) [
    | inl unread ↦
        let text = error_text (codes "Internal Server Error") in
        (
          text,
          rw (unread, send_answer) (send_response_lem id text w),
          inr (a, refl, inl (unread, refl)),
        )
    | inr (body, e) ↦ (
      answer_text a body,
      rw (e, send_answer) (send_response_lem id (answer_text a body) w),
      inr (a, refl, inr (body, e, refl)),
    )
  ]

  handle_http_request-Handles :
      (msg : TunnelMessage) (w : World)
      → (text : Str) × (w' : World) × (handle_http_request web c msg w
          ≡ after_post web (posted msg.id text w'))
        × Handles msg.payload w text w'
  unfolding handle_http_request send_error_response
  handle_http_request-Handles msg w = elim (Option-cases (web.read_request msg.payload)) [
    | inl bad ↦
        let text = error_text (codes "Bad Request") in
        (
          text,
          w,
          rw (bad, handle_http_request) (send_response_lem msg.id text w),
          inl (bad, refl, refl),
        )
    | inr (r, e) ↦ elim (Bool-cases (web.makes_request r.method (target_url c r))) [
      | inl makes ↦
          let (answer, w') = web.exchange (target_request c r) w in
          let (text, posts, tells) = send_answer-Tells msg.id answer w' in
          (
            text,
            w',
            rw (e, handle_http_request) (rw (makes) posts),
            inr (r, e, inr (makes, tells, refl)),
          )
      | inr refuses ↦
          let text = error_text (codes "Internal Server Error") in
          (
            text,
            w,
            rw (e, handle_http_request) (rw (refuses) (send_response_lem msg.id text w)),
            inr (r, e, inl (refuses, refl, refl)),
          )
    ]
  ]

  -- If a poll is answered with status 200 and a message with the type of a request, then the rest of
  -- the round is one post with the ID of the request, and the round fails exactly as that post does.
  -- A request that does not parse is answered with the error Bad Request, one that cannot be made
  -- for the target with Internal Server Error, both with no call of the target. Else the target is
  -- called once, and the post follows it: Bad Gateway where it does not answer, Internal Server Error
  -- where the body of its answer cannot be read, and else its answer.
  pub poll_once-posts :
      (bytes payload : Str) (id : ℕ) (w w₁ : World)
      → web.get (poll_url c.server_url c.key) w
        ≡ (some (record { status_code = status_ok; body = some bytes }), w₁)
      → deserialize_tunnel_message bytes
        ≡ some (record { id = id; type = msg_type_http_req; payload = payload })
      → (text : Str) × (w₂ : World) × (poll_once web c w ≡ after_post web (posted id text w₂))
        × Handles payload w₁ text w₂
  unfolding poll_once
  poll_once-posts bytes payload id w w₁ gets e =
      let msg : TunnelMessage = record { id = id; type = msg_type_http_req; payload = payload } in
      let (text, w₂, posts, handles) = handle_http_request-Handles msg w₁ in
      (text, w₂, rw (gets) (after_poll-request bytes payload id w₁ e ∙ posts), handles)

  -- The same where the target answers: the text is the answer.
  pub poll_once-answers :
      (bytes payload : Str) (id : ℕ) (r : Request) (a : Answered) (body : Str) (w w₁ w₂ : World)
      → web.get (poll_url c.server_url c.key) w
        ≡ (some (record { status_code = status_ok; body = some bytes }), w₁)
      → deserialize_tunnel_message bytes
        ≡ some (record { id = id; type = msg_type_http_req; payload = payload })
      → web.read_request payload ≡ some r
      → web.makes_request r.method (target_url c r) ≡ true
      → web.exchange (target_request c r) w₁ ≡ (some a, w₂)
      → a.body ≡ some body
      → poll_once web c w ≡ after_post web (posted id (answer_text a body) w₂)
  unfolding poll_once handle_http_request send_answer
  poll_once-answers bytes payload id r a body w w₁ w₂ gets e parses makes answers whole =
      rw (gets) (
        after_poll-request bytes payload id w₁ e
        ∙ rw (parses, handle_http_request)
            (rw (makes) (
              rw (answers)
                (rw (whole, send_answer) (send_response_lem id (answer_text a body) w₂)))))

  -- A round that finds the tunnel unregistered registers it.
  pub poll_once-registers :
      (body : Option Str) (w w₁ : World)
      → web.get (poll_url c.server_url c.key) w
        ≡ (some (record { status_code = status_not_found; body = body }), w₁)
      → poll_once web c w ≡ register web c w₁
  unfolding poll_once after_poll
  poll_once-registers body w w₁ gets = rw (gets)
