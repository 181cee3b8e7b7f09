-- ===== src/Client/Poll.antt =====
-- The polling client, HTTPTunnelClient of pkg/client/http_client.go. The two http.Clients that it
-- uses, http.ReadRequest and http.NewRequest are a parameter; `World` is what they act on.
pub mod Cycle
mod Tests
use single_proxy.Base.{
  ℕ, zero, suc, Str, codes, List, [], ◌∷◌, ◌++◌, Bool, Option, none, some, length, ◌==◌, nat_key,
  str_key, if◌then◌else◌, ◌||◌,
}
use single_proxy.Http.Header.{Header, add_all}
use single_proxy.Http.Status.{status_ok, status_no_content, status_not_found, decimal}
use single_proxy.Protocol.Http.{Request, Body, crlf, header_write}
use single_proxy.Protocol.Message.{
  TunnelMessage, serialize_tunnel_message, deserialize_tunnel_message, msg_type_http_req,
  msg_type_http_res,
}
use single_proxy.Config.Types.{Config}
use single_proxy.Client.Url.{register_url, poll_url, response_url}

-- HTTPTunnelClient
pub record PollingClient : Type 0 where
  pub server_url : Str
  pub key : Str
  pub target : Str
  pub insecure : Bool

-- A response, with what io.ReadAll gives of its body.
pub record Reply : Type 0 where
  pub status_code : ℕ
  pub body : Option Str

-- A response of the target; `status` is resp.Status, such as "200 OK".
pub record Answered : Type 0 where
  pub status : Str
  pub header : Header
  pub body : Option Str

-- The request that is made for the target.
pub record TargetRequest : Type 0 where
  pub method : Str
  pub url : Str
  pub header : Header
  pub content : Body

pub record Web (World : Type 0) : Type 0 where
  -- c.client.Get and c.client.Post; `none` is an error
  pub get : Str → World → Option Reply × World
  pub post : Str → Str → Str → World → Option Reply × World
  -- http.ReadRequest
  pub read_request : Str → Option Request
  -- whether http.NewRequest takes a method and a URL
  pub makes_request : Str → Str → Bool
  -- forwardClient.Do
  pub exchange : TargetRequest → World → Option Answered × World

pub data NewError : Type 0 where
  no_server no_target no_key bad_url : NewError

pub data Created : Type 0 where
  created : PollingClient → Created
  not_created : NewError → Created

-- NewHTTPTunnelClient; whether url.Parse takes the server's address is an argument.
unfoldable pub new_polling_client : (Str → Bool) → Config → Created
new_polling_client parses cfg =
    if cfg.server_addr == []
    then not_created no_server
    else if cfg.target_addr == []
    then not_created no_target
    else if cfg.key == []
    then not_created no_key
    else if parses cfg.server_addr
    then created (record {
      server_url = cfg.server_addr;
      key = cfg.key;
      target = cfg.target_addr;
      insecure = cfg.insecure;
    })
    else not_created bad_url

-- The errors of the client's methods.
pub data Failure : Type 0 where
  failed_to_register failed_to_poll unreadable bad_message not_serialized failed_to_send : Failure
  registration_rejected response_rejected : Option Str → Failure
  unexpected_status : ℕ → Option Str → Failure

-- The message of a response.
abbrev pub response_message : ℕ → Str → TunnelMessage
response_message id bytes = record { id = id; type = msg_type_http_res; payload = bytes }

module _ {World : Type 0} (web : Web World) where
  unfoldable pub after_register : Option Reply × World → Option Failure × World
  after_register (none, w) = (some failed_to_register, w)
  after_register (some reply, w) =
      (if reply.status_code == status_ok then none else some (registration_rejected reply.body), w)

  -- Register; `none` is nil.
  unfoldable pub register : PollingClient → World → Option Failure × World
  unfolding after_register
  register c w =
      after_register (web.post (register_url c.server_url c.key) (codes "application/json") [] w)

  unfoldable pub after_post : Option Reply × World → Option Failure × World
  after_post (none, w) = (some failed_to_send, w)
  after_post (some reply, w) =
      (if reply.status_code == status_ok then none else some (response_rejected reply.body), w)

  unfoldable pub send_response : PollingClient → ℕ → Str → World → Option Failure × World
  unfolding after_post
  send_response c id bytes w = elim (serialize_tunnel_message (response_message id bytes)) [
    | none ↦ (some not_serialized, w)
    | some wire ↦
        after_post
          (web.post (response_url c.server_url c.key) (codes "application/octet-stream") wire w)
  ]

-- The text that sendErrorResponse sends for a message.
unfoldable pub error_text : Str → Str
error_text message =
    codes "HTTP/1.1 500 Internal Server Error"
    ++ (crlf
        ++ (codes "Content-Type: text/plain"
            ++ (crlf
                ++ (codes "Content-Length: "
                    ++ (decimal (length message) ++ (crlf ++ (crlf ++ message)))))))

-- The response of the target as bytes.
unfoldable pub answer_text : Answered → Str → Str
answer_text a body =
    codes "HTTP/1.1 " ++ (a.status ++ (crlf ++ (header_write a.header ++ (crlf ++ body))))

abbrev pub target_url : PollingClient → Request → Str
target_url c r = codes "http://" ++ (c.target ++ r.request_uri)

abbrev pub target_request : PollingClient → Request → TargetRequest
target_request c r = record {
  method = r.method;
  url = target_url c r;
  header = add_all r.header [];
  content = r.content;
}

module _ {World : Type 0} (web : Web World) where
  unfoldable pub send_error_response : PollingClient → ℕ → Str → World → Option Failure × World
  unfolding error_text
  send_error_response c id message w = send_response web c id (error_text message) w

  unfoldable pub send_answer : PollingClient → ℕ → Option Answered × World → Option Failure × World
  unfolding answer_text
  send_answer c id (none, w) = send_error_response c id (codes "Bad Gateway") w
  send_answer c id (some a, w) = elim a.body [
    | none ↦ send_error_response c id (codes "Internal Server Error") w
    | some body ↦ send_response web c id (answer_text a body) w
  ]

  -- handleHTTPRequest
  unfoldable pub handle_http_request :
      PollingClient → TunnelMessage → World → Option Failure × World
  unfolding send_answer
  handle_http_request c msg w = elim (web.read_request msg.payload) [
    | none ↦ send_error_response c msg.id (codes "Bad Request") w
    | some r ↦
        if web.makes_request r.method (target_url c r)
        then send_answer c msg.id (web.exchange (target_request c r) w)
        else send_error_response c msg.id (codes "Internal Server Error") w
  ]

  unfoldable pub handle_message : PollingClient → TunnelMessage → World → Option Failure × World
  unfolding handle_http_request
  handle_message c msg w =
      if msg.type == msg_type_http_req then handle_http_request c msg w else (none, w)

  handle_bytes : PollingClient → Option Str → World → Option Failure × World
  handle_bytes c none w = (some unreadable, w)
  handle_bytes c (some bytes) w = elim (deserialize_tunnel_message bytes) [
    | none ↦ (some bad_message, w)
    | some msg ↦ handle_message c msg w
  ]

  unfoldable pub after_poll : PollingClient → Option Reply × World → Option Failure × World
  unfolding handle_bytes
  after_poll c (none, w) = (some failed_to_poll, w)
  after_poll c (some reply, w) =
      if reply.status_code == status_ok
      then handle_bytes c reply.body w
      else if reply.status_code == status_no_content
      then (none, w)
      else if reply.status_code == status_not_found
      then register web c w
      else (some (unexpected_status reply.status_code reply.body), w)

  -- pollOnce
  unfoldable pub poll_once : PollingClient → World → Option Failure × World
  unfolding after_poll
  poll_once c w = after_poll c (web.get (poll_url c.server_url c.key) w)

  -- The rounds of StartPolling, which never ends: the seconds that each sleeps, and the world.
  unfoldable pub start_polling : ℕ → PollingClient → World → List ℕ × World
  start_polling zero c w = ([], w)
  start_polling (suc n) c w =
      let (error, w') = poll_once c w in
      let (sleeps, w'') = start_polling n c w' in
      (elim error [ none ↦ 0 | some e ↦ 5 ] ∷ sleeps, w'')

  -- Run, for a number of rounds: the error of the registration, if that fails.
  unfoldable pub run : ℕ → PollingClient → World → Option Failure × World
  run n c w =
      let (error, w') = register web c w in
      elim error [ some e ↦ (some e, w') | none ↦ (none, (start_polling n c w').1) ]
