-- ===== src/Client/Poll/Tests.antt =====
-- A round of the polling client with a target that does not answer.
use single_proxy.Base.{Str, codes, List, [], ◌∷◌, true, false, none, some, ◌≡◌, refl}
use single_proxy.Http.Status.{status_ok}
use single_proxy.Protocol.Wire.{wire_of, deserialize-wire_of}
use single_proxy.Protocol.Message.{TunnelMessage, msg_type_http_req}
use single_proxy.Client.Poll.{PollingClient, Web, poll_once, after_post}
use single_proxy.Client.Poll.Cycle.{posted, Handles, poll_once-posts}
use single_proxy.Samples.{get_request}
use single_proxy.Base.{arith}

abbrev asked : TunnelMessage
asked = record { id = 7; type = msg_type_http_req; payload = codes "GET /" }

-- A web that collects what is posted.
abbrev collecting : Web (List Str)
collecting = record {
  get =
      λ url posts. (some (record { status_code = status_ok; body = some (wire_of asked) }), posts);
  post = λ url type content posts.
      (some (record { status_code = status_ok; body = some [] }), content ∷ posts);
  read_request = λ text. some get_request;
  makes_request = λ method url. true;
  exchange = λ r posts. (none, posts);
}

abbrev lone_client : PollingClient
lone_client = record {
  server_url = codes "http://a.example";
  key = codes "poll";
  target = codes "127.0.0.1:80";
  insecure = false;
}

poll_once-posts_example :
    (text : Str) × (w' : List Str) × (poll_once collecting lone_client []
      ≡ after_post collecting (posted collecting lone_client 7 text w'))
    × Handles collecting lone_client (codes "GET /") [] text w'
poll_once-posts_example =
    poll_once-posts collecting lone_client (wire_of asked) (codes "GET /") 7 [] [] refl
      (deserialize-wire_of asked (record { id_fits = omega arith; type_fits = omega arith }))
