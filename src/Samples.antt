-- ===== src/Samples.antt =====
-- Concrete values for tests: a configuration, a rate limiter, a parser of responses, a server with
-- tunnels of both kinds and a pending request.
pub mod Valid
pub mod Outside
pub mod Clients
use single_proxy.Base.{Str, codes, [], ◌∷◌, true, false, Option, none, some, refl}
use single_proxy.Base.Int.{pos}
use single_proxy.Protocol.Http.{Request, body}
use single_proxy.Config.Types.{Config, FileConfig, default_flags}
use single_proxy.Client.Stream.{Answer}
use single_proxy.Server.Writer.{new_writer}
use single_proxy.Server.Limits.{Rate, RateLimiter}
use single_proxy.Server.State.{Server, Stream, HttpTunnelClient, Socket, Response, new_chan}

-- A limiter that is its rate and always allows.
abbrev pub lenient : RateLimiter
lenient = record {
  Limiter = Rate;
  new_limiter = λ r b. r;
  allow = λ now r. (true, r);
  limit = λ r. r;
  limit-new = λ r b. refl;
  limit-allow = λ now r. refl;
  allow-inf = λ now r e. refl;
}

abbrev pub page : Response
page = record {
  status_code = 200;
  header = (codes "X-App", codes "demo" ∷ []) ∷ [];
  body = some (codes "hi");
}

-- Everything but the empty text parses.
abbrev pub parse_page : Str → Option Response
parse_page [] = none
parse_page (c ∷ text) = some page

abbrev pub page_answer : Answer
page_answer = record {
  status = codes "200 OK";
  header = (codes "X-App", codes "demo" ∷ []) ∷ [];
  reads = codes "he" ∷ [] ∷ codes "llo" ∷ [];
}

abbrev pub client_file : FileConfig
client_file = record {
  server = record {
    listen_port = codes "8443";
    cert_file = [];
    key_file = [];
    ip_rate_limit = pos 100;
    key_rate_limit = pos 0;
  };
  client = record {
    server_addr = codes "wss://a.example";
    target_addr = codes "127.0.0.1:80";
    key = codes "web";
    insecure = false;
  };
  global = record { log_level = codes "info"; log_file = [] };
}

abbrev pub http_client_flags : Config
http_client_flags = record default_flags { mode = codes "http-client" }

abbrev pub web : Str
web = codes "web"

abbrev pub blank_stream : Stream
blank_stream = record { writer = new_writer; done = false }

abbrev pub idle_client : HttpTunnelClient
idle_client = record {
  key = web;
  remote_addr = codes "10.0.0.9:5000";
  last_seen = 0;
  poll_chan = new_chan;
  response_chan = new_chan;
}

abbrev pub open_socket : Socket
open_socket = record { closed = false; written = [] }

-- Request 7 waits on stream 0; "web" has a WebSocket connection, "poll" a polling client.
abbrev pub busy_server : Server Rate
busy_server = record {
  config = default_flags;
  client_conns = (web, 3) ∷ [];
  stream_handlers = (7, 0) ∷ [];
  next_request_id = 7;
  key_limiters = [];
  ip_limiters = [];
  tunnel_clients = (codes "poll", 0) ∷ [];
  streams = λ a. blank_stream;
  next_stream = 1;
  tunnels = λ a. idle_client;
  next_tunnel = 1;
  sockets = λ a. open_socket;
}

abbrev pub get_request : Request
get_request = record {
  method = codes "GET";
  path = codes "/index";
  request_uri = codes "/index";
  host = codes "a.example";
  remote_addr = codes "10.0.0.1:4000";
  header = (codes "X-Tunnel-Key", web ∷ []) ∷ [];
  content = body [];
}
