-- ===== src/Relay/Poll/Tests.antt =====
-- A polling client at a concrete server.
use single_proxy.Base.{
  ◌<◌, ◌^◌, ℕ, ◌≢◌, ◌≡◌, Str, codes, [], ◌∷◌, ◌++◌, true, false, Option, none, some, length, drop,
  lookup, insert, index, str_key, nat_key, ◌==◌, if◌then◌else◌, has_prefix, refl, arith,
}
use single_proxy.Http.Header.{set, get}
use single_proxy.Http.Status.{status_ok, status_not_found, decimal, status_text}
use single_proxy.Client.Url.{poll_url, register_url, response_url}
use single_proxy.Client.Poll.{PollingClient, Reply, Answered, poll_once, start_polling, answer_text}
use single_proxy.Server.Writer.{new_writer, error, status_line, header_lines}
use single_proxy.Server.Writer.Response.{head}
use single_proxy.Server.Limits.{Rate}
use single_proxy.Server.State.{Server, ok}
use single_proxy.Server.Public
use single_proxy.Server.Public.{public_request, next_id, admit, key_of}
use single_proxy.Http.Address.{split_host_port}
use single_proxy.Protocol.Http.{Request, serialize_http_request}
use single_proxy.Server.Public.Open.{request_message}
use single_proxy.Server.Polling.Channels.{IsPolled}
use single_proxy.Samples.Outside.{sample_env}
use single_proxy.Relay.Poll.{Link, web_of}
use single_proxy.Relay.Poll.Linked.{IsLinked, json_header, unknown_key}
use single_proxy.Relay.Poll.Drain.{Job, job_message, IsJob, IsDrained, start_polling-drains}
use single_proxy.Relay.Poll.Recover.{poll_once-recovers}
use single_proxy.Samples.{busy_server, idle_client, page, get_request, lenient}

-- The text after a prefix.
strip : Str → Str → Option Str
strip [] s = some s
strip (c ∷ p) [] = none
strip (c ∷ p) (d ∷ s) = let rest = strip p s in if c == d then rest else none

success : Str → Option Reply
success bytes = some (record { status_code = status_ok; body = some bytes })

-- The answers that the server gives the client.
read_reply : Str → Option Reply
unfolding strip success
read_reply text = elim (strip (head status_ok json_header) text) [
  | some bytes ↦ success bytes
  | none ↦ elim (strip (head status_ok []) text) [
    | some bytes ↦ success bytes
    | none ↦ some (record { status_code = status_not_found; body = some (unknown_key ++ 10 ∷ []) })
  ]
]

abbrev server_url : Str
server_url = codes "http://a.example"

abbrev poll_client : PollingClient
poll_client = record {
  server_url = server_url;
  key = codes "poll";
  target = codes "127.0.0.1:80";
  insecure = false;
}

abbrev sample_answer : Answered
sample_answer = record { status = codes "200 OK"; header = []; body = some (codes "hi") }

abbrev sample_link : Link
sample_link = record {
  path_of = drop (length server_url);
  read_reply = read_reply;
  read_request = λ text. some get_request;
  makes_request = λ method url. true;
  target = λ r. some sample_answer;
  env = sample_env;
  client_addr = codes "10.0.0.8:1";
}

named : ◌≢◌ {A = Str} (codes "poll") []
named e = cc

linked : IsLinked sample_link poll_client
unfolding read_reply poll_url register_url response_url index has_prefix status_line decimal
    status_text lookup header_lines set insert error
linked = record {
  clear = refl;
  present = named;
  poll_path = refl;
  register_path = refl;
  response_path = refl;
  reads_messages = λ bytes. refl;
  reads_receipts = λ bytes. refl;
  reads_refusal = refl;
}

abbrev job : ℕ → ℕ → Job
job id a = record {
  id = id;
  stream = a;
  payload = codes "GET /";
  asked = get_request;
  answer = sample_answer;
  read = codes "hi";
  resp = page;
  content = codes "hi";
}

-- The server with two requests queued for the polling client, and a third behind them.
abbrev asked_server : Server Rate
asked_server = record busy_server {
  stream_handlers = (7, 0) ∷ (8, 1) ∷ [];
  tunnels = λ a. record idle_client {
    poll_chan = record {
      queue = job_message (job 7 0) ∷ job_message (job 8 1) ∷ request_message 9 [] ∷ [];
      closed = false;
    };
  };
}

queued_job :
    (id a : ℕ)
    → id < 2 ^ 64
    → lookup id asked_server.stream_handlers ≡ some a
    → IsJob sample_link poll_client asked_server (job id a)
unfolding answer_text
queued_job id a fits registered = record {
  fits = fits;
  waits = record { registered = registered; pending = refl; up = refl };
  fresh = refl;
  parses = refl;
  makes = refl;
  answers = refl;
  whole = refl;
  reads = refl;
  complete = refl;
}

start_polling-drains_example :
    (s' : Server Rate) × (start_polling (web_of sample_link) 2 poll_client (ok asked_server)
      ≡ (0 ∷ 0 ∷ [], ok s'))
    × IsDrained 0 (job 7 0 ∷ job 8 1 ∷ []) (request_message 9 [] ∷ []) asked_server s'
unfolding lookup
start_polling-drains_example =
    start_polling-drains sample_link poll_client linked 0 (job 7 0 ∷ job 8 1 ∷ [])
      (request_message 9 [] ∷ []) asked_server refl refl (((λ e. ground (arith, e)), tt), (tt, tt))
      (queued_job 7 0 (omega arith) refl, (queued_job 8 1 (omega arith) refl, tt))

abbrev new_poll_server : Server Rate
new_poll_server = record busy_server { tunnel_clients = [] }

new_poll_server-IsPolled : IsPolled new_poll_server
unfolding lookup
new_poll_server-IsPolled = record {
  is_up = λ key a e. grind arith;
  apart = λ i j a p q. grind arith;
  used = λ key a e. grind arith;
}

abbrev poll_request : Request
poll_request = record get_request { header = (codes "X-Tunnel-Key", codes "poll" ∷ []) ∷ [] }

abbrev poll_text : Str
poll_text = elim (serialize_http_request poll_request) [ none ↦ [] | some bytes ↦ bytes ]

poll_once-recovers_example :
    (s' t : Server Rate) × (poll_once (web_of sample_link) poll_client (ok new_poll_server)
      ≡ (none, ok s'))
    × IsPolled s'
    × (lookup poll_client.key s'.tunnel_clients ≡ some 1)
    × (public_request lenient 0 true poll_request new_writer s'
        ≡ ok (Public.waiting (next_id s') s'.next_stream, t))
    × (lookup (next_id s') t.stream_handlers ≡ some s'.next_stream)
    × ((t.tunnels 1).poll_chan.queue ≡ request_message (next_id s') poll_text ∷ [])
unfolding lookup admit serialize_http_request split_host_port key_of get
poll_once-recovers_example =
    poll_once-recovers lenient sample_link poll_client linked new_poll_server 0 true poll_request
      new_writer poll_text new_poll_server-IsPolled refl refl refl refl
