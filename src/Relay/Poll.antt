-- ===== src/Relay/Poll.antt =====
-- The polling client (pkg/client/http_client.go) and the server's polling handlers
-- (pkg/server/handlers.go) together: the world of the client is the state of the server, or its
-- panic. A poll ends by the message that is queued, if there is one, and else by the timer.
pub mod Linked
pub mod Round
pub mod Recover
pub mod Drain
mod Tests
use single_proxy.Base.{
  ℕ, Str, codes, List, [], ◌∷◌, Bool, true, false, Option, none, some, if◌then◌else◌, ◌&&◌, not,
}
use single_proxy.Protocol.Http.{Request, Body, no_body, body}
use single_proxy.Client.Poll.{Web, Reply, Answered, TargetRequest}
use single_proxy.Server.Writer.{Writer, new_writer}
use single_proxy.Server.State.{Server, Outcome, ok, panic, ◌>>=◌, Chan}
use single_proxy.Server.Polling.{poll_end, Wake, channel, timer}
use single_proxy.Server.Serve.{
  Served, finished, polls, waits, runs_tunnel, Surroundings, handle_http_tunnel,
}

-- What stands between the two, and round them.
pub record Link : Type 0 where
  -- the path that a request for a URL has at the server
  pub path_of : Str → Str
  -- what http.Client reads from what the server sent
  pub read_reply : Str → Option Reply
  pub read_request : Str → Option Request
  pub makes_request : Str → Str → Bool
  -- the client's target
  pub target : TargetRequest → Option Answered
  pub env : Surroundings
  pub client_addr : Str

-- The case of the select of a poll that is ready.
abbrev pub ready : Chan → Wake
ready c = elim c.queue [ [] ↦ if c.closed then channel else timer | msg ∷ rest ↦ channel ]

abbrev pub request_to : Str → Str → Str → Body → Request
request_to addr method path content = record {
  method = method;
  path = path;
  request_uri = path;
  host = [];
  remote_addr = addr;
  header = [];
  content = content;
}

module _ {Limiter : Type 0} where
  -- The handler runs to its end; the handlers of the polling tunnel have no other waits.
  abbrev pub ended : Outcome (Served × Server Limiter) → Outcome (Writer × Server Limiter)
  ended (ok (finished w, s)) = ok (w, s)
  ended (ok (polls a w, s)) = poll_end a (ready (s.tunnels a).poll_chan) w s
  ended (ok (waits id a, s)) = ok (new_writer, s)
  ended (ok (runs_tunnel conn key w, s)) = ok (w, s)
  ended (panic p) = panic p

  abbrev pub replied :
      Link → Outcome (Writer × Server Limiter) → Option Reply × Outcome (Server Limiter)
  replied link (ok (w, s)) = (link.read_reply w.sent, ok s)
  replied link (panic p) = (none, panic p)

  call :
      Link → Str → Str → Body → Outcome (Server Limiter) → Option Reply × Outcome (Server Limiter)
  call link method url content (panic p) = (none, panic p)
  call link method url content (ok s) = replied link (
      ended (
        handle_http_tunnel link.env (request_to link.client_addr method (link.path_of url) content)
          new_writer s))

  unfoldable pub web_of : Link → Web (Outcome (Server Limiter))
  unfolding call
  web_of link = record {
    get = λ url s. call link (codes "GET") url no_body s;
    post = λ url type content s. call link (codes "POST") url (body content) s;
    read_request = link.read_request;
    makes_request = link.makes_request;
    exchange = λ r s. (link.target r, s);
  }
