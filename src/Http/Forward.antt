-- ===== src/Http/Forward.antt =====
-- pkg/utils/http.go: ForwardToTarget, GetClientIP and SanitizeHeaders. client.Do is a parameter.
pub mod Laws
use single_proxy.Base.{
  Str, codes, List, [], ◌∷◌, ◌++◌, Bool, Option, none, some, not, ◌||◌, ◌==◌, str_key,
  if◌then◌else◌, to_lower,
}
use single_proxy.Http.Header.{Header, get, del}
use single_proxy.Protocol.Http.{Request, Body}
use single_proxy.Http.Address.{split_host_port}

-- headersToRemove
abbrev pub hop_headers : List Str
hop_headers =
    codes "Connection"
    ∷ codes "Keep-Alive"
    ∷ codes "Proxy-Authenticate"
    ∷ codes "Proxy-Authorization"
    ∷ codes "TE"
    ∷ codes "Trailers"
    ∷ codes "Transfer-Encoding"
    ∷ codes "Upgrade"
    ∷ []

-- The loop over the headers to remove: one whose first value is empty stays.
unfoldable pub remove_headers : List Str → Header → Header
remove_headers [] h = h
remove_headers (name ∷ names) h = remove_headers names (if get name h == [] then h else del name h)

-- What client.Do is called with: a request to a host over http. `host_header` is req.Host, for which
-- the library takes the URL's host where it is empty.
pub record Outgoing : Type 0 where
  pub method : Str
  pub url_host : Str
  pub uri : Str
  pub host_header : Str
  pub header : Header
  pub content : Body

unfoldable pub outgoing : Request → Str → Outgoing
unfolding remove_headers
outgoing r target = record {
  method = r.method;
  url_host = target;
  uri = r.request_uri;
  host_header = r.host;
  header = remove_headers hop_headers r.header;
  content = r.content;
}

-- ForwardToTarget, for a client that answers or fails.
unfoldable pub forward_to_target :
    {World Answer : Type 0}
    → (Outgoing → World → Option Answer × World)
    → Request
    → Str
    → World
    → Option Answer × World
unfolding outgoing
forward_to_target do_request r target w = do_request (outgoing r target) w

-- GetClientIP; `none` is an error.
unfoldable pub get_client_ip : Request → Option Str
get_client_ip r =
    let forwarded = get (codes "X-Forwarded-For") r.header in
    let real = get (codes "X-Real-IP") r.header in
    if not (forwarded == [])
    then some forwarded
    else if not (real == [])
    then some real
    else elim (split_host_port r.remote_addr) [ none ↦ none | some (ip, port) ↦ some ip ]

-- The names whose values are not logged.
unfoldable pub is_secret : Str → Bool
is_secret name =
    let key = to_lower name in
    key == codes "authorization" || key == codes "cookie" || key == codes "x-tunnel-key"

abbrev pub redacted : List Str
redacted = codes "[REDACTED]" ∷ []

-- SanitizeHeaders
unfoldable pub sanitize_headers : Header → Header
unfolding is_secret
sanitize_headers [] = []
sanitize_headers ((name, vs) ∷ h) =
    (name, if is_secret name then redacted else vs) ∷ sanitize_headers h
