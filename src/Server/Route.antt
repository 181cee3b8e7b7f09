-- ===== src/Server/Route.antt =====
-- Which handler takes a connection or a request, and the tunnel keys in paths: ServeHTTP,
-- handleConnection and handleTunnelRegistration of pkg/server/server.go, handleHTTPTunnel of
-- pkg/server/handlers.go.
pub mod Keys
use single_proxy.Base.{
  ℕ, zero, suc, ◌+◌, Str, codes, List, [], ◌∷◌, Bool, true, false, ◌&&◌, Option, none, some, drop,
  has_prefix, trim_prefix, has_suffix, index, contains, split, ◌==◌, nat_key, str_key,
  if◌then◌else◌,
}

pub data Protocol : Type 0 where
  socks5 http : Protocol

-- The first byte that handleConnection reads decides; it has read at least one.
unfoldable pub detect : Str → Protocol
detect [] = http
detect (b ∷ bytes) = if b == 0x05 then socks5 else http

pub data Route : Type 0 where
  tunnel_registration http_tunnel http_proxy public_request : Route

abbrev pub ws_mark : Str
ws_mark = codes "/ws/"

abbrev pub tunnel_mark : Str
tunnel_mark = codes "/http-tunnel/"

abbrev pub proxy_mark : Str
proxy_mark = codes "/proxy/"

-- parts[1]; the code only reads it where the separator occurs, so that there are two parts.
abbrev pub second : List Str → Str
second [] = []
second (a ∷ []) = []
second (a ∷ b ∷ rest) = b

-- (p *SinglePortProxy) ServeHTTP
unfoldable pub route : Str → Route
route path =
    if contains path ws_mark && has_suffix path (second (split path ws_mark))
    then tunnel_registration
    else if has_prefix path tunnel_mark
    then http_tunnel
    else if has_prefix path proxy_mark
    then http_proxy
    else public_request

-- The key of handleTunnelRegistration: what follows the first mark.
unfoldable pub tunnel_key : Str → Str
tunnel_key path = elim (index path ws_mark) [
  | some i ↦ drop (i + 4) path
  | none ↦ trim_prefix path ws_mark
]

pub data TunnelCall : Type 0 where
  register poll response : Str → TunnelCall
  bad_format empty_key bad_operation : TunnelCall

unfoldable pub operation_of : Str → Str → TunnelCall
operation_of operation key =
    if operation == codes "register"
    then register key
    else if operation == codes "poll"
    then poll key
    else if operation == codes "response"
    then response key
    else bad_operation

unfoldable pub parts_of : List Str → TunnelCall
unfolding operation_of
parts_of [] = bad_format
parts_of (a ∷ []) = bad_format
parts_of (operation ∷ key ∷ rest) = if key == [] then empty_key else operation_of operation key

-- (p *SinglePortProxy) handleHTTPTunnel, up to the call of the operation's handler.
unfoldable pub tunnel_call : Str → TunnelCall
unfolding parts_of operation_of
tunnel_call path = parts_of (split (trim_prefix path tunnel_mark) (codes "/"))
