-- ===== src/Server/Proxy.antt =====
-- The path proxy: handleHTTPProxy of pkg/server/handlers.go. Dialling and the exchange with the
-- target are a parameter.
pub mod Target
pub mod Serve
mod Tests
use single_proxy.Base.{
  ℕ, zero, suc, Str, codes, List, [], ◌∷◌, ◌++◌, Bool, Option, none, some, contains, has_prefix,
  trim_prefix, split_n, if◌then◌else◌,
}
use single_proxy.Http.Header.{Header, add_all}
use single_proxy.Http.Address.{split_host_port, join_host_port}
use single_proxy.Http.Status.{
  status_bad_request, status_too_many_requests, status_internal_server_error, status_bad_gateway,
}
use single_proxy.Protocol.Http.{Request}
use single_proxy.Server.Route.{proxy_mark}
use single_proxy.Server.Writer.{Writer, write_header, write, error}
use single_proxy.Server.Limits.{RateLimiter, allowed}
use single_proxy.Server.State.{Server}

-- The response of a target, with the pieces that the reads of its body return up to the end or the
-- error that stops them.
pub record Fetched : Type 0 where
  pub status_code : ℕ
  pub header : Header
  pub reads : List Str

pub record Network : Type 0 where
  -- whether net.DialTimeout connects to an address
  pub dials : Str → Bool
  -- r.Write and http.ReadResponse on the connection to an address; `none` is an error of either
  pub exchange : Str → Request → Option Fetched
  -- r.URL.RequestURI() once the path of the request is set
  pub uri_of : Str → Request → Str

pub data ProxyTarget : Type 0 where
  bad_format bad_target : ProxyTarget
  target : Str → Str → Str → ProxyTarget

-- The host and the port, which is 80 where the text has no colon.
unfoldable pub address_of : Str → Option (Str × Str)
address_of host_port =
    if contains host_port (codes ":")
    then split_host_port host_port
    else some (host_port, codes "80")

unfoldable pub rest_path : List Str → Str
rest_path [] = codes "/"
rest_path (path ∷ rest) = codes "/" ++ path

unfoldable pub target_at : Option (Str × Str) → Str → ProxyTarget
target_at none path = bad_target
target_at (some (host, port)) path = target host port path

unfoldable pub target_of : List Str → ProxyTarget
unfolding rest_path target_at address_of
target_of [] = bad_format
target_of ([] ∷ rest) = bad_format
target_of ((c ∷ text) ∷ rest) = target_at (address_of (c ∷ text)) (rest_path rest)

-- The target that a path /proxy/host:port/path names.
unfoldable pub proxy_target : Str → ProxyTarget
unfolding target_of
proxy_target path =
    if has_prefix path proxy_mark
    then target_of (split_n 2 (trim_prefix path proxy_mark) (codes "/"))
    else bad_format

-- io.Copy to the writer, up to a write that fails.
unfoldable pub copy : List Str → Writer → Writer
copy [] w = w
copy ([] ∷ reads) w = copy reads w
copy ((b ∷ bytes) ∷ reads) w =
    let written = write (b ∷ bytes) w in
    let rest = copy reads written.1 in if written.0 then rest else written.1

unfoldable pub write_fetched : Fetched → Writer → Writer
unfolding copy
write_fetched f w =
    copy f.reads (write_header f.status_code (record w { header = add_all f.header w.header }))

-- The path and the host are rewritten, and the request goes to the address.
unfoldable pub fetch : Network → Str → Str → Request → Writer → Writer
unfolding write_fetched
fetch net address path r w =
    let sent = record r { path = path; request_uri = net.uri_of path r; host = address } in
    if net.dials address
    then elim (net.exchange address sent) [
      | none ↦ error (codes "Bad Gateway") status_bad_gateway w
      | some f ↦ write_fetched f w
    ]
    else error (codes "Bad Gateway") status_bad_gateway w

unfoldable pub serve_proxy : Network → Request → Writer → Writer
unfolding proxy_target fetch
serve_proxy net r w = elim (proxy_target r.path) [
  | bad_format ↦
      error (codes "Invalid proxy path format. Use: /proxy/host:port/path") status_bad_request w
  | bad_target ↦ error (codes "Bad Request") status_bad_request w
  | target host port path ↦ fetch net (join_host_port host port) path r w
]

module _ (lib : RateLimiter) where
  open lib use {Limiter}

  unfoldable pub handle_proxy :
      ℕ → Network → Request → Writer → Server Limiter → Writer × Server Limiter
  unfolding serve_proxy
  handle_proxy now net r w s = elim (split_host_port r.remote_addr) [
    | none ↦ (error (codes "Internal server error") status_internal_server_error w, s)
    | some (ip, port) ↦
        let answer = allowed lib now s.config.ip_rate_limit ip s.ip_limiters in
        let s' = record s { ip_limiters = answer.1 } in
        if answer.0
        then (serve_proxy net r w, s')
        else (error (codes "Too many requests from your IP") status_too_many_requests w, s')
  ]
