-- ===== src/Client/Url/Calls.antt =====
-- What the server makes of the URLs that the polling client calls: Register, pollOnce and sendResponse
-- of pkg/client/http_client.go against ServeHTTP and handleHTTPTunnel of pkg/server. How net/url finds
-- the path of a URL is a parameter.
use single_proxy.Base.{
  Str, Bool, leb, not, ◌&&◌, codes, [], ◌∷◌, ◌++◌, true, none, has_prefix, index, contains, ◌==◌,
  nat_key, str_key, ◌≡◌, ◌≢◌, ◌∙◌, ap, inr, refl, append_assoc, arith,
}
use single_proxy.Server.Route.{
  route, tunnel_registration, http_tunnel, tunnel_key, ws_mark, tunnel_call, operation_of, register,
  poll, response, TunnelCall, bad_operation,
}
use single_proxy.Server.Route.Keys.{Trailer, tunnel_call-path}
use single_proxy.Client.Url.{trim_slash, connect_path, register_url, poll_url, response_url}
use single_proxy.Client.Url.Agreement.{
  connect_path-route, http_client-route, has_prefix-slash, index-slash, call-register, call-poll,
  call-response,
}

-- A text that stands for itself in the path of a URL: no control bytes, no percent sign, and nothing
-- that starts a query or a fragment.
abbrev pub clean : Str → Bool
clean [] = true
clean (c ∷ s) =
    let rest = clean s in
    leb 32 c && not (c == 127) && not (c == b'%') && not (c == b'?') && not (c == b'#') && rest

-- What net/url does with an address that is a scheme and a host: the path of a URL that continues it
-- with a slash and a clean text is the slash and the text. `path_of` is the path that the server finds
-- in a request for a URL.
pub record IsBare (path_of : Str → Str) (server : Str) : Type 0 where
  pub path : (text : Str) → clean text ≡ true → path_of (server ++ b'/' ∷ text) ≡ b'/' ∷ text

-- The server gives a request for the URL to the HTTP tunnel, which makes of it this call.
abbrev pub Calls : (Str → Str) → Str → TunnelCall → Type 0
Calls path_of url call = (route (path_of url) ≡ http_tunnel) × (tunnel_call (path_of url) ≡ call)

Calls-path :
    (path_of : Str → Str) (url path : Str) (call : TunnelCall)
    → path_of url ≡ path
    → (route path ≡ http_tunnel) × (tunnel_call path ≡ call)
    → Calls path_of url call
Calls-path path_of url path call e (routed, named) = (rw (e) routed, rw (e) named)

-- The paths of an address with /http-tunnel behind it: they have that part twice.
module _ (key : Str) (clear : index key (codes "/") ≡ none) where
  doubled-register :
      (route (codes "/http-tunnel" ++ register_url [] key) ≡ http_tunnel)
      × (tunnel_call (codes "/http-tunnel" ++ register_url [] key) ≡ bad_operation)
  unfolding route register_url contains operation_of index has_prefix
  doubled-register = (
    rw (has_prefix-slash key (codes "ws") clear, index-slash key clear),
    tunnel_call-path (codes "http-tunnel") (codes "register") (b'/' ∷ key) refl refl (λ e. cc)
        (inr (key, refl)),
  )

  doubled-poll :
      (route (codes "/http-tunnel" ++ poll_url [] key) ≡ http_tunnel)
      × (tunnel_call (codes "/http-tunnel" ++ poll_url [] key) ≡ bad_operation)
  unfolding route poll_url contains operation_of index has_prefix
  doubled-poll = (
    rw (has_prefix-slash key (codes "ws") clear, index-slash key clear),
    tunnel_call-path (codes "http-tunnel") (codes "poll") (b'/' ∷ key) refl refl (λ e. cc)
        (inr (key, refl)),
  )

  doubled-response :
      (route (codes "/http-tunnel" ++ response_url [] key) ≡ http_tunnel)
      × (tunnel_call (codes "/http-tunnel" ++ response_url [] key) ≡ bad_operation)
  unfolding route response_url contains operation_of index has_prefix
  doubled-response = (
    rw (has_prefix-slash key (codes "ws") clear, index-slash key clear),
    tunnel_call-path (codes "http-tunnel") (codes "response") (b'/' ∷ key) refl refl (λ e. cc)
        (inr (key, refl)),
  )

module _ (path_of : Str → Str) (server key : Str) (bare : IsBare path_of server)
    (tidy : clean key ≡ true) where
  register_path : path_of (register_url server key) ≡ register_url [] key
  unfolding register_url
  register_path = bare.path (codes "http-tunnel/register/" ++ key) tidy

  poll_path : path_of (poll_url server key) ≡ poll_url [] key
  unfolding poll_url
  poll_path = bare.path (codes "http-tunnel/poll/" ++ key) tidy

  response_path : path_of (response_url server key) ≡ response_url [] key
  unfolding response_url
  response_path = bare.path (codes "http-tunnel/response/" ++ key) tidy

  doubled_path :
      (rest : Str)
      → clean rest ≡ true
      → path_of ((server ++ codes "/http-tunnel") ++ b'/' ∷ rest)
        ≡ codes "/http-tunnel" ++ b'/' ∷ rest
  doubled_path rest h =
      ap path_of (append_assoc server (codes "/http-tunnel") (b'/' ∷ rest))
      ∙ bare.path (codes "http-tunnel/" ++ rest) h

  -- At a server whose address is a scheme and a host, the three URLs that the HTTP client calls lead to
  -- the HTTP tunnel, and name there the operation that is meant and the client's key, if the key is not
  -- empty, holds no slash and stands for itself in a URL. With /http-tunnel behind the address all three
  -- lead to the HTTP tunnel too, which finds no operation of its own in them.
  pub http_client-Calls :
      index key (codes "/") ≡ none
      → key ≢ []
      → Calls path_of (register_url server key) (register key)
        × Calls path_of (poll_url server key) (poll key)
        × Calls path_of (response_url server key) (response key)
        × Calls path_of (register_url (server ++ codes "/http-tunnel") key) bad_operation
        × Calls path_of (poll_url (server ++ codes "/http-tunnel") key) bad_operation
        × Calls path_of (response_url (server ++ codes "/http-tunnel") key) bad_operation
  unfolding register_url poll_url response_url
  http_client-Calls clear present =
      let (registers, polls, responds) = http_client-route key clear present in
      (
        Calls-path path_of _ _ _ register_path registers,
        Calls-path path_of _ _ _ poll_path polls,
        Calls-path path_of _ _ _ response_path responds,
        Calls-path path_of _ _ _ (doubled_path (codes "http-tunnel/register/" ++ key) tidy)
            (doubled-register key clear),
        Calls-path path_of _ _ _ (doubled_path (codes "http-tunnel/poll/" ++ key) tidy)
            (doubled-poll key clear),
        Calls-path path_of _ _ _ (doubled_path (codes "http-tunnel/response/" ++ key) tidy)
            (doubled-response key clear),
      )

-- A key with a slash.
module _ (key more : Str) (unmarked : index (b'/' ∷ (key ++ b'/' ∷ more)) ws_mark ≡ none) where
  cut-routes :
      (route (register_url [] (key ++ b'/' ∷ more)) ≡ http_tunnel)
      × (route (poll_url [] (key ++ b'/' ∷ more)) ≡ http_tunnel)
      × (route (response_url [] (key ++ b'/' ∷ more)) ≡ http_tunnel)
  unfolding route register_url poll_url response_url contains index has_prefix
  cut-routes = (rw (unmarked) refl, rw (unmarked) refl, rw (unmarked) refl)

  unmarked_key : index (key ++ b'/' ∷ more) ws_mark ≡ none
  unfolding index
  unmarked_key = ground arith

-- At a server whose address is a scheme and a host, a key with a slash is cut at its first slash by the
-- HTTP tunnel, in all three calls, while the registration of a WebSocket client with that key and no
-- base path takes it whole: if the part before the slash is not empty, the key stands for itself in a
-- URL, and /ws/ does not occur in the key, nor at its start without the first slash.
pub http_client-cut_key :
    (path_of : Str → Str) (server key more : Str)
    → IsBare path_of server
    → clean (key ++ b'/' ∷ more) ≡ true
    → index key (codes "/") ≡ none
    → key ≢ []
    → index (b'/' ∷ (key ++ b'/' ∷ more)) ws_mark ≡ none
    → Calls path_of (register_url server (key ++ b'/' ∷ more)) (register key)
      × Calls path_of (poll_url server (key ++ b'/' ∷ more)) (poll key)
      × Calls path_of (response_url server (key ++ b'/' ∷ more)) (response key)
      × ((route (connect_path [] (key ++ b'/' ∷ more)) ≡ tunnel_registration)
          × (tunnel_key (connect_path [] (key ++ b'/' ∷ more)) ≡ key ++ b'/' ∷ more))
unfolding index has_prefix trim_slash
http_client-cut_key path_of server key more bare tidy clear present unmarked =
    let whole : Str = key ++ b'/' ∷ more in
    let cut : Trailer (b'/' ∷ more) = inr (more, refl) in
    let (registers, polls, responds) = cut-routes key more unmarked in
    (
      Calls-path path_of _ _ _ (register_path path_of server whole bare tidy)
          (registers, call-register key (b'/' ∷ more) clear present cut),
      Calls-path path_of _ _ _ (poll_path path_of server whole bare tidy)
          (polls, call-poll key (b'/' ∷ more) clear present cut),
      Calls-path path_of _ _ _ (response_path path_of server whole bare tidy)
          (responds, call-response key (b'/' ∷ more) clear present cut),
      connect_path-route [] whole refl (unmarked_key key more unmarked),
    )
