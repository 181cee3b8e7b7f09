-- ===== src/Client/Url.antt =====
-- The addresses that the clients call: Connect of pkg/client/client.go, and Register, pollOnce and
-- sendResponse of pkg/client/http_client.go.
pub mod Agreement
pub mod Calls
use single_proxy.Base.{
  ℕ, Str, codes, List, [], ◌∷◌, ◌++◌, Bool, ◌||◌, ◌==◌, nat_key, str_key, if◌then◌else◌,
}
use single_proxy.Server.Route.{ws_mark, tunnel_mark}

-- basePath without one trailing slash.
unfoldable pub trim_slash : Str → Str
trim_slash [] = []
trim_slash (c ∷ []) = if c == b'/' then [] else c ∷ []
trim_slash (c ∷ d ∷ s) = c ∷ trim_slash (d ∷ s)

-- connURL.Path of (c *TunnelClient) Connect.
unfoldable pub connect_path : Str → Str → Str
unfolding trim_slash
connect_path base key =
    if base == [] || base == codes "/" then ws_mark ++ key else trim_slash base ++ (ws_mark ++ key)

-- fmt.Sprintf("%s/http-tunnel/…/%s", c.serverURL, c.key), for each of the three operations.
unfoldable pub register_url : Str → Str → Str
register_url server key = server ++ (codes "/http-tunnel/register/" ++ key)

unfoldable pub poll_url : Str → Str → Str
poll_url server key = server ++ (codes "/http-tunnel/poll/" ++ key)

unfoldable pub response_url : Str → Str → Str
response_url server key = server ++ (codes "/http-tunnel/response/" ++ key)
