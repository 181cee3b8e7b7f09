-- ===== src/Client/Tests.antt =====
-- Paths of concrete clients.
use single_proxy.Base.{◌+◌, [], ◌∷◌, ◌≡◌}
use single_proxy.Client.Reconnect.{runs, failures, delays, growing, delays-runs}
use single_proxy.Base.{Str, drop, length, ◌++◌, codes, [], ◌≡◌, ◌≢◌, refl, index, has_prefix}
use single_proxy.Server.Route.{
  route, tunnel_registration, tunnel_key, register, poll, response, bad_operation,
}
use single_proxy.Client.Url.{connect_path, trim_slash, register_url, poll_url, response_url}
use single_proxy.Client.Url.Agreement.{connect_path-route}
use single_proxy.Client.Url.Calls.{IsBare, Calls, http_client-Calls, http_client-cut_key}

connect_path-route_example :
    (route (connect_path (codes "/proxy/") (codes "web/1")) ≡ tunnel_registration)
    × (tunnel_key (connect_path (codes "/proxy/") (codes "web/1")) ≡ codes "web/1")
unfolding index has_prefix trim_slash
connect_path-route_example = connect_path-route (codes "/proxy/") (codes "web/1") refl refl

web_named : ◌≢◌ {A = Str} (codes "web") []
web_named e = cc

-- The text behind the scheme and the host.
abbrev server_url : Str
server_url = codes "http://a.example"

abbrev path_of : Str → Str
path_of = drop (length server_url)

bare : IsBare path_of server_url
bare = record { path = λ text tidy. refl }

http_client-Calls_example :
    Calls path_of (register_url server_url (codes "web")) (register (codes "web"))
    × Calls path_of (poll_url server_url (codes "web")) (poll (codes "web"))
    × Calls path_of (response_url server_url (codes "web")) (response (codes "web"))
    × Calls path_of (register_url (server_url ++ codes "/http-tunnel") (codes "web")) bad_operation
    × Calls path_of (poll_url (server_url ++ codes "/http-tunnel") (codes "web")) bad_operation
    × Calls path_of (response_url (server_url ++ codes "/http-tunnel") (codes "web")) bad_operation
unfolding index has_prefix
http_client-Calls_example =
    http_client-Calls path_of server_url (codes "web") bare refl refl web_named

http_client-cut_key_example :
    Calls path_of (register_url server_url (codes "web/1")) (register (codes "web"))
    × Calls path_of (poll_url server_url (codes "web/1")) (poll (codes "web"))
    × Calls path_of (response_url server_url (codes "web/1")) (response (codes "web"))
    × ((route (connect_path [] (codes "web/1")) ≡ tunnel_registration)
        × (tunnel_key (connect_path [] (codes "web/1")) ≡ codes "web/1"))
unfolding index has_prefix
http_client-cut_key_example =
    http_client-cut_key path_of server_url (codes "web") (codes "1") bare refl refl web_named refl

delays-runs_example : delays (runs ∷ failures 2 []) 5 ≡ 3 ∷ growing 2 1 (delays [] (1 + 2))
delays-runs_example = delays-runs [] 2 5
