-- ===== src/Server/Proxy/Tests.antt =====
-- A request through the path proxy.
use single_proxy.Base.{
  codes, [], ◌∷◌, ◌++◌, true, some, ◌≡◌, refl, index, has_prefix, lookup, str_key,
}
use single_proxy.Http.Header.{add_all}
use single_proxy.Http.Address.{split_host_port, join_host_port, has_byte}
use single_proxy.Protocol.Http.{Request}
use single_proxy.Server.Writer.{new_writer}
use single_proxy.Server.Writer.Response.{head}
use single_proxy.Server.Limits.{allowed}
use single_proxy.Server.Public.Relay.{joined}
use single_proxy.Server.Proxy.{Network, Fetched, target, proxy_target, handle_proxy}
use single_proxy.Server.Proxy.Target.{proxy_target-join_host_port}
use single_proxy.Server.Proxy.Serve.{handle_proxy-relays}
use single_proxy.Samples.{lenient, busy_server, get_request}

abbrev teapot : Fetched
teapot = record { status_code = 418; header = []; reads = codes "tea" ∷ [] ∷ codes "pot" ∷ [] }

abbrev open_network : Network
open_network = record {
  dials = λ address. true;
  exchange = λ address r. some teapot;
  uri_of = λ path r. path;
}

abbrev proxied : Request
proxied = record get_request {
  path = codes "/proxy/" ++ (join_host_port (codes "t") (codes "81") ++ (codes "/" ++ codes "x"));
}

proxy_target-join_host_port_example :
    proxy_target
      (codes "/proxy/" ++ (join_host_port (codes "t") (codes "81") ++ (codes "/" ++ codes "x")))
    ≡ target (codes "t") (codes "81") (codes "/" ++ codes "x")
unfolding has_byte index join_host_port has_prefix
proxy_target-join_host_port_example =
    proxy_target-join_host_port (codes "t") (codes "81") (codes "x") refl refl refl refl refl refl

handle_proxy-relays_example :
    (handle_proxy lenient 0 open_network proxied new_writer busy_server).0.sent
    ≡ [] ++ (head 418 (add_all [] []) ++ joined (codes "tea" ∷ [] ∷ codes "pot" ∷ []))
unfolding split_host_port allowed lookup
handle_proxy-relays_example =
    handle_proxy-relays lenient 0 open_network proxied new_writer busy_server (codes "10.0.0.1")
      (codes "4000") (codes "t") (codes "81") (codes "/x") teapot refl refl
      proxy_target-join_host_port_example refl refl refl refl
