-- ===== src/Server/Tests.antt =====
-- Runs of the server's parts at concrete states.
use single_proxy.Base.{
  ℕ, codes, List, [], ◌∷◌, none, some, lookup, str_key, nat_key, ◌≡◌, ◌≢◌, refl, true, false, arith,
}
use single_proxy.Server.Writer.{new_writer}
use single_proxy.Server.Writer.Response.{
  Call, calls_write, calls_write_header, calls_set, perform_all, message, sent-perform_all,
}
use single_proxy.Server.Tunnel.{on_frames, register_tunnel, read_loop_exit}
use single_proxy.Server.Tunnel.Live.{IsLive, Keeps, on_frames-Keeps}
use single_proxy.Server.Tunnel.Reconnect.{register_tunnel-ends_all, read_loop_exit-drops_new}
use single_proxy.Http.Address.{split_host_port}
use single_proxy.Server.Public.{admit, admitted, key_of}
use single_proxy.Server.Public.Admit.{Unlimited, admit-Unlimited}
use single_proxy.Samples.{parse_page, busy_server, web, lenient, get_request}

abbrev calls : List Call
calls = calls_write_header 404 ∷ calls_set (codes "a") (codes "b") ∷ calls_write (codes "no") ∷ []

sent-perform_all_example : (perform_all new_writer calls).sent ≡ message [] calls
sent-perform_all_example = sent-perform_all calls

busy_server-IsLive : IsLive busy_server
unfolding lookup
busy_server-IsLive = record {
  is_open = λ id a e. refl;
  distinct = λ i j a p q. ground arith;
  unique = (tt, tt);
}

on_frames-Keeps_example : Keeps IsLive (on_frames parse_page (codes "junk" ∷ []) busy_server)
on_frames-Keeps_example =
    on_frames-Keeps parse_page (codes "junk" ∷ []) busy_server busy_server-IsLive

register_tunnel-ends_all_example :
    (lookup 7 (register_tunnel web 4 busy_server).stream_handlers ≡ none)
    × ((a : ℕ)
        → lookup 7 busy_server.stream_handlers ≡ some a
        → ((register_tunnel web 4 busy_server).streams a).done ≡ true)
unfolding lookup
register_tunnel-ends_all_example =
    register_tunnel-ends_all web 4 3 busy_server busy_server-IsLive refl 7

four_not_three : ◌≢◌ {A = ℕ} 4 3
four_not_three = omega arith

read_loop_exit-drops_new_example :
    ((((register_tunnel web 4 busy_server).sockets 3).closed ≡ true)
      × (lookup web (register_tunnel web 4 busy_server).client_conns ≡ some 4))
    × (lookup web (read_loop_exit 3 web (register_tunnel web 4 busy_server)).client_conns ≡ none)
    × (((read_loop_exit 3 web (register_tunnel web 4 busy_server)).sockets 4).closed ≡ false)
unfolding lookup
read_loop_exit-drops_new_example = read_loop_exit-drops_new web 4 3 busy_server refl four_not_three

admit-Unlimited_example :
    ((admit lenient 0 get_request busy_server).0 ≡ admitted (key_of get_request))
    × Unlimited lenient (admit lenient 0 get_request busy_server).1.ip_limiters
    × Unlimited lenient (admit lenient 0 get_request busy_server).1.key_limiters
unfolding lookup split_host_port
admit-Unlimited_example =
    admit-Unlimited lenient 0 get_request busy_server (codes "10.0.0.1") (codes "4000") refl refl
      (λ key l e. ground arith) (λ key l e. ground arith) refl
