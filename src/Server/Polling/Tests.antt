-- ===== src/Server/Polling/Tests.antt =====
-- The polling tunnel at a concrete server.
use single_proxy.Base.{
  ℕ, inr, ◌-◌, ◌*◌, ◌≤◌, ◌<◌, Str, codes, [], ◌++◌, Bool, true, none, some, lookup, length, str_key,
  nat_key, ◌≡◌, ◌↔◌, ◌⊎◌, refl, arith,
}
use single_proxy.Http.Status.{status_ok}
use single_proxy.Protocol.Message.{
  TunnelMessage, msg_type_http_req, msg_type_http_res, deserialize_tunnel_message,
}
use single_proxy.Server.Writer.{Writer, new_writer}
use single_proxy.Server.Writer.Response.{head}
use single_proxy.Server.Limits.{Rate}
use single_proxy.Server.State.{
  Server, ok, panic, nil_dereference, send_on_closed_channel, close_of_closed_channel,
}
use single_proxy.Server.Public.{Progress, waiting, answered, forward_http}
use single_proxy.Server.Polling.{
  minute, register_client, cleanup_tick, poll_end, channel, tunnel_message,
}
use single_proxy.Server.Polling.Channels.{IsPolled, register_client-IsPolled, cleanup_tick-IsPolled}
use single_proxy.Server.Polling.Cleanup.{cleanup_loop, cleanup_loop-ends}
use single_proxy.Server.Polling.Queue.{forward_http-IsPolled, forward_http-poll_end}
use single_proxy.Server.Polling.Crashes.{register_client-panics_old, tunnel_message-panics_twice}
use single_proxy.Samples.{busy_server, parse_page}
use single_proxy.Samples.Valid.{busy_server-IsPolled}

abbrev poller : Str
poller = codes "poll"

abbrev question : TunnelMessage
question = record { id = 7; type = msg_type_http_req; payload = codes "GET /" }

register_client-IsPolled_example :
    (s' : Server Rate) × (register_client 9 poller (codes "10.0.0.8:1") busy_server ≡ ok s')
    × IsPolled s'
    × (lookup poller s'.tunnel_clients ≡ some 1)
register_client-IsPolled_example =
    register_client-IsPolled 9 poller (codes "10.0.0.8:1") busy_server busy_server-IsPolled

cleanup_tick-IsPolled_example :
    (goes_on : Bool) × (s' : Server Rate) × (cleanup_tick (6 * minute) poller busy_server
      ≡ ok (goes_on, s'))
    × IsPolled s'
    × ((goes_on ≡ true) ↔ (6 * minute - (busy_server.tunnels 0).last_seen ≤ 5 * minute))
    × ((goes_on ≡ true) ↔ (lookup poller s'.tunnel_clients ≡ some 0))
    × ((j : Str)
        → (poller ≡ j) ⊎ (lookup j s'.tunnel_clients ≡ lookup j busy_server.tunnel_clients))
unfolding lookup
cleanup_tick-IsPolled_example =
    cleanup_tick-IsPolled (6 * minute) poller 0 busy_server busy_server-IsPolled refl

forward_http-IsPolled_example :
    (p : Progress) × (s' : Server Rate) × (forward_http question 0 7 0 busy_server ≡ ok (p, s'))
    × IsPolled s'
    × (((length (busy_server.tunnels 0).poll_chan.queue < 10) × (p ≡ waiting 7 0))
        ⊎ ((length (busy_server.tunnels 0).poll_chan.queue ≡ 10)
            × ((w : Writer) × (p ≡ answered w))
            × (lookup 7 s'.stream_handlers ≡ none)))
unfolding lookup
forward_http-IsPolled_example =
    forward_http-IsPolled question poller 0 7 0 busy_server busy_server-IsPolled refl

forward_http-poll_end_example :
    (s₁ s₂ : Server Rate) × (w' : Writer) × (bytes : Str) × (forward_http question 0 7 0 busy_server
      ≡ ok (waiting 7 0, s₁))
    × (poll_end 0 channel new_writer s₁ ≡ ok (w', s₂))
    × (w'.sent ≡ [] ++ (head status_ok [] ++ bytes))
    × (deserialize_tunnel_message bytes ≡ some question)
    × ((s₂.tunnels 0).poll_chan.queue ≡ [])
forward_http-poll_end_example =
    forward_http-poll_end question question [] 0 7 0 new_writer busy_server refl (omega arith) refl
      (record { id_fits = omega arith; type_fits = omega arith }) refl refl

register_client-panics_old_example :
    (s' : Server Rate) × (register_client 9 poller (codes "10.0.0.8:1") busy_server ≡ ok s')
    × (poll_end 0 channel new_writer s' ≡ panic nil_dereference)
    × (forward_http question 0 7 0 s' ≡ panic send_on_closed_channel)
unfolding lookup
register_client-panics_old_example =
    register_client-panics_old 9 poller (codes "10.0.0.8:1") 0 question 7 0 new_writer busy_server
      busy_server-IsPolled refl refl

abbrev reply : TunnelMessage
reply = record { id = 7; type = msg_type_http_res; payload = codes "HTTP" }

tunnel_message-panics_twice_example :
    (s' : Server Rate) × (tunnel_message parse_page reply busy_server ≡ ok s')
    × (lookup 7 s'.stream_handlers ≡ some 0)
    × ((s'.streams 0).done ≡ true)
    × (tunnel_message parse_page reply s' ≡ panic close_of_closed_channel)
unfolding lookup
tunnel_message-panics_twice_example =
    tunnel_message-panics_twice parse_page 7 0 (codes "HTTP") (codes "HTTP") busy_server refl refl

-- Nothing else happens between the ticks.
abbrev still : ℕ → Server Rate → Server Rate
still now s = s

cleanup_loop-ends_example :
    (s' : Server Rate) × (cleanup_loop still 6 1 poller busy_server ≡ ok (some s'))
    × IsPolled s'
    × (lookup poller s'.tunnel_clients ≡ none)
unfolding lookup
cleanup_loop-ends_example =
    cleanup_loop-ends still 1 poller 0 busy_server busy_server-IsPolled refl
      (record { keeps = λ now s v. v; unseen = λ now s e. inr (e, refl) }) (omega arith)
