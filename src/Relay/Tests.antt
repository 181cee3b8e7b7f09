-- ===== src/Relay/Tests.antt =====
-- A relayed response at a concrete server.
use single_proxy.Base.{codes, ◌++◌, some, nat_key, ◌≡◌, refl, arith}
use single_proxy.Server.Writer.Response.{head}
use single_proxy.Server.Limits.{Rate}
use single_proxy.Server.State.{Server, ok}
use single_proxy.Server.Tunnel.{on_frames}
use single_proxy.Base.{[], str_key}
use single_proxy.Relay.Stale.{reconnection, reconnection-mixes}
use single_proxy.Client.Tunnel.Loops.{Moved}
use single_proxy.Client.Tunnel.Steps.{happen_all}
use single_proxy.Samples.Clients.{streaming_client, streaming_client-IsWf, page_target}
use single_proxy.Samples.Valid.{request_7}
use single_proxy.Samples.{parse_page, busy_server}

reconnection-mixes_example :
    (m : Moved) × (s' : Server Rate) × (happen_all page_target
        (reconnection streaming_client)
        streaming_client
      ≡ ok m)
    × (m.after.ws_conn ≡ some 1)
    × (on_frames parse_page (m.after.conns 1).written busy_server ≡ ok s')
    × ((s'.streams 0).writer.sent ≡ [] ++ (head 200 [] ++ codes "old"))
reconnection-mixes_example =
    reconnection-mixes page_target parse_page 7 0 b'o' (codes "ld") [] streaming_client busy_server
      streaming_client-IsWf refl (omega arith) refl request_7 refl
