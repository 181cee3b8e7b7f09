-- ===== src/Client/Tunnel/Tests.antt =====
-- Steps of a concrete WebSocket client.
use single_proxy.Base.{◌∷◌, [], true, ◌≡◌}
use single_proxy.Server.State.{ok}
use single_proxy.Client.Tunnel.Loops.{Moved}
use single_proxy.Client.Tunnel.Steps.{happen_all, writes, queues, loses, dials, stops, drops}
use single_proxy.Client.Tunnel.Steps.Order.{InOrder, happen_all-InOrder}
use single_proxy.Samples.Clients.{streaming_client, streaming_client-IsWf, page_target}

happen_all-InOrder_example :
    (m : Moved) × (happen_all page_target
        (queues 0 ∷ writes 0 true ∷ loses ∷ stops 0 ∷ dials true ∷ writes 1 true ∷ drops 0 ∷ [])
        streaming_client
      ≡ ok m)
    × InOrder streaming_client m
happen_all-InOrder_example =
    happen_all-InOrder page_target
      (queues 0 ∷ writes 0 true ∷ loses ∷ stops 0 ∷ dials true ∷ writes 1 true ∷ drops 0 ∷ [])
      streaming_client streaming_client-IsWf
