-- ===== src/Server/Tunnel/Streams/Tests.antt =====
-- Two requests on one tunnel.
use single_proxy.Base.{Str, codes, List, [], ◌∷◌, lookup, nat_key, ◌≡◌, refl, arith}
use single_proxy.Server.Limits.{Rate}
use single_proxy.Server.State.{Server, ok}
use mathlib.Core.List.{Permᴰ}
use single_proxy.Server.Tunnel.{on_frames, cleanup}
use single_proxy.Server.Tunnel.Order.{cleanup-any_order}
use single_proxy.Server.Tunnel.Live.{IsLive}
use single_proxy.Server.Tunnel.Streams.{frames_of}
use single_proxy.Server.Tunnel.Streams.Own.{on_frames-frames_of}
use single_proxy.Samples.{busy_server, parse_page}

abbrev two_requests : Server Rate
two_requests = record busy_server { stream_handlers = (7, 0) ∷ (8, 1) ∷ [] }

-- A chunk of request 8, a chunk of request 7, the end of request 8.
abbrev mixed : List Str
mixed =
    (0 ∷ 0 ∷ 0 ∷ 0 ∷ 0 ∷ 0 ∷ 0 ∷ 8 ∷ 3 ∷ codes "b")
    ∷ (0 ∷ 0 ∷ 0 ∷ 0 ∷ 0 ∷ 0 ∷ 0 ∷ 7 ∷ 3 ∷ codes "a")
    ∷ (0 ∷ 0 ∷ 0 ∷ 0 ∷ 0 ∷ 0 ∷ 0 ∷ 8 ∷ 3 ∷ [])
    ∷ []

two_requests-IsLive : IsLive two_requests
unfolding lookup
two_requests-IsLive = record {
  is_open = λ id a e. refl;
  distinct = λ i j a p q. ground arith;
  unique = ((λ e. ground (arith, e), tt), (tt, tt));
}

on_frames-frames_of_example :
    (s' t' : Server Rate) × (on_frames parse_page mixed two_requests ≡ ok s')
    × (on_frames parse_page (frames_of 7 mixed) two_requests ≡ ok t')
    × (s'.streams 0 ≡ t'.streams 0)
    × (lookup 7 s'.stream_handlers ≡ lookup 7 t'.stream_handlers)
unfolding lookup
on_frames-frames_of_example =
    on_frames-frames_of parse_page 7 0 mixed two_requests two_requests-IsLive refl

cleanup-any_order_example :
    cleanup ((8, 1) ∷ (7, 0) ∷ []) two_requests ≡ cleanup ((7, 0) ∷ (8, 1) ∷ []) two_requests
cleanup-any_order_example =
    cleanup-any_order ((8, 1) ∷ (7, 0) ∷ []) two_requests two_requests-IsLive (Permᴰ.swap refl refl)
