-- ===== src/Client/Url/Agreement.antt =====
-- The clients' paths reach the handlers that they are meant for.
use single_proxy.Base.{
  Str, codes, [], ◌∷◌, ◌++◌, true, false, none, has_prefix, index, contains, ◌==◌, nat_key, str_key,
  str_beq_iff, ◌≡◌, ◌≢◌, inl, refl, append-nil, arith,
}
use single_proxy.Server.Route.{
  route, tunnel_registration, http_tunnel, tunnel_key, ws_mark, tunnel_call, operation_of, register,
  poll, response,
}
use single_proxy.Server.Route.Keys.{tunnel_key-ws, route-ws, Trailer, tunnel_call-path}
use single_proxy.Client.Url.{trim_slash, connect_path, register_url, poll_url, response_url}

trim_slash-root : (base : Str) → (base == codes "/") ≡ true → trim_slash base ≡ []
unfolding trim_slash
trim_slash-root base h = rw ((str_beq_iff base (codes "/")).0 h)

connect_path_lem : (base key : Str) → connect_path base key ≡ trim_slash base ++ (ws_mark ++ key)
unfolding connect_path
connect_path_lem base key = ground (arith, str_beq_iff base [], trim_slash-root base)

-- The path that the WebSocket client dials is routed to the tunnel registration, which takes the
-- client's key from it unchanged, slashes included: if the key does not hold the mark /ws/ and the
-- base path, without its trailing slash, gives no earlier occurrence of it.
pub connect_path-route :
    (base key : Str)
    → index (trim_slash base ++ codes "/ws") ws_mark ≡ none
    → index key ws_mark ≡ none
    → (route (connect_path base key) ≡ tunnel_registration)
      × (tunnel_key (connect_path base key) ≡ key)
connect_path-route base key clear last =
    rw (connect_path_lem base key)
      (route-ws (trim_slash base) key clear last, tunnel_key-ws (trim_slash base) key clear)

-- A text without slashes holds no mark, and does not complete one.
pub has_prefix-slash :
    (s p : Str) → index s (codes "/") ≡ none → has_prefix s (p ++ codes "/") ≡ false
unfolding index has_prefix
has_prefix-slash [] [] h = refl
has_prefix-slash [] (b ∷ p) h = refl
has_prefix-slash (c ∷ s) [] h = ground arith
has_prefix-slash (c ∷ s) (b ∷ p) h = ground (arith, has_prefix-slash s p)

pub index-slash : (s : Str) → index s (codes "/") ≡ none → index s ws_mark ≡ none
unfolding index has_prefix
index-slash [] h = refl
index-slash (c ∷ s) h = ground (arith, index-slash s)

module _ (key : Str) (clear : index key (codes "/") ≡ none) where
  pub route-register : route (register_url [] key) ≡ http_tunnel
  unfolding route register_url contains index has_prefix
  route-register = rw (has_prefix-slash key (codes "ws") clear, index-slash key clear)

  pub route-poll : route (poll_url [] key) ≡ http_tunnel
  unfolding route poll_url contains index has_prefix
  route-poll = rw (has_prefix-slash key (codes "ws") clear, index-slash key clear)

  pub route-response : route (response_url [] key) ≡ http_tunnel
  unfolding route response_url contains index has_prefix
  route-response = rw (has_prefix-slash key (codes "ws") clear, index-slash key clear)

module _ (key rest : Str) (clear : index key (codes "/") ≡ none) (present : key ≢ [])
    (trailer : Trailer rest) where
  pub call-register : tunnel_call (register_url [] (key ++ rest)) ≡ register key
  unfolding register_url operation_of index has_prefix
  call-register = tunnel_call-path (codes "register") key rest refl clear present trailer

  pub call-poll : tunnel_call (poll_url [] (key ++ rest)) ≡ poll key
  unfolding poll_url operation_of index has_prefix
  call-poll = tunnel_call-path (codes "poll") key rest refl clear present trailer

  pub call-response : tunnel_call (response_url [] (key ++ rest)) ≡ response key
  unfolding response_url operation_of index has_prefix
  call-response = tunnel_call-path (codes "response") key rest refl clear present trailer

-- The paths of the three calls, at a server whose address has no path.
pub http_client-route :
    (key : Str)
    → index key (codes "/") ≡ none
    → key ≢ []
    → ((route (register_url [] key) ≡ http_tunnel)
        × (tunnel_call (register_url [] key) ≡ register key))
      × ((route (poll_url [] key) ≡ http_tunnel) × (tunnel_call (poll_url [] key) ≡ poll key))
      × ((route (response_url [] key) ≡ http_tunnel)
          × (tunnel_call (response_url [] key) ≡ response key))
http_client-route key clear present =
    let whole : key ++ [] ≡ key = append-nil key in
    (
      (route-register key clear, rw whole at (call-register key [] clear present (inl refl))),
      (route-poll key clear, rw whole at (call-poll key [] clear present (inl refl))),
      (route-response key clear, rw whole at (call-response key [] clear present (inl refl))),
    )
