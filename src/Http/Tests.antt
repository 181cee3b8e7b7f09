-- ===== src/Http/Tests.antt =====
-- Runs of the net and net/http functions.
use mathlib.Core.Option
use single_proxy.Base.{
  ℕ, ◌+◌, Str, codes, List, [], ◌∷◌, All, Option, some, none, lookup, str_key, ◌≡◌, refl,
}
use single_proxy.Http.Forward.{Outgoing, forward_to_target, sanitize_headers}
use single_proxy.Http.Forward.Laws.{
  Apart, forward_to_target-strips, names_of_one_connection, Secret, Harmless,
  lookup-sanitize_headers,
}
use single_proxy.Base.{◌⊎◌}
use single_proxy.Samples.{get_request}
use single_proxy.Http.Header.{Header, canonical, get}
use single_proxy.Http.Address.{split_host_port, join_host_port, has_byte}
use single_proxy.Http.Address.RoundTrip.{split-join_host_port}

split-join_host_port_example :
    split_host_port (join_host_port (codes "::1") (codes "80")) ≡ some (codes "::1", codes "80")
unfolding has_byte
split-join_host_port_example =
    split-join_host_port (codes "::1") (codes "80") refl refl refl refl refl

canonical_key : canonical (codes "x-tunnel-KEY") ≡ codes "X-Tunnel-Key"
unfolding canonical
canonical_key = refl

no_port : split_host_port (codes "10.0.0.1") ≡ none
unfolding split_host_port
no_port = refl

abbrev chatty : Header
chatty = (codes "Upgrade", codes "h2c" ∷ []) ∷ (codes "X-App", codes "demo" ∷ []) ∷ []

abbrev no_answer : Outgoing → ℕ → Option ℕ × ℕ
no_answer o count = (none, count + 1)

forward_to_target-strips_example :
    (o : Outgoing) × (forward_to_target no_answer
        (record get_request { header = chatty })
        (codes "t:80")
        0
      ≡ no_answer o 0)
    × (o.url_host ≡ codes "t:80")
    × (o.method ≡ get_request.method)
    × (o.uri ≡ get_request.request_uri)
    × (o.host_header ≡ get_request.host)
    × (o.content ≡ get_request.content)
    × All (λ (name : Str). get name o.header ≡ []) names_of_one_connection
    × ((key : Str) → Apart key names_of_one_connection → lookup key o.header ≡ lookup key chatty)
forward_to_target-strips_example =
    forward_to_target-strips no_answer (record get_request { header = chatty }) (codes "t:80") 0

abbrev telling : Header
telling = (codes "X-TUNNEL-key", codes "web" ∷ []) ∷ []

lookup-sanitize_headers_example :
    (Secret (codes "X-TUNNEL-key")
      × (lookup (codes "X-TUNNEL-key") (sanitize_headers telling)
          ≡ Option.map
              (λ (vs : List Str). codes "[REDACTED]" ∷ [])
              (lookup (codes "X-TUNNEL-key") telling)))
    ⊎ (Harmless (codes "X-TUNNEL-key")
        × (lookup (codes "X-TUNNEL-key") (sanitize_headers telling)
            ≡ lookup (codes "X-TUNNEL-key") telling))
lookup-sanitize_headers_example = lookup-sanitize_headers (codes "X-TUNNEL-key") telling
