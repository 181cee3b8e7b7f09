-- ===== src/Http/Forward/Laws.antt =====
-- What is forwarded and what is logged of a header.
use single_proxy.Base.{
  Str, List, [], ◌∷◌, Option, All, lookup, str_key, str_beq_iff, ◌==◌, ◌||◌, if◌then◌else◌, ◌≡◌,
  ◌≢◌, refl, ◌∙◌, arith, lookup-delete, lookup-delete_self, Bool-cases, inl, inr, codes, to_lower,
  true, false, ◌⊎◌,
}
use mathlib.Core.Option
use single_proxy.Http.Header.{Header, get, del, canonical}
use single_proxy.Http.Forward.{
  forward_to_target, remove_headers, hop_headers, outgoing, Outgoing, sanitize_headers, is_secret,
  redacted,
}
use single_proxy.Protocol.Http.{Request}

get-del_self : (name : Str) (h : Header) → get name (del name h) ≡ []
unfolding get del
get-del_self name h = ground (arith, lookup-delete_self (canonical name) h)

-- What is gone stays gone.
get-remove : (name other : Str) (h : Header) → get name h ≡ [] → get name (del other h) ≡ []
unfolding get del
get-remove name other h gone =
    ground (arith, lookup-delete (canonical other) (canonical name) h, gone)

-- One round of the loop.
abbrev cleared : Str → Header → Header
cleared name h = if get name h == [] then h else del name h

get-cleared : (name : Str) (h : Header) → get name (cleared name h) ≡ []
get-cleared name h = ground (arith, str_beq_iff (get name h) [], get-del_self name h)

get-cleared_other :
    (name other : Str) (h : Header) → get name h ≡ [] → get name (cleared other h) ≡ []
get-cleared_other name other h gone = ground (arith, get-remove name other h gone, gone)

get-remove_headers :
    (name : Str) (names : List Str) (h : Header)
    → get name h ≡ []
    → get name (remove_headers names h) ≡ []
unfolding remove_headers
get-remove_headers name [] h gone = gone
get-remove_headers name (other ∷ names) h gone =
    get-remove_headers name names (cleared other h) (get-cleared_other name other h gone)

-- A key that is not the canonical name of a removed header.
abbrev pub Apart : Str → List Str → Type 0
Apart key names = All (λ (name : Str). canonical name ≢ key) names

lookup-del :
    (name key : Str) (h : Header) → canonical name ≢ key → lookup key (del name h) ≡ lookup key h
unfolding del
lookup-del name key h apart =
    ground (arith, lookup-delete (canonical name) key h, str_beq_iff (canonical name) key, apart)

lookup-cleared :
    (name key : Str) (h : Header)
    → canonical name ≢ key
    → lookup key (cleared name h) ≡ lookup key h
lookup-cleared name key h apart = ground (arith, lookup-del name key h apart)

remove_headers-gone :
    (names : List Str) (h : Header)
    → All (λ (name : Str). get name (remove_headers names h) ≡ []) names
unfolding remove_headers
remove_headers-gone [] h = tt
remove_headers-gone (name ∷ names) h = (
  get-remove_headers name names (cleared name h) (get-cleared name h),
  remove_headers-gone names (cleared name h),
)

lookup-remove_headers :
    (key : Str) (names : List Str) (h : Header)
    → Apart key names
    → lookup key (remove_headers names h) ≡ lookup key h
unfolding remove_headers
lookup-remove_headers key [] h apart = refl
lookup-remove_headers key (name ∷ names) h (differs, apart) =
    lookup-remove_headers key names (cleared name h) apart ∙ lookup-cleared name key h differs

-- The eight names of headers that are meant for one connection.
abbrev pub names_of_one_connection : List Str
names_of_one_connection =
    codes "Connection"
    ∷ codes "Keep-Alive"
    ∷ codes "Proxy-Authenticate"
    ∷ codes "Proxy-Authorization"
    ∷ codes "TE"
    ∷ codes "Trailers"
    ∷ codes "Transfer-Encoding"
    ∷ codes "Upgrade"
    ∷ []

-- client.Do is called once, for the target that is given and with the method, the address, the host
-- and the body of the request; Get finds nothing under the eight names that are meant for one
-- connection, and what the header holds under any other name is unchanged.
pub forward_to_target-strips :
    {World Answer : Type 0} (do_request : Outgoing → World → Option Answer × World) (r : Request)
    (target : Str) (w : World)
    → (o : Outgoing) × (forward_to_target do_request r target w ≡ do_request o w)
      × (o.url_host ≡ target)
      × (o.method ≡ r.method)
      × (o.uri ≡ r.request_uri)
      × (o.host_header ≡ r.host)
      × (o.content ≡ r.content)
      × All (λ (name : Str). get name o.header ≡ []) names_of_one_connection
      × ((key : Str)
          → Apart key names_of_one_connection
          → lookup key o.header ≡ lookup key r.header)
unfolding forward_to_target outgoing
forward_to_target-strips do_request r target w = (
  outgoing r target,
  refl,
  refl,
  refl,
  refl,
  refl,
  refl,
  remove_headers-gone hop_headers r.header,
  λ key apart. lookup-remove_headers key hop_headers r.header apart,
)

-- The names whose values are not to be logged, in any case of their letters.
abbrev pub Secret : Str → Type 0
Secret key =
    (to_lower key ≡ codes "authorization")
    ⊎ (to_lower key ≡ codes "cookie")
    ⊎ (to_lower key ≡ codes "x-tunnel-key")

abbrev pub Harmless : Str → Type 0
Harmless key =
    (to_lower key ≢ codes "authorization")
    × (to_lower key ≢ codes "cookie")
    × (to_lower key ≢ codes "x-tunnel-key")

or-cases :
    (t a b c : Str)
    → ((((t == a) || (t == b) || (t == c)) ≡ true) × ((t ≡ a) ⊎ (t ≡ b) ⊎ (t ≡ c)))
      ⊎ ((((t == a) || (t == b) || (t == c)) ≡ false) × ((t ≢ a) × (t ≢ b) × (t ≢ c)))
or-cases t a b c = ground (arith, str_beq_iff t a, str_beq_iff t b, str_beq_iff t c)

is_secret-cases :
    (key : Str) → ((is_secret key ≡ true) × Secret key) ⊎ ((is_secret key ≡ false) × Harmless key)
unfolding is_secret
is_secret-cases key =
    or-cases (to_lower key) (codes "authorization") (codes "cookie") (codes "x-tunnel-key")

lookup-sanitize_if :
    (key : Str) (h : Header)
    → lookup key (sanitize_headers h) ≡ (
        if is_secret key
        then Option.map (λ (vs : List Str). redacted) (lookup key h)
        else lookup key h)
unfolding lookup sanitize_headers
lookup-sanitize_if key [] = elim (Bool-cases (is_secret key)) [
  | inl secret ↦ rw (secret)
  | inr open_ ↦ rw (open_)
]
lookup-sanitize_if key ((name, vs) ∷ h) =
    ground (arith, lookup-sanitize_if key h, str_beq_iff name key)

-- A sanitised header has the names of the header. Under Authorization, Cookie and X-Tunnel-Key, in
-- any case of their letters, there is the one value [REDACTED], and under any other name there are
-- the values of the header.
pub lookup-sanitize_headers :
    (key : Str) (h : Header)
    → (Secret key
        × (lookup key (sanitize_headers h)
            ≡ Option.map (λ (vs : List Str). codes "[REDACTED]" ∷ []) (lookup key h)))
      ⊎ (Harmless key × (lookup key (sanitize_headers h) ≡ lookup key h))
lookup-sanitize_headers key h = elim (is_secret-cases key) [
  | inl (hit, secret) ↦ inl (secret, lookup-sanitize_if key h ∙ rw (hit) refl)
  | inr (miss, harmless) ↦ inr (harmless, lookup-sanitize_if key h ∙ rw (miss) refl)
]
