-- ===== src/Server/Proxy/Target.antt =====
-- The target in a path of the path proxy.
use single_proxy.Base.{
  Str, codes, List, [], ◌∷◌, ◌++◌, true, false, none, some, contains, index, has_prefix, split_n,
  has_prefix_self, take-append, drop-append-append, index-append, append-nil, append_assoc, length,
  ◌≡◌, refl, ap, ◌∙◌, arith, Bool-cases, inl, inr,
}
use single_proxy.Http.Address.{join_host_port, has_byte}
use single_proxy.Http.Address.RoundTrip.{split-join_host_port}
use single_proxy.Server.Route.{proxy_mark}
use single_proxy.Server.Route.Keys.{trim_prefix-append, split_n-cons}
use single_proxy.Server.Proxy.{target, proxy_target, target_of, target_at, rest_path, address_of}

abbrev colon : Str
colon = codes ":"

abbrev slash : Str
slash = codes "/"

contains-colon : (s t : Str) → contains (s ++ (colon ++ t)) colon ≡ true
unfolding contains index has_prefix
contains-colon [] t = refl
contains-colon (c ∷ s) t = ground (arith, contains-colon s t)

regroup :
    (host port : Str)
    → codes "[" ++ (host ++ (codes "]:" ++ port))
      ≡ (codes "[" ++ (host ++ codes "]")) ++ (colon ++ port)
regroup host port = simp append_assoc

contains-join_host_port : (host port : Str) → contains (join_host_port host port) colon ≡ true
unfolding join_host_port
contains-join_host_port host port = elim (Bool-cases (has_byte b':' host)) [
  | inl v6 ↦ rw v6 (
      ap (λ t. contains t colon) (regroup host port)
      ∙ contains-colon (codes "[" ++ (host ++ codes "]")) port)
  | inr v4 ↦ rw v4 (contains-colon host port)
]

target_of-present :
    (text : Str) (rest : List Str)
    → contains text colon ≡ true
    → target_of (text ∷ rest) ≡ target_at (address_of text) (rest_path rest)
unfolding target_of contains index has_prefix
target_of-present [] rest h = ground arith
target_of-present (c ∷ text) rest h = refl

two_pieces :
    (text rest : Str)
    → index text slash ≡ none
    → split_n 2 (text ++ (slash ++ rest)) slash ≡ text ∷ rest ∷ []
unfolding split_n
two_pieces text rest clear =
    let at : index (text ++ (slash ++ rest)) slash ≡ some (length text) =
      index-append text [] rest b'/' (rw (append-nil text) clear) in
    rw (
      split_n-cons 0 (text ++ (slash ++ rest)) slash (length text) at,
      take-append text (slash ++ rest),
      drop-append-append text slash rest,
    )

-- If a host holds no bracket, a port holds neither bracket nor colon, and the address that joins
-- them holds no slash, then the path that names the address and a further path is taken apart to
-- just that host, that port and that path.
pub proxy_target-join_host_port :
    (host port path : Str)
    → has_byte b'[' host ≡ false
    → has_byte b']' host ≡ false
    → has_byte b'[' port ≡ false
    → has_byte b']' port ≡ false
    → has_byte b':' port ≡ false
    → index (join_host_port host port) (codes "/") ≡ none
    → proxy_target (codes "/proxy/" ++ (join_host_port host port ++ (codes "/" ++ path)))
      ≡ target host port (codes "/" ++ path)
unfolding proxy_target target_at address_of rest_path
proxy_target-join_host_port host port path h1 h2 p1 p2 p3 clear =
    let text : Str = join_host_port host port in
    let present : contains text colon ≡ true = contains-join_host_port host port in
    rw
      (
        has_prefix_self proxy_mark (text ++ (slash ++ path)),
        trim_prefix-append proxy_mark (text ++ (slash ++ path)),
        two_pieces text path clear,
        target_of-present text (path ∷ []) present,
        present,
        split-join_host_port host port h1 h2 p1 p2 p3,
      )
      refl
