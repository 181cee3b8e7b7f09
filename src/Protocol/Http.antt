-- ===== src/Protocol/Http.antt =====
-- pkg/protocol/http.go. A request is serialised as request line, headers, empty line and body.
-- http.ReadRequest and http.ReadResponse, which the two other functions wrap, are parameters.
use single_proxy.Base.{
  ℕ, Str, codes, List, [], ◌∷◌, ◌++◌, map, Bool, true, false, ◌&&◌, ◌||◌, Option, none, some, ltb,
  ◌==◌, nat_key, if◌then◌else◌,
}
use mathlib.Core.List.{reverse}
use single_proxy.Http.Header.{Header, all_token}

abbrev pub crlf : Str
crlf = 13 ∷ 10 ∷ []

-- http.Request, with what reading its body gives: nothing, bytes, or an error.
pub data Body : Type 0 where
  no_body broken : Body
  body : Str → Body

pub record Request : Type 0 where
  pub method : Str
  pub path : Str
  -- r.URL.RequestURI()
  pub request_uri : Str
  pub host : Str
  pub remote_addr : Str
  pub header : Header
  pub content : Body

-- The order of keys in http.Header.Write.
abbrev before : Str → Str → Bool
before [] t = true
before (a ∷ s) [] = false
before (a ∷ s) (b ∷ t) = ltb a b || (a == b && before s t)

insert_sorted : Str × List Str → Header → Header
insert_sorted kv [] = kv ∷ []
insert_sorted (k, vs) ((j, ws) ∷ h) =
    let rest = insert_sorted (k, vs) h in
    if before k j then (k, vs) ∷ (j, ws) ∷ h else (j, ws) ∷ rest

sort_header : Header → Header
sort_header [] = []
sort_header (kv ∷ h) = insert_sorted kv (sort_header h)

-- Line breaks in a value become spaces, and blanks round it are dropped.
abbrev newline_to_space : ℕ → ℕ
newline_to_space c = if c == 10 || c == 13 then 32 else c

abbrev is_blank : ℕ → Bool
is_blank c = c == 32 || c == 9 || c == 10 || c == 13

trim_left : Str → Str
trim_left [] = []
trim_left (c ∷ s) = let rest = trim_left s in if is_blank c then rest else c ∷ s

unfoldable pub clean_value : Str → Str
unfolding trim_left
clean_value v = reverse (trim_left (reverse (trim_left (map newline_to_space v))))

unfoldable pub written_values : Str → List Str → Str
unfolding clean_value
written_values key [] = []
written_values key (v ∷ vs) =
    key ++ (codes ": " ++ (clean_value v ++ (crlf ++ written_values key vs)))

abbrev is_named : Str → Bool
is_named [] = false
is_named (c ∷ s) = true

-- An invalid field name is left out.
written_from : Header → Str
written_from [] = []
written_from ((key, vs) ∷ h) =
    if is_named key && all_token key
    then written_values key vs ++ written_from h
    else written_from h

-- Header.Write
unfoldable pub header_write : Header → Str
unfolding written_from sort_header insert_sorted written_values
header_write h = written_from (sort_header h)

-- What stands before the body.
unfoldable pub request_head : Request → Str
unfolding header_write
request_head r =
    r.method
    ++ (codes " "
        ++ (r.request_uri ++ (codes " HTTP/1.1" ++ (crlf ++ (header_write r.header ++ crlf)))))

-- SerializeHTTPRequest; `none` is the error of copying the body.
unfoldable pub serialize_http_request : Request → Option Str
unfolding request_head
serialize_http_request r = elim r.content [
  | no_body ↦ some (request_head r)
  | broken ↦ none
  | body bytes ↦ some (request_head r ++ bytes)
]
