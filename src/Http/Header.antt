-- ===== src/Http/Header.antt =====
-- http.Header: a map from canonical names to lists of values.
use single_proxy.Base.{
  ℕ, ◌+◌, ◌-◌, Str, codes, List, [], ◌∷◌, ◌++◌, Bool, true, false, not, ◌&&◌, ◌||◌, none, some, Map,
  lookup, insert, delete, leb, ◌==◌, nat_key, str_key, if◌then◌else◌,
}

abbrev pub Header : Type 0
Header = Map Str (List Str)

is_letter : ℕ → Bool
is_letter c = (leb b'a' c && leb c b'z') || (leb b'A' c && leb c b'Z')

contains_byte : Str → ℕ → Bool
contains_byte [] b = false
contains_byte (c ∷ s) b = c == b || contains_byte s b

-- The bytes of a header field name: letters, digits and a few marks.
unfoldable pub is_token : ℕ → Bool
unfolding is_letter contains_byte
is_token c = is_letter c || (leb b'0' c && leb c b'9') || contains_byte (codes "!#$%&'*+-.^_`|~") c

unfoldable pub all_token : Str → Bool
unfolding is_token
all_token [] = true
all_token (c ∷ s) = is_token c && all_token s

-- Letters after a dash and at the start in upper case, all others in lower case.
canonical_from : Bool → Str → Str
canonical_from upper [] = []
canonical_from upper (c ∷ s) =
    (if upper && leb b'a' c && leb c b'z'
      then c - 32
      else if not upper && leb b'A' c && leb c b'Z'
      then c + 32
      else c)
    ∷ canonical_from (c == b'-') s

-- textproto.CanonicalMIMEHeaderKey: a name with other bytes stays as it is.
unfoldable pub canonical : Str → Str
unfolding all_token canonical_from
canonical s = if all_token s then canonical_from true s else s

abbrev pub values : Str → Header → List Str
values k h = elim (lookup k h) [ none ↦ [] | some vs ↦ vs ]

-- Header.Get, Header.Set, Header.Add, Header.Del.
unfoldable pub get : Str → Header → Str
unfolding canonical
get k h = elim (values (canonical k) h) [ [] ↦ [] | v ∷ vs ↦ v ]

unfoldable pub set : Str → Str → Header → Header
unfolding canonical
set k v h = insert (canonical k) (v ∷ []) h

unfoldable pub add : Str → Str → Header → Header
unfolding canonical
add k v h = insert (canonical k) (values (canonical k) h ++ v ∷ []) h

unfoldable pub del : Str → Header → Header
unfolding canonical
del k h = delete (canonical k) h

-- The loop `for _, value := range values { h.Add(key, value) }`, and that over all headers.
unfoldable pub add_values : Str → List Str → Header → Header
unfolding add
add_values k [] h = h
add_values k (v ∷ vs) h = add_values k vs (add k v h)

unfoldable pub add_all : Header → Header → Header
unfolding add_values
add_all [] h = h
add_all ((k, vs) ∷ from) h = add_all from (add_values k vs h)

-- The loop `for k, v := range from { h[k] = v }`.
unfoldable pub assign_all : Header → Header → Header
assign_all [] h = h
assign_all ((k, vs) ∷ from) h = assign_all from (insert k vs h)
