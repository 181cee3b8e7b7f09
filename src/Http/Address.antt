-- ===== src/Http/Address.antt =====
-- net.SplitHostPort and net.JoinHostPort; `none` stands for an AddrError.
pub mod RoundTrip
use single_proxy.Base.{
  ℕ, suc, ◌+◌, ◌-◌, Str, codes, List, [], ◌∷◌, ◌++◌, Bool, true, false, ◌&&◌, ◌||◌, not, Option,
  none, some, take, drop, length, ◌==◌, nat_key, if◌then◌else◌,
}
use mathlib.Core.Option

-- strings.IndexByte and strings.LastIndexByte.
unfoldable pub index_byte : ℕ → Str → Option ℕ
index_byte b [] = none
index_byte b (c ∷ s) = if c == b then some 0 else Option.map suc (index_byte b s)

unfoldable pub last_index_byte : ℕ → Str → Option ℕ
last_index_byte b [] = none
last_index_byte b (c ∷ s) = elim (last_index_byte b s) [
  | some i ↦ some (suc i)
  | none ↦ if c == b then some 0 else none
]

unfoldable pub has_byte : ℕ → Str → Bool
has_byte b [] = false
has_byte b (c ∷ s) = c == b || has_byte b s

-- After the host is found: no bracket from `j` on and from `k` on, the port behind the last colon.
abbrev pub finish : Str → ℕ → ℕ → ℕ → Str → Option (Str × Str)
finish text i j k host =
    if has_byte b'[' (drop j text) || has_byte b']' (drop k text)
    then none
    else some (host, drop (i + 1) text)

-- An address that begins with a bracket, which must close right before the last colon.
abbrev pub bracketed : Str → ℕ → ℕ → Option (Str × Str)
bracketed text i end =
    if end + 1 == i then finish text i 1 (end + 1) (take (end - 1) (drop 1 text)) else none

abbrev pub plain : Str → ℕ → Option (Str × Str)
plain text i = if has_byte b':' (take i text) then none else finish text i 0 0 (take i text)

abbrev pub starts_bracket : Str → Bool
starts_bracket [] = false
starts_bracket (c ∷ s) = c == b'['

unfoldable pub split_host_port : Str → Option (Str × Str)
unfolding has_byte index_byte last_index_byte
split_host_port text = elim (last_index_byte b':' text) [
  | none ↦ none
  | some i ↦
      if starts_bracket text
      then elim (index_byte b']' text) [ none ↦ none | some end ↦ bracketed text i end ]
      else plain text i
]

unfoldable pub join_host_port : Str → Str → Str
unfolding has_byte
join_host_port host port =
    if has_byte b':' host
    then codes "[" ++ (host ++ (codes "]:" ++ port))
    else host ++ (codes ":" ++ port)
