-- ===== src/Http/Address/RoundTrip.antt =====
-- Joining a host and a port, and splitting the result.
use single_proxy.Base.{
  ℕ, suc, ◌+◌, Str, [], ◌∷◌, ◌++◌, false, ◌||◌, none, some, drop, length, ◌≡◌, refl, inl, inr,
  arith, Bool-cases, take-append, length-append, append_assoc,
}
use single_proxy.Http.Address.{
  starts_bracket, index_byte, last_index_byte, has_byte, split_host_port, join_host_port,
}

has_byte-append : (b : ℕ) (s t : Str) → has_byte b (s ++ t) ≡ (has_byte b s || has_byte b t)
unfolding has_byte
has_byte-append b [] t = refl
has_byte-append b (c ∷ s) t = ground (arith, has_byte-append b s t)

index_byte-append :
    (b : ℕ) (s t : Str) → has_byte b s ≡ false → index_byte b (s ++ b ∷ t) ≡ some (length s)
unfolding has_byte index_byte
index_byte-append b [] t h = ground arith
index_byte-append b (c ∷ s) t h = ground (arith, index_byte-append b s t)

last_index_byte-none : (b : ℕ) (t : Str) → has_byte b t ≡ false → last_index_byte b t ≡ none
unfolding has_byte last_index_byte
last_index_byte-none b [] h = refl
last_index_byte-none b (c ∷ t) h = ground (arith, last_index_byte-none b t)

last_index_byte-append :
    (b : ℕ) (s t : Str) → has_byte b t ≡ false → last_index_byte b (s ++ b ∷ t) ≡ some (length s)
unfolding last_index_byte
last_index_byte-append b [] t h = ground (arith, last_index_byte-none b t)
last_index_byte-append b (c ∷ s) t h = rw (last_index_byte-append b s t h)

drop-past : (s t : Str) (c : ℕ) → drop (length s + 1) (s ++ c ∷ t) ≡ t
drop-past s t c = let e : length s + 1 ≡ suc (length s) = omega arith in rw e (after s)
  where
    after : (u : Str) → drop (suc (length u)) (u ++ c ∷ t) ≡ t
    after [] = refl
    after (x ∷ u) = after u

starts_bracket-append :
    (host rest : Str) → has_byte b'[' host ≡ false → starts_bracket (host ++ b':' ∷ rest) ≡ false
unfolding has_byte
starts_bracket-append [] rest h = refl
starts_bracket-append (c ∷ host) rest h = ground arith

module _ (host port : Str) (h1 : has_byte b'[' host ≡ false) (h2 : has_byte b']' host ≡ false)
    (p1 : has_byte b'[' port ≡ false) (p2 : has_byte b']' port ≡ false)
    (p3 : has_byte b':' port ≡ false) where
  split-plain :
      has_byte b':' host ≡ false → split_host_port (host ++ b':' ∷ port) ≡ some (host, port)
  unfolding split_host_port has_byte
  split-plain h3 = ground (
    arith,
    last_index_byte-append b':' host port p3,
    starts_bracket-append host port h1,
    take-append host (b':' ∷ port),
    drop-past host port b':',
    has_byte-append b'[' host (b':' ∷ port),
    has_byte-append b']' host (b':' ∷ port),
  )

  split-bracketed : split_host_port (b'[' ∷ (host ++ b']' ∷ b':' ∷ port)) ≡ some (host, port)
  unfolding split_host_port has_byte
  split-bracketed = ground (
    arith,
    last_index_byte-append b':' (b'[' ∷ (host ++ b']' ∷ [])) port p3,
    append_assoc host (b']' ∷ []) (b':' ∷ port),
    length-append host (b']' ∷ []),
    index_byte-append b']' (b'[' ∷ host) (b':' ∷ port),
    take-append host (b']' ∷ b':' ∷ port),
    drop-past (b'[' ∷ host) (b':' ∷ port) b']',
    drop-past (b'[' ∷ (host ++ b']' ∷ [])) port b':',
    has_byte-append b'[' host (b']' ∷ b':' ∷ port),
  )

-- A host and a port without brackets, the port without a colon, come back from the joined
-- address, also where the host holds colons as an IPv6 address does.
pub split-join_host_port :
    (host port : Str)
    → has_byte b'[' host ≡ false
    → has_byte b']' host ≡ false
    → has_byte b'[' port ≡ false
    → has_byte b']' port ≡ false
    → has_byte b':' port ≡ false
    → split_host_port (join_host_port host port) ≡ some (host, port)
unfolding split_host_port join_host_port
split-join_host_port host port h1 h2 p1 p2 p3 = elim (Bool-cases (has_byte b':' host)) [
  | inl v6 ↦ rw v6 (split-bracketed host port h1 h2 p1 p2 p3)
  | inr v4 ↦ rw v4 (split-plain host port h1 h2 p1 p2 p3 v4)
]
