-- ===== src/Server/Route/Keys.antt =====
-- Where paths with the marks are routed, and which keys the handlers take from them.
use single_proxy.Base.{
  ℕ, zero, suc, ◌+◌, ◌-◌, ◌<◌, Str, codes, List, [], ◌∷◌, ◌++◌, true, false, none, some, take, drop,
  length, trim_prefix, has_suffix, index, contains, split_n, split, ◌==◌, str_key, str_beq_iff, ◌≡◌,
  ◌≢◌, ◌⊎◌, inl, inr, refl, ap, sym, ◌∙◌, arith, index-append, take-append, drop-append,
  drop-append-append, length-append, has_prefix_self, append_assoc, append-nil,
}
use single_proxy.Server.Route.{
  route, tunnel_registration, tunnel_key, second, ws_mark, tunnel_mark, tunnel_call, parts_of,
  operation_of,
}

split_n-none : (k : ℕ) (s sep : Str) → index s sep ≡ none → split_n (suc k) s sep ≡ s ∷ []
unfolding split_n
split_n-none zero s sep e = refl
split_n-none (suc k) s sep e = rw (e, split_n)

-- The pieces before and behind the first separator.
pub split_n-cons :
    (k : ℕ) (s sep : Str) (m : ℕ)
    → index s sep ≡ some m
    → split_n (suc (suc k)) s sep ≡ take m s ∷ split_n (suc k) (drop (m + length sep) s) sep
unfolding split_n
split_n-cons k s sep m e = rw (e, split_n)

has_suffix-append : (s t : Str) → has_suffix (s ++ t) t ≡ true
unfolding has_suffix
has_suffix-append s t = ground (
  arith,
  length-append s t,
  drop-append s t,
  str_beq_iff (drop (length (s ++ t) - length t) (s ++ t)) t,
  ap (λ (n : ℕ). drop n (s ++ t)) (cut s t),
)
  where
    cut : (s t : Str) → length (s ++ t) - length t ≡ length s
    cut s t = omega (arith, length-append s t)

module _ (base key : Str) (clear : index (base ++ codes "/ws") ws_mark ≡ none) where
  ws_index : index (base ++ (ws_mark ++ key)) ws_mark ≡ some (length base)
  ws_index = index-append base (codes "/ws") key b'/' clear

  -- The key of a registration is all that follows the first mark.
  pub tunnel_key-ws : tunnel_key (base ++ (ws_mark ++ key)) ≡ key
  unfolding tunnel_key
  tunnel_key-ws = rw (ws_index, tunnel_key) (drop-append-append base ws_mark key)

  ws_pieces : index key ws_mark ≡ none → second (split (base ++ (ws_mark ++ key)) ws_mark) ≡ key
  unfolding split
  ws_pieces last =
      let path : Str = base ++ (ws_mark ++ key) in
      let count : length path + 1 ≡ suc (suc (length path - 1)) =
        omega (arith, length-append base (ws_mark ++ key)) in
      rw (
        count,
        split_n-cons (length path - 1) path ws_mark (length base) ws_index,
        drop-append-append base ws_mark key,
        split_n-none (length path - 1) key ws_mark last,
      )

  -- A path with the mark once is a tunnel registration.
  pub route-ws : index key ws_mark ≡ none → route (base ++ (ws_mark ++ key)) ≡ tunnel_registration
  unfolding route contains
  route-ws last =
      let ends : has_suffix (base ++ (ws_mark ++ key)) key ≡ true =
        rw (sym (append_assoc base ws_mark key)) (has_suffix-append (base ++ ws_mark) key) in
      rw (ws_index, ws_pieces last, ends)

-- What may follow the key in a path: nothing, or a slash and more.
abbrev pub Trailer : Str → Type 0
Trailer rest = (rest ≡ []) ⊎ ((more : Str) × (rest ≡ b'/' ∷ more))

abbrev slash : Str
slash = codes "/"

-- The first piece of a text that is cut at slashes.
first_piece :
    (k : ℕ) (key rest : Str)
    → index key slash ≡ none
    → Trailer rest
    → (pieces : List Str) × (split_n (suc (suc k)) (key ++ rest) slash ≡ key ∷ pieces)
first_piece k key rest clear (inl e) =
    ([], rw (e, append-nil key) (split_n-none (suc k) key slash clear))
first_piece k key rest clear (inr (more, e)) =
    let at : index (key ++ (slash ++ more)) slash ≡ some (length key) =
      index-append key [] more b'/' (rw (append-nil key) clear) in
    (
      split_n (suc k) (drop (length key + 1) (key ++ (slash ++ more))) slash,
      rw e (
          split_n-cons k (key ++ (slash ++ more)) slash (length key) at
          ∙ ap
              (λ (t : Str).
                t ∷ split_n (suc k) (drop (length key + 1) (key ++ (slash ++ more))) slash)
              (take-append key (slash ++ more))),
    )

length-pos : (s : Str) → s ≢ [] → 0 < length s
length-pos [] h = absurd (h refl)
length-pos (c ∷ s) h = omega arith

beq_nil : (s : Str) → s ≢ [] → (s == []) ≡ false
beq_nil [] h = absurd (h refl)
beq_nil (c ∷ s) h = refl

pub trim_prefix-append : (p s : Str) → trim_prefix (p ++ s) p ≡ s
unfolding trim_prefix
trim_prefix-append p s = rw (has_prefix_self p s) (drop-append p s)

module _ (operation key rest : Str) (op_clear : index operation (codes "/") ≡ none)
    (key_clear : index key (codes "/") ≡ none) (present : key ≢ []) (trailer : Trailer rest) where
  tunnel_pieces :
      (pieces : List Str) × (split (operation ++ (codes "/" ++ (key ++ rest))) (codes "/")
        ≡ operation ∷ key ∷ pieces)
  unfolding split
  tunnel_pieces =
      let text : Str = operation ++ (slash ++ (key ++ rest)) in
      let at : index text slash ≡ some (length operation) =
        index-append operation [] (key ++ rest) b'/' (rw (append-nil operation) op_clear) in
      let count : length text + 1 ≡ suc (suc (suc (length text - 2))) = omega (
        arith,
        length-append operation (slash ++ (key ++ rest)),
        length-append key rest,
        length-pos key present,
      ) in
      let (pieces, e) = first_piece (length text - 2) key rest key_clear trailer in
      (
        pieces,
        rw
            (
              count,
              split_n-cons (suc (length text - 2)) text slash (length operation) at,
              take-append operation (slash ++ (key ++ rest)),
              drop-append-append operation slash (key ++ rest),
            )
            (ap (◌∷◌ operation) e),
      )

  -- The call of the HTTP tunnel takes the operation before the first slash and the key up to the
  -- next one.
  pub tunnel_call-path :
      tunnel_call (tunnel_mark ++ (operation ++ (codes "/" ++ (key ++ rest))))
      ≡ operation_of operation key
  unfolding tunnel_call parts_of
  tunnel_call-path =
      let (pieces, e) = tunnel_pieces in
      let named : (key == []) ≡ false = beq_nil key present in
      rw (trim_prefix-append tunnel_mark (operation ++ (slash ++ (key ++ rest))), e, named)
