-- ===== src/Server/Conn/Replay.antt =====
-- What a reader of a prefixedConn sees: the bytes read for protocol detection, then the rest.
use single_proxy.Base.{
  ℕ, ◌≡◌, ◌<◌, refl, ap, ◌∙◌, Str, List, [], ◌∷◌, ◌++◌, false, Option, none, some, take, drop,
  length, arith, str_beq_iff, append_assoc, if◌then◌else◌, ltb, zero, suc, ◌==◌, str_key,
}
use single_proxy.Server.Conn.{Supply, supplies, fails, PrefixedConn, read}

-- What is still to be read.
abbrev pub unread : PrefixedConn → Str
unread pc = (if pc.prefix_read then [] else pc.prefix) ++ pc.incoming

abbrev pub got : Option Str → Str
got none = []
got (some bytes) = bytes

take-take-rest : (n k : ℕ) (s : Str) → take n (take k s) ++ drop (length (take n (take k s))) s ≡ s
take-take-rest zero k s = refl
take-take-rest (suc n) zero s = refl
take-take-rest (suc n) (suc k) [] = refl
take-take-rest (suc n) (suc k) (c ∷ s) = ap (◌∷◌ c) (take-take-rest n k s)

take-rest : (n : ℕ) (s : Str) → take n s ++ drop (length (take n s)) s ≡ s
take-rest zero s = refl
take-rest (suc n) [] = refl
take-rest (suc n) (c ∷ s) = ap (◌∷◌ c) (take-rest n s)

take-whole : (n : ℕ) (s : Str) → ltb (length (take n s)) (length s) ≡ false → take n s ≡ s
take-whole zero [] h = refl
take-whole zero (c ∷ s) h = absurd (ground arith)
take-whole (suc n) [] h = refl
take-whole (suc n) (c ∷ s) h = ap (◌∷◌ c) (take-whole n s (ground arith))

take-nonempty : (n : ℕ) (s : Str) → 0 < n → 0 < length s → 0 < length (take n s)
take-nonempty zero s h k = h
take-nonempty (suc n) [] h k = k
take-nonempty (suc n) (c ∷ s) h k = omega arith

beq_nil : (s : Str) → 0 < length s → (s == []) ≡ false
beq_nil [] h = absurd (omega arith)
beq_nil (c ∷ s) h = refl

read-unread :
    (n : ℕ) (supply : Supply) (pc : PrefixedConn)
    → got (read n supply pc).0 ++ unread (read n supply pc).1 ≡ unread pc
unfolding read
read-unread n (supplies k) pc = ground (
  arith,
  take-take-rest n k pc.incoming,
  take-rest n pc.prefix,
  take-whole n pc.prefix,
  append_assoc (take n pc.prefix) (drop (length (take n pc.prefix)) pc.prefix) pc.incoming,
  str_beq_iff pc.prefix [],
)
read-unread n fails pc = ground (
  arith,
  take-rest n pc.prefix,
  take-whole n pc.prefix,
  append_assoc (take n pc.prefix) (drop (length (take n pc.prefix)) pc.prefix) pc.incoming,
  str_beq_iff pc.prefix [],
)

-- Reads with the given buffer sizes and supplies, and the bytes that they return.
abbrev pub reads : List (ℕ × Supply) → PrefixedConn → Str × PrefixedConn
reads [] pc = ([], pc)
reads ((n, supply) ∷ calls) pc =
    let later = reads calls (read n supply pc).1 in (got (read n supply pc).0 ++ later.0, later.1)

-- Any sequence of reads returns the bytes of the prefix and of the connection in order, without
-- loss or repetition: what was returned, followed by what is unread, is what was unread at first.
pub reads-unread :
    (calls : List (ℕ × Supply)) (pc : PrefixedConn)
    → (reads calls pc).0 ++ unread (reads calls pc).1 ≡ unread pc
reads-unread [] pc = refl
reads-unread ((n, supply) ∷ calls) pc =
    append_assoc (got (read n supply pc).0) _ _
    ∙ ap (◌++◌ (got (read n supply pc).0)) (reads-unread calls (read n supply pc).1)
    ∙ read-unread n supply pc

-- While some of the prefix is left, a read with room for a byte succeeds, whatever the connection
-- below does, returns at least one byte of the prefix, and leaves the connection's bytes alone.
pub read-prefix :
    (n : ℕ) (supply : Supply) (pc : PrefixedConn)
    → 0 < n
    → pc.prefix_read ≡ false
    → 0 < length pc.prefix
    → (bytes : Str) × (read n supply pc ≡ (some bytes, (read n supply pc).1))
      × (0 < length bytes)
      × ((read n supply pc).1.incoming ≡ pc.incoming)
unfolding read
read-prefix n supply pc room fresh left =
    let some_left = beq_nil pc.prefix left in
    (
      take n pc.prefix,
      rw (fresh, some_left),
      take-nonempty n pc.prefix room left,
      rw (fresh, some_left) (ground arith),
    )
