-- ===== src/Base/Text.antt =====
-- Go strings are byte strings; the functions of the `strings` package that the code calls.
use Prim.Native.Char.{code}
use Prim.Native.String.{String}
use Prim.Native.Nat.{ℕ, zero, suc, ◌+◌, ◌-◌, ◌≤◌}
use mathlib.Core.Path.{◌≡◌, refl, ap, sym}
use mathlib.Core.Bool.{Bool, true, false, ◌&&◌}
use mathlib.Core.Option
use mathlib.Core.Option.{Option, none, some}
use mathlib.Core.Logic.{inl, inr}
use mathlib.Core.List.{List, [], ◌∷◌, ◌++◌, map, append_assoc}
use native.Mathlib.Nat.{zero-add}
use native.Mathlib.Omega.{arith}
use single_proxy.Base.Tests.{leb, nat_beq, str_beq, if◌then◌else◌, is_some, Bool-cases}
use single_proxy.Base.Lists.{length, take, drop, length-append}

abbrev pub Str : Type 0
Str = List ℕ

-- The bytes of an ASCII literal.
abbrev pub codes : String → Str
codes String.[] = []
codes (String.◌∷◌ c s) = code c ∷ codes s

-- strings.ToLower on ASCII text.
abbrev lower_byte : ℕ → ℕ
lower_byte c = if leb b'A' c && leb c b'Z' then c + 32 else c

abbrev pub to_lower : Str → Str
to_lower = map lower_byte

-- strings.HasPrefix(s, prefix)
unfoldable pub has_prefix : Str → Str → Bool
has_prefix s [] = true
has_prefix [] (p ∷ ps) = false
has_prefix (c ∷ s) (p ∷ ps) = nat_beq c p && has_prefix s ps

-- strings.TrimPrefix(s, prefix)
unfoldable pub trim_prefix : Str → Str → Str
trim_prefix s p = if has_prefix s p then drop (length p) s else s

-- strings.HasSuffix(s, suffix)
unfoldable pub has_suffix : Str → Str → Bool
has_suffix s t = leb (length t) (length s) && str_beq (drop (length s - length t) s) t

-- strings.Index(s, sep), with `none` for -1.
unfoldable pub index : Str → Str → Option ℕ
index [] sep = if has_prefix [] sep then some 0 else none
index (c ∷ s) sep = if has_prefix (c ∷ s) sep then some 0 else Option.map suc (index s sep)

-- strings.Contains(s, sep)
unfoldable pub contains : Str → Str → Bool
contains s sep = is_some (index s sep)

-- strings.SplitN(s, sep, n) for n > 0 and a separator that is not empty.
unfoldable pub split_n : ℕ → Str → Str → List Str
split_n zero s sep = []
split_n (suc zero) s sep = s ∷ []
split_n (suc (suc n)) s sep = elim (index s sep) [
  | none ↦ s ∷ []
  | some m ↦ take m s ∷ split_n (suc n) (drop (m + length sep) s) sep
]

-- strings.Split(s, sep): there are at most len(s) + 1 pieces.
unfoldable pub split : Str → Str → List Str
split s sep = split_n (length s + 1) s sep

pub take-append : (s t : Str) → take (length s) (s ++ t) ≡ s
take-append [] t = refl
take-append (c ∷ s) t = ap (◌∷◌ c) (take-append s t)

pub drop-append : (s t : Str) → drop (length s) (s ++ t) ≡ t
drop-append [] t = refl
drop-append (c ∷ s) t = drop-append s t

pub drop-append-append : (s t u : Str) → drop (length s + length t) (s ++ (t ++ u)) ≡ u
drop-append-append s t u =
    let joined : s ++ (t ++ u) ≡ (s ++ t) ++ u = sym (append_assoc s t u) in
    rw (joined, ← length-append s t) (drop-append (s ++ t) u)

pub has_prefix_self : (p s : Str) → has_prefix (p ++ s) p ≡ true
unfolding has_prefix
has_prefix_self [] s = refl
has_prefix_self (c ∷ p) s = ground (arith, has_prefix_self p s)

-- Whether a prefix fits is settled by the first bytes.
pub has_prefix-append : (s t p : Str) → length p ≤ length s → has_prefix (s ++ t) p ≡ has_prefix s p
unfolding has_prefix
has_prefix-append s t [] h = refl
has_prefix-append [] t (x ∷ p) h = absurd (omega arith)
has_prefix-append (c ∷ s) t (x ∷ p) h = rw (has_prefix-append s t p (omega arith))

-- A match splits the text.
has_prefix-cut : (s p : Str) → has_prefix s p ≡ true → s ≡ p ++ drop (length p) s
unfolding has_prefix
has_prefix-cut s [] h = refl
has_prefix-cut [] (x ∷ p) h = cc
has_prefix-cut (c ∷ s) (x ∷ p) h = ground (arith, has_prefix-cut s p)

index-suc : (c : ℕ) (s sep : Str) (m : ℕ) → index (c ∷ s) sep ≡ some (suc m) → index s sep ≡ some m
unfolding index
index-suc c s sep m h = ground arith

-- What stands before the first occurrence, the separator, and the rest make up the text.
pub index-cut :
    (s sep : Str) (m : ℕ) → index s sep ≡ some m → s ≡ take m s ++ (sep ++ drop (m + length sep) s)
unfolding index
index-cut [] sep zero h = rw zero-add (has_prefix-cut [] sep (ground arith))
index-cut [] sep (suc m) h = absurd (ground arith)
index-cut (c ∷ s) sep zero h = elim (Bool-cases (has_prefix (c ∷ s) sep)) [
  | inl here ↦ rw zero-add (has_prefix-cut (c ∷ s) sep here)
  | inr later ↦ absurd (ground arith)
]
index-cut (c ∷ s) sep (suc m) h =
    let shift : suc m + length sep ≡ suc (m + length sep) = omega arith in
    rw shift (ap (◌∷◌ c) (index-cut s sep m (index-suc c s sep m h)))

index-prefix : (s sep : Str) → has_prefix s sep ≡ true → index s sep ≡ some 0
unfolding index
index-prefix [] sep h = rw h
index-prefix (c ∷ s) sep h = rw h

index-none :
    (c : ℕ) (s sep : Str)
    → index (c ∷ s) sep ≡ none
    → (has_prefix (c ∷ s) sep ≡ false) × (index s sep ≡ none)
unfolding index
index-none c s sep h = ground arith

-- The first occurrence of a separator stands where it was put, when no earlier one arises.
pub index-append :
    (base front rest : Str) (c : ℕ)
    → index (base ++ front) (front ++ c ∷ []) ≡ none
    → index (base ++ ((front ++ c ∷ []) ++ rest)) (front ++ c ∷ []) ≡ some (length base)
unfolding index
index-append [] front rest c h =
    index-prefix _ (front ++ c ∷ []) (has_prefix_self (front ++ c ∷ []) rest)
index-append (b ∷ base) front rest c h =
    let (not_here, not_later) = index-none b (base ++ front) (front ++ c ∷ []) h in
    let regroup : base ++ ((front ++ c ∷ []) ++ rest) ≡ (base ++ front) ++ c ∷ rest =
      simp append_assoc in
    let short : has_prefix (b ∷ (base ++ ((front ++ c ∷ []) ++ rest))) (front ++ c ∷ []) ≡ false =
      rw
        (
          regroup,
          has_prefix-append (b ∷ (base ++ front)) (c ∷ rest) (front ++ c ∷ [])
              (omega (arith, length-append front (c ∷ []), length-append base front)),
        )
        not_here in
    rw (short, index-append base front rest c not_later)
