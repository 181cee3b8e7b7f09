-- ===== src/Base/Tests.antt =====
-- Boolean tests on numbers and on byte strings, equality as an interface, the conditional.
use Prim.Native.Nat.{ℕ, compare, Ordering}
use mathlib.Core.Path.{◌≡◌, refl}
use mathlib.Core.Logic.{◌↔◌, ◌⊎◌, inl, inr}
use mathlib.Core.Bool.{Bool, true, false, ◌&&◌}
use mathlib.Core.Option.{Option, none, some}
use mathlib.Core.List.{List, [], ◌∷◌}
use native.Mathlib.Omega.{arith}

abbrev pub ltb : ℕ → ℕ → Bool
ltb a b = elim (compare a b) [ Ordering.lt ↦ true | _ ↦ false ]

abbrev pub leb : ℕ → ℕ → Bool
leb a b = elim (compare a b) [ Ordering.gt ↦ false | _ ↦ true ]

abbrev pub nat_beq : ℕ → ℕ → Bool
nat_beq a b = elim (compare a b) [ Ordering.eq ↦ true | _ ↦ false ]

infix 1 if◌then◌else◌
abbrev pub if◌then◌else◌ {ℓ} : {A : Type ℓ} → Bool → A → A → A
if true then x else y = x
if false then x else y = y

pub nat_beq_iff : (a b : ℕ) → (nat_beq a b ≡ true) ↔ (a ≡ b)
nat_beq_iff a b = ground arith

pub Bool-cases : (b : Bool) → (b ≡ true) ⊎ (b ≡ false)
Bool-cases true = inl refl
Bool-cases false = inr refl

pub Option-cases {ℓ} : {A : Type ℓ} (o : Option A) → (o ≡ none) ⊎ ((a : A) × (o ≡ some a))
Option-cases none = inl refl
Option-cases (some a) = inr (a, refl)

-- A property of a conditional, from both branches.
pub if-cases {ℓ κ} :
    {A : Type ℓ} (P : A → Type κ) (b : Bool) (x y : A)
    → (b ≡ true → P x)
    → (b ≡ false → P y)
    → P (if b then x else y)
if-cases P true x y holds fails = holds refl
if-cases P false x y holds fails = fails refl

pub List-cases {ℓ} :
    {A : Type ℓ} (xs : List A) → (xs ≡ []) ⊎ ((x : A) × (rest : List A) × (xs ≡ x ∷ rest))
List-cases [] = inl refl
List-cases (x ∷ rest) = inr (x, rest, refl)

abbrev pub is_some {ℓ} : {A : Type ℓ} → Option A → Bool
is_some none = false
is_some (some a) = true

-- Byte strings, compared byte by byte.
abbrev pub str_beq : List ℕ → List ℕ → Bool
str_beq [] [] = true
str_beq (a ∷ s) (b ∷ t) = nat_beq a b && str_beq s t
str_beq _ _ = false

str_beq-eq : (s t : List ℕ) → str_beq s t ≡ true → s ≡ t
str_beq-eq [] [] h = refl
str_beq-eq (a ∷ s) (b ∷ t) h = ground (arith, str_beq-eq s t)
str_beq-eq [] (b ∷ t) h = cc
str_beq-eq (a ∷ s) [] h = cc

str_beq_refl : (s : List ℕ) → str_beq s s ≡ true
str_beq_refl [] = refl
str_beq_refl (a ∷ s) = ground (arith, str_beq_refl s)

pub str_beq_iff : (s t : List ℕ) → (str_beq s t ≡ true) ↔ (s ≡ t)
str_beq_iff s t = (str_beq-eq s t, λ e. rw e (str_beq_refl t))

-- The comparison that Go makes of map keys, for numbers and for strings.
pub record Key {ℓ} (K : Type ℓ) : Type ℓ where
  pub same : K → K → Bool
  pub same_iff : (j k : K) → (same j k ≡ true) ↔ (j ≡ k)

instance abbrev pub str_key : Key (List ℕ)
str_key = record { same = str_beq; same_iff = str_beq_iff }

instance abbrev pub nat_key : Key ℕ
nat_key = record { same = nat_beq; same_iff = nat_beq_iff }

-- x == y
abbrev pub ◌==◌ {ℓ} : {K : Type ℓ} ⦃order : Key K⦄ → K → K → Bool
◌==◌ ⦃order⦄ x y = order.same x y

infix 50 ◌==◌
