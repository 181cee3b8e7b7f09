-- ===== src/Base/Maps.antt =====
-- Go maps as association lists. A key stands in such a list once, if it was built by `insert` and
-- `delete`; the order of the list stands for the unspecified order of `range`.
use Prim.Native.Nat.{◌+◌}
use mathlib.Core.Path.{◌≡◌, refl, sym, ◌∙◌}
use mathlib.Core.Logic.{◌≢◌, inl, inr}
use mathlib.Core.Bool.{true}
use mathlib.Core.Option.{Option, none, some}
use mathlib.Core.List.{List, [], ◌∷◌}
use native.Mathlib.Omega.{arith}
use single_proxy.Base.Tests.{Key, ◌==◌, if◌then◌else◌, is_some, Bool-cases}
use single_proxy.Base.Lists.{length}

abbrev pub Map {ℓ κ} : Type ℓ → Type κ → Type (ℓ ⊔ κ)
Map K V = List (K × V)

pub beq_self {ℓ} : {K : Type ℓ} ⦃e : Key K⦄ (k : K) → (k == k) ≡ true
beq_self ⦃e⦄ k = (e.same_iff k k).1 refl

module _ {ℓ κ} {K : Type ℓ} {V : Type κ} ⦃e : Key K⦄ where
  unfoldable pub delete : K → Map K V → Map K V
  delete key [] = []
  delete key ((j, old) ∷ more) =
      let rest = delete key more in if j == key then rest else (j, old) ∷ rest

  -- m[key] = new
  unfoldable pub insert : K → V → Map K V → Map K V
  insert key new [] = (key, new) ∷ []
  insert key new ((j, old) ∷ more) =
      let kept = (j, old) ∷ insert key new more in if j == key then (key, new) ∷ more else kept

  -- The comma-ok form of m[key].
  unfoldable pub lookup : K → Map K V → Option V
  lookup key [] = none
  lookup key ((j, found) ∷ more) =
      let later = lookup key more in if j == key then some found else later

  pub lookup-insert :
      (key j : K) (new : V) (m : Map K V)
      → lookup j (insert key new m) ≡ (if key == j then some new else lookup j m)
  unfolding insert lookup
  lookup-insert key j new ((i, old) ∷ more) =
      ground
        (arith, lookup-insert key j new more, e.same_iff i j, e.same_iff i key, e.same_iff key j)
  lookup-insert key j new [] = refl

  pub lookup-delete :
      (k j : K) (m : List (K × V)) → lookup j (delete k m) ≡ (if k == j then none else lookup j m)
  unfolding lookup delete
  lookup-delete k j [] = ground arith
  lookup-delete k j ((i, w) ∷ m) =
      ground (arith, e.same_iff k j, e.same_iff i k, e.same_iff i j, lookup-delete k j m)

  pub lookup-insert_self : (k : K) (v : V) (m : List (K × V)) → lookup k (insert k v m) ≡ some v
  lookup-insert_self k v m = simp (lookup-insert, beq_self)

  pub lookup-delete_self : (k : K) (m : List (K × V)) → lookup k (delete k m) ≡ none
  lookup-delete_self k m = simp (lookup-delete, beq_self)

  -- Go's `len` of a map that a key is written to.
  pub length-insert :
      (k : K) (v : V) (m : List (K × V))
      → length (insert k v m) ≡ (if is_some (lookup k m) then length m else length m + 1)
  unfolding lookup insert
  length-insert k v [] = omega arith
  length-insert k v ((j, w) ∷ m) = ground (arith, length-insert k v m)

  -- The key stands in no entry.
  abbrev pub HasNo : K → List (K × V) → Type ℓ
  HasNo k [] = Unit
  HasNo k ((j, v) ∷ m) = (j ≢ k) × HasNo k m

  -- No key stands in two entries, as in a Go map.
  abbrev pub KeysApart : List (K × V) → Type ℓ
  KeysApart [] = Unit
  KeysApart ((k, v) ∷ m) = HasNo k m × KeysApart m

  HasNo-insert : (k j : K) (v : V) (m : List (K × V)) → k ≢ j → HasNo j m → HasNo j (insert k v m)
  unfolding insert
  HasNo-insert k j v [] ne h = (ne, tt)
  HasNo-insert k j v ((i, w) ∷ m) ne h = ground (arith, HasNo-insert k j v m ne h.1, e.same_iff i k)

  pub KeysApart-insert : (k : K) (v : V) (m : List (K × V)) → KeysApart m → KeysApart (insert k v m)
  unfolding insert
  KeysApart-insert k v [] h = (tt, tt)
  KeysApart-insert k v ((i, w) ∷ m) h = elim (Bool-cases (i == k)) [
    | inl same ↦ ground (arith, e.same_iff i k)
    | inr other ↦ rw other (
      HasNo-insert k i v m (λ x. cc ((e.same_iff i k).1 (sym x))) h.0,
      KeysApart-insert k v m h.1,
    )
  ]

  HasNo-delete : (k j : K) (m : List (K × V)) → HasNo j m → HasNo j (delete k m)
  unfolding delete
  HasNo-delete k j [] h = tt
  HasNo-delete k j ((i, w) ∷ m) h = ground (arith, HasNo-delete k j m h.1)

  pub KeysApart-delete : (k : K) (m : List (K × V)) → KeysApart m → KeysApart (delete k m)
  unfolding delete
  KeysApart-delete k [] h = tt
  KeysApart-delete k ((i, w) ∷ m) h =
      ground (arith, KeysApart-delete k m h.1, HasNo-delete k i m h.0)

  -- Each entry of the second map is what the first gives for its key.
  abbrev pub Agrees : List (K × V) → List (K × V) → Type (ℓ ⊔ κ)
  Agrees m [] = Unit
  Agrees m ((k, v) ∷ n) = (lookup k m ≡ some v) × Agrees m n

  -- Entries for other keys change nothing.
  pub Agrees-weaken :
      (m m' n : List (K × V)) (k : K)
      → HasNo k n
      → ((j : K) → k ≢ j → lookup j m' ≡ lookup j m)
      → Agrees m n
      → Agrees m' n
  Agrees-weaken m m' [] k h same a = tt
  Agrees-weaken m m' ((j, v) ∷ n) k h same a =
      (same j (λ x. h.0 (sym x)) ∙ a.0, Agrees-weaken m m' n k h.1 same a.1)

  pub Agrees-self : (m : List (K × V)) → KeysApart m → Agrees m m
  unfolding lookup
  Agrees-self [] h = tt
  Agrees-self ((k, v) ∷ m) h = (
    rw (beq_self k),
    Agrees-weaken m ((k, v) ∷ m) m k h.0 (λ j ne. ground (arith, e.same_iff k j))
        (Agrees-self m h.1),
  )
