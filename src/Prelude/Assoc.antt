-- ===== src/Prelude/Assoc.antt =====
-- A Go map as an association list. The order of the entries stands for the order in which Go
-- walks the map, which the language leaves open; a key is listed once (`IsMap`).
use Prim.Native.Nat.{ℕ, ◌+◌, ◌≤◌}
use mathlib.Core.Path.{◌≡◌, refl, subst}
use mathlib.Core.Logic.{inl, inr}
use mathlib.Core.Bool.{Bool, true, false}
use mathlib.Core.Option.{Option, none, some}
use mathlib.Core.List.{List, [], ◌∷◌}
use native.Mathlib.Omega.{arith}
use klingnet.Prelude.Tests.{if◌then◌else◌, Bool-cases}
use klingnet.Prelude.Lists.{Eq, All, length, beq_refl}

abbrev pub Assoc {ℓ} : Type ℓ → Type ℓ → Type ℓ
Assoc K V = List (K × V)

abbrev pub is_some {ℓ} : {A : Type ℓ} → Option A → Bool
is_some none = false
is_some (some a) = true

module _ {ℓ} {K V : Type ℓ} ⦃e : Eq K⦄ where
  -- `v, ok := m[k]`
  unfoldable pub lookup : K → Assoc K V → Option V
  lookup k [] = none
  lookup k ((j, v) ∷ m) = if e.beq j k then some v else lookup k m

  -- `delete(m, k)`
  unfoldable pub erase : K → Assoc K V → Assoc K V
  erase k [] = []
  erase k ((j, v) ∷ m) = let rest = erase k m in if e.beq j k then rest else (j, v) ∷ rest

  -- `m[k] = v`
  unfoldable pub insert : K → V → Assoc K V → Assoc K V
  unfolding erase
  insert k v m = (k, v) ∷ erase k m

  -- No key is listed twice.
  abbrev pub IsMap : Assoc K V → Type ℓ
  IsMap [] = Unit
  IsMap ((k, v) ∷ m) = (lookup k m ≡ none) × IsMap m

  pub lookup-erase :
      (k j : K) (m : Assoc K V) → lookup j (erase k m) ≡ (if e.beq k j then none else lookup j m)
  unfolding lookup erase
  lookup-erase k j [] = ground arith
  lookup-erase k j ((i, v) ∷ m) =
      ground (arith, lookup-erase k j m, e.beq_iff i k, e.beq_iff i j, e.beq_iff k j)

  pub lookup-insert :
      (k j : K) (v : V) (m : Assoc K V)
      → lookup j (insert k v m) ≡ (if e.beq k j then some v else lookup j m)
  unfolding lookup insert
  lookup-insert k j v m = ground (arith, lookup-erase k j m)

  pub erase-IsMap : (k : K) (m : Assoc K V) → IsMap m → IsMap (erase k m)
  unfolding erase
  erase-IsMap k [] h = h
  erase-IsMap k ((i, v) ∷ m) h = ground (arith, erase-IsMap k m h.1, lookup-erase k i m)

  pub insert-IsMap : (k : K) (v : V) (m : Assoc K V) → IsMap m → IsMap (insert k v m)
  unfolding insert
  insert-IsMap k v m h = (ground (arith, lookup-erase k k m, beq_refl k), erase-IsMap k m h)

  pub erase_absent : (k : K) (m : Assoc K V) → lookup k m ≡ none → erase k m ≡ m
  unfolding lookup erase
  erase_absent k [] h = refl
  erase_absent k ((i, v) ∷ m) h = ground (arith, erase_absent k m)

module _ {ℓ κ} {K V : Type ℓ} ⦃e : Eq K⦄ (P : V → Type κ) where
  -- What every value has, a value that is found has.
  pub lookup-All : (k : K) (v : V) (m : Assoc K V) → All (λ x. P x.1) m → lookup k m ≡ some v → P v
  unfolding lookup
  lookup-All k v [] h found = cc
  lookup-All k v ((j, w) ∷ m) h found = elim (Bool-cases (e.beq j k)) [
    | inl same ↦ subst P (ground (arith, found, same)) h.0
    | inr other ↦ lookup-All k v m h.1 (ground (arith, found, other))
  ]

-- A sum over the values of a map.
module _ {ℓ} {K V : Type ℓ} ⦃e : Eq K⦄ (f : V → ℕ) where
  abbrev pub weight : Assoc K V → ℕ
  weight [] = 0
  weight ((k, v) ∷ m) = f v + weight m

  pub weight-erase :
      (k : K) (v : V) (m : Assoc K V)
      → IsMap m
      → lookup k m ≡ some v
      → weight (erase k m) + f v ≡ weight m
  unfolding lookup erase
  weight-erase k v [] w h = ground arith
  weight-erase k v ((i, u) ∷ m) w h =
      ground (arith, weight-erase k v m w.1, erase_absent k m, e.beq_iff i k)

  pub weight-erase_le : (k : K) (m : Assoc K V) → weight (erase k m) ≤ weight m
  unfolding erase
  weight-erase_le k [] = omega arith
  weight-erase_le k ((i, u) ∷ m) = ground (arith, weight-erase_le k m)

  pub weight-insert_le : (k : K) (v : V) (m : Assoc K V) → weight (insert k v m) ≤ weight m + f v
  unfolding insert
  weight-insert_le k v m = omega (arith, weight-erase_le k m)

module _ {ℓ} {K V : Type ℓ} ⦃e : Eq K⦄ where
  pub length-erase :
      (k : K) (v : V) (m : Assoc K V)
      → IsMap m
      → lookup k m ≡ some v
      → length (erase k m) + 1 ≡ length m
  unfolding lookup erase
  length-erase k v [] w h = ground arith
  length-erase k v ((i, u) ∷ m) w h =
      ground (arith, length-erase k v m w.1, erase_absent k m, e.beq_iff i k)
