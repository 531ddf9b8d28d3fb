-- ===== src/Base/Map.antt =====
-- A Go map as an association list; iteration follows the list.
use Prim.Native.Nat.{ℕ, ◌+◌}
use mathlib.Core.Path.{◌≡◌, refl, subst}
use mathlib.Core.Logic.{inl, inr}
use mathlib.Core.List.{List, [], ◌∷◌}
use mathlib.Core.Option.{Option, none, some, some-injective}
use native.Mathlib.Omega.{arith}
use giraffecloud.Base.Tests.{if◌then◌else◌, Bool-cases}
use giraffecloud.Base.Lists.{All}
use giraffecloud.Base.Keys.{Eq, ◌==◌}

module _ {ℓ κ} {K : Type ℓ} ⦃e : Eq K⦄ {V : Type κ} where
  unfoldable pub lookup : K → List (K × V) → Option V
  lookup wanted ((key, value) ∷ others) = if key == wanted then some value else lookup wanted others
  lookup wanted [] = none

  unfoldable pub insert : K → V → List (K × V) → List (K × V)
  insert wanted value ((key, old) ∷ others) =
      if key == wanted then (wanted, value) ∷ others else (key, old) ∷ insert wanted value others
  insert wanted value [] = (wanted, value) ∷ []

  unfoldable pub delete : K → List (K × V) → List (K × V)
  delete k [] = []
  delete k ((j, w) ∷ m) = let rest = delete k m in if j == k then rest else (j, w) ∷ rest

  pub lookup-insert :
      (k j : K) (v : V) (m : List (K × V))
      → lookup j (insert k v m) ≡ (if k == j then some v else lookup j m)
  unfolding lookup insert
  lookup-insert k j v ((i, w) ∷ m) =
      ground (arith, lookup-insert k j v m, e.same_iff i j, e.same_iff i k, e.same_iff k j)
  lookup-insert k j v [] = refl

  pub lookup-delete :
      (k j : K) (m : List (K × V)) → lookup j (delete k m) ≡ (if k == j then none else lookup j m)
  unfolding lookup delete
  lookup-delete k j [] = ground arith
  lookup-delete k j ((i, w) ∷ m) =
      ground (arith, e.same_iff k j, e.same_iff i k, e.same_iff i j, lookup-delete k j m)

  module _ {μ} (P : K × V → Type μ) where
    pub All-insert : (k : K) (v : V) (m : List (K × V)) → P (k, v) → All P m → All P (insert k v m)
    unfolding insert
    All-insert k v [] p h = (p, tt)
    All-insert k v ((j, w) ∷ m) p (q, h) = elim (Bool-cases (j == k)) [
      | inl same ↦ rw same (p, h)
      | inr other ↦ rw other (q, All-insert k v m p h)
    ]

    pub All-delete : (k : K) (m : List (K × V)) → All P m → All P (delete k m)
    unfolding delete
    All-delete k [] h = h
    All-delete k ((j, w) ∷ m) (q, h) = elim (Bool-cases (j == k)) [
      | inl same ↦ rw same (All-delete k m h)
      | inr other ↦ rw other (q, All-delete k m h)
    ]

    pub All-lookup : (k : K) (m : List (K × V)) {v : V} → All P m → lookup k m ≡ some v → P (k, v)
    unfolding lookup
    All-lookup k [] h found = cc
    All-lookup k ((j, w) ∷ m) {v} (q, h) found = elim (Bool-cases (j == k)) [
      | inl same ↦
          subst (λ i. P (i, v)) ((e.same_iff j k).0 same)
            (subst (λ u. P (j, u)) (some-injective _ _ (rw same at found)) q)
      | inr other ↦ All-lookup k m h (rw other at found)
    ]

  -- Each key stands once.
  abbrev pub IsUnique : List (K × V) → Type κ
  IsUnique [] = Unit
  IsUnique ((k, v) ∷ m) = (lookup k m ≡ none) × IsUnique m

  pub insert-IsUnique : (k : K) (v : V) (m : List (K × V)) → IsUnique m → IsUnique (insert k v m)
  unfolding insert lookup
  insert-IsUnique k v [] u = (refl, tt)
  insert-IsUnique k v ((j, w) ∷ m) (fresh, u) = elim (Bool-cases (j == k)) [
    | inl same ↦ rw same (subst (λ i. lookup i m ≡ none) ((e.same_iff j k).0 same) fresh, u)
    | inr other ↦ rw other (
      ground (arith, lookup-insert k j v m, e.same_iff j k, e.same_iff k j),
      insert-IsUnique k v m u,
    )
  ]

  pub delete-IsUnique : (k : K) (m : List (K × V)) → IsUnique m → IsUnique (delete k m)
  unfolding delete
  delete-IsUnique k [] u = u
  delete-IsUnique k ((j, w) ∷ m) (fresh, u) = elim (Bool-cases (j == k)) [
    | inl same ↦ rw same (delete-IsUnique k m u)
    | inr other ↦ rw other (ground (arith, lookup-delete k j m), delete-IsUnique k m u)
  ]

  delete_of_fresh : (k : K) (m : List (K × V)) → lookup k m ≡ none → delete k m ≡ m
  unfolding lookup delete
  delete_of_fresh k [] h = refl
  delete_of_fresh k ((j, w) ∷ m) h = ground (arith, delete_of_fresh k m)

  -- A sum over the entries.
  unfoldable pub total : (V → ℕ) → List (K × V) → ℕ
  total f [] = 0
  total f ((k, v) ∷ m) = f v + total f m

  pub total-insert_new :
      (f : V → ℕ) (k : K) (v : V) (m : List (K × V))
      → lookup k m ≡ none
      → total f (insert k v m) ≡ total f m + f v
  unfolding total lookup insert
  total-insert_new f k v [] h = omega arith
  total-insert_new f k v ((j, w) ∷ m) h = ground (arith, total-insert_new f k v m)

  pub total-insert :
      (f : V → ℕ) (k : K) (v old : V) (m : List (K × V))
      → lookup k m ≡ some old
      → total f (insert k v m) + f old ≡ total f m + f v
  unfolding total lookup insert
  total-insert f k v old [] h = cc
  total-insert f k v old ((j, w) ∷ m) h = ground (arith, total-insert f k v old m)

  pub total-delete :
      (f : V → ℕ) (k : K) (old : V) (m : List (K × V))
      → IsUnique m
      → lookup k m ≡ some old
      → total f (delete k m) + f old ≡ total f m
  unfolding total lookup delete
  total-delete f k old [] u h = cc
  total-delete f k old ((j, w) ∷ m) (fresh, u) h = elim (Bool-cases (j == k)) [
    | inl same ↦
        let gone : lookup k m ≡ none =
          subst (λ i. lookup i m ≡ none) ((e.same_iff j k).0 same) fresh in
        ground (arith, delete_of_fresh k m gone)
    | inr other ↦ ground (arith, total-delete f k old m u)
  ]
