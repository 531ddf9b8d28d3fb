-- ===== src/Base/Keys.antt =====
-- Types with a computed equality: numbers, and Go strings as lists of bytes.
use Prim.Native.Nat.{ℕ}
use Prim.Native.Char.{code}
use Prim.Native.String.{String}
use mathlib.Core.Path.{◌≡◌, refl}
use mathlib.Core.Logic.{◌↔◌}
use mathlib.Core.Bool.{Bool, true, false, ◌&&◌}
use mathlib.Core.List.{List, [], ◌∷◌}
use native.Mathlib.Omega.{arith}
use giraffecloud.Base.Tests.{nat_beq, nat_beq_iff}

pub record Eq {ℓ} (K : Type ℓ) : Type ℓ where
  pub same : K → K → Bool
  pub same_iff : (i j : K) → (same i j ≡ true) ↔ (i ≡ j)

infix 50 ◌==◌
abbrev pub ◌==◌ {ℓ} : {K : Type ℓ} ⦃keys : Eq K⦄ → K → K → Bool
◌==◌ ⦃keys⦄ = keys.same

-- A Go string: its bytes.
abbrev pub Bytes : Type 0
Bytes = List ℕ

-- The bytes of an ASCII text.
abbrev pub codes : String → Bytes
codes String.[] = []
codes (String.◌∷◌ letter text) = code letter ∷ codes text

unfoldable pub bytes_beq : Bytes → Bytes → Bool
bytes_beq [] [] = true
bytes_beq [] (_ ∷ _) = false
bytes_beq (_ ∷ _) [] = false
bytes_beq (a ∷ xs) (b ∷ ys) = nat_beq a b && bytes_beq xs ys

pub bytes_beq_iff : (a b : Bytes) → (bytes_beq a b ≡ true) ↔ (a ≡ b)
unfolding bytes_beq
bytes_beq_iff [] [] = ground arith
bytes_beq_iff [] (b ∷ ys) = ground arith
bytes_beq_iff (a ∷ xs) [] = ground arith
bytes_beq_iff (a ∷ xs) (b ∷ ys) = ground (arith, bytes_beq_iff xs ys)

instance abbrev pub nat_eq : Eq ℕ
nat_eq = record { same = nat_beq; same_iff = nat_beq_iff }

instance abbrev pub bytes_eq : Eq Bytes
bytes_eq = record { same = bytes_beq; same_iff = bytes_beq_iff }

module _ {ℓ} {A : Type ℓ} ⦃e : Eq A⦄ where
  pub beq_refl : (a : A) → (a == a) ≡ true
  beq_refl a = (e.same_iff a a).1 refl
