-- ===== src/Text/Decimal.antt =====
-- Decimal numbers: fmtUint32 of internal/service/usage_service.go, and how strconv.Atoi reads digits.
use giraffecloud.Base.{
  ℕ, zero, suc, ◌+◌, ◌-◌, ◌*◌, ◌/◌, ◌%◌, ◌^◌, ◌<◌, ◌≤◌, ◌≡◌, refl, sym, ◌∙◌, ap, Bool, true, false,
  ◌&&◌, Option, none, some, [], ◌∷◌, Bytes, ◌==◌, nat_eq, leb, ltb, length, if◌then◌else◌, All,
  arith, Bool-cases, inl, inr, ◌⊎◌, nat_beq_iff,
}

abbrev pub is_digit : ℕ → Bool
is_digit c = leb b'0' c && leb c b'9'

-- The number whose decimal digits are read after those that make `n`.
unfoldable pub value : ℕ → Bytes → ℕ
value n [] = n
value n (c ∷ s) = value (n * 10 + (c - b'0')) s

-- strconv.Atoi on a text of digits: out of range from 2 ^ 63.
unfoldable pub atoi : Bytes → Option ℕ
unfolding value
atoi s = if ltb (value 0 s) 9223372036854775808 then some (value 0 s) else none

-- The loop of fmtUint32: one digit a turn, from the last, in a buffer with the given free places.
unfoldable pub fill : ℕ → ℕ → Bytes → Bytes
fill zero v buf = buf
fill (suc free) v buf =
    let rest = fill free (v / 10) ((b'0' + v % 10) ∷ buf) in if v == 0 then buf else rest

unfoldable pub fmt_uint32 : ℕ → Bytes
unfolding fill
fmt_uint32 v = if v == 0 then b'0' ∷ [] else fill 10 v []

-- The first number that does not fit in the given count of digits.
unfoldable pub pow10 : ℕ → ℕ
pow10 zero = 1
pow10 (suc n) = 10 * pow10 n

-- Reading what the loop wrote gives the number, as long as it fits.
pub value-fill :
    (free v : ℕ) (buf : Bytes) → v < pow10 free → value 0 (fill free v buf) ≡ value v buf
unfolding value fill pow10
value-fill zero v buf h = ground arith
value-fill (suc free) v buf h = elim (Bool-cases (v == 0)) [
  | inl e ↦ rw e (ap (λ n. value n buf) (sym ((nat_beq_iff v 0).0 e)))
  | inr e ↦ rw e (
      value-fill free (v / 10) ((b'0' + v % 10) ∷ buf) (omega (arith, h))
      ∙ ap (λ n. value n buf) (omega arith))
]

fill-digits :
    (free v : ℕ) (buf : Bytes)
    → All (λ c. is_digit c ≡ true) buf
    → All (λ c. is_digit c ≡ true) (fill free v buf)
unfolding fill
fill-digits zero v buf h = h
fill-digits (suc free) v buf h = elim (Bool-cases (v == 0)) [
  | inl e ↦ rw e h
  | inr e ↦ rw e (fill-digits free (v / 10) ((b'0' + v % 10) ∷ buf) (ground arith, h))
]

fill-length : (free v : ℕ) (buf : Bytes) → length buf ≤ length (fill free v buf)
unfolding fill
fill-length zero v buf = omega arith
fill-length (suc free) v buf = elim (Bool-cases (v == 0)) [
  | inl e ↦ rw e (omega arith)
  | inr e ↦ rw e (omega (arith, fill-length free (v / 10) ((b'0' + v % 10) ∷ buf)))
]

fill-begun : (free v : ℕ) → (v == 0) ≡ false → 1 ≤ length (fill (suc free) v [])
unfolding fill
fill-begun free v e = rw e (fill-length free (v / 10) ((b'0' + v % 10) ∷ []))

fmt_uint32-cases :
    (v : ℕ)
    → ((v ≡ 0) × (fmt_uint32 v ≡ b'0' ∷ [])) ⊎ (((v == 0) ≡ false) × (fmt_uint32 v ≡ fill 10 v []))
unfolding fmt_uint32 fill
fmt_uint32-cases v = elim (Bool-cases (v == 0)) [
  | inl e ↦ inl ((nat_beq_iff v 0).0 e, rw e refl)
  | inr e ↦ inr (e, rw e refl)
]

-- fmtUint32 writes at least one byte, and digits only.
pub fmt_uint32-digits :
    (v : ℕ) → (1 ≤ length (fmt_uint32 v)) × All (λ c. is_digit c ≡ true) (fmt_uint32 v)
fmt_uint32-digits v = elim (fmt_uint32-cases v) [
  | inl (_, e) ↦ rw e (omega arith, (refl, tt))
  | inr (ne, e) ↦ rw e (fill-begun 9 v ne, fill-digits 10 v [] tt)
]

value-fmt_uint32 : (v : ℕ) → v < 2 ^ 32 → value 0 (fmt_uint32 v) ≡ v
unfolding value pow10
value-fmt_uint32 v h = elim (fmt_uint32-cases v) [
  | inl (z, e) ↦ rw e (sym z)
  | inr (_, e) ↦ rw e (value-fill 10 v [] (omega (arith, h)))
]

-- Atoi reads the number that fmtUint32 wrote.
pub atoi-fmt_uint32 : (v : ℕ) → v < 2 ^ 32 → atoi (fmt_uint32 v) ≡ some v
unfolding atoi
atoi-fmt_uint32 v h = rw (value-fmt_uint32 v h) (ground (arith, h))
