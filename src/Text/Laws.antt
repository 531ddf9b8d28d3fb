-- ===== src/Text/Laws.antt =====
-- Laws of the text functions.
use giraffecloud.Base.{
  ℕ, ◌≡◌, inl, inr, refl, sym, ap, true, false, [], ◌∷◌, ◌++◌, Bytes, ◌==◌, nat_eq, bytes_eq,
  bytes_beq_iff, length, length-append, arith, Bool-cases, beq_refl,
}
use giraffecloud.Text.{has_suffix, trim_suffix}

longer-ne : (c : ℕ) (x p : Bytes) → ((c ∷ (x ++ p)) == p) ≡ false
longer-ne c x p = elim (Bool-cases ((c ∷ (x ++ p)) == p)) [
  | inl e ↦
      absurd (omega (arith, ap length ((bytes_beq_iff (c ∷ (x ++ p)) p).0 e), length-append x p))
  | inr e ↦ e
]

-- A string with the suffix is a text followed by the suffix, and trimming gives the text.
pub has_suffix-trim_suffix : (s p : Bytes) → has_suffix s p ≡ true → trim_suffix s p ++ p ≡ s
unfolding has_suffix trim_suffix
has_suffix-trim_suffix [] p h = sym ((bytes_beq_iff [] p).0 h)
has_suffix-trim_suffix (c ∷ s) p h = elim (Bool-cases ((c ∷ s) == p)) [
  | inl e ↦ rw e (sym ((bytes_beq_iff (c ∷ s) p).0 e))
  | inr e ↦ rw e (ap (◌∷◌ c) (has_suffix-trim_suffix s p (rw e at h)))
]

-- Trimming takes off a suffix that stands there.
pub trim_suffix-append : (x p : Bytes) → trim_suffix (x ++ p) p ≡ x
unfolding trim_suffix
trim_suffix-append [] [] = refl
trim_suffix-append [] (c ∷ p) = rw (beq_refl (c ∷ p))
trim_suffix-append (c ∷ x) p = rw (longer-ne c x p) (ap (◌∷◌ c) (trim_suffix-append x p))

pub has_suffix-append : (x p : Bytes) → has_suffix (x ++ p) p ≡ true
unfolding has_suffix
has_suffix-append [] [] = refl
has_suffix-append [] (c ∷ p) = rw (beq_refl (c ∷ p))
has_suffix-append (c ∷ x) p = rw (longer-ne c x p) (has_suffix-append x p)
