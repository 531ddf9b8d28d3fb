-- ===== src/Text.antt =====
-- The functions of Go's strings package that the program calls, on strings as lists of bytes.
-- Texts whose case is changed are ASCII.
pub mod Laws
pub mod Decimal
use giraffecloud.Base.{
  ℕ, zero, suc, ◌+◌, Bool, true, false, ◌&&◌, ◌||◌, Option, none, some, List, [], ◌∷◌, ◌++◌, map,
  Bytes, ◌==◌, nat_eq, bytes_eq, bytes_beq, leb, length, drop, if◌then◌else◌,
}

-- strings.HasPrefix(s, prefix)
unfoldable pub has_prefix : Bytes → Bytes → Bool
has_prefix s [] = true
has_prefix [] (p ∷ ps) = false
has_prefix (c ∷ s) (p ∷ ps) = c == p && has_prefix s ps

-- strings.TrimPrefix(s, prefix)
unfoldable pub trim_prefix : Bytes → Bytes → Bytes
unfolding has_prefix
trim_prefix s p = if has_prefix s p then drop (length p) s else s

-- strings.HasSuffix(s, suffix)
unfoldable pub has_suffix : Bytes → Bytes → Bool
unfolding bytes_beq
has_suffix [] p = [] == p
has_suffix (c ∷ s) p = (c ∷ s) == p || has_suffix s p

-- strings.TrimSuffix(s, suffix)
unfoldable pub trim_suffix : Bytes → Bytes → Bytes
unfolding bytes_beq
trim_suffix [] p = []
trim_suffix (c ∷ s) p = if (c ∷ s) == p then [] else c ∷ trim_suffix s p

-- strings.Contains(s, substr)
unfoldable pub contains : Bytes → Bytes → Bool
unfolding has_prefix
contains [] p = has_prefix [] p
contains (c ∷ s) p = has_prefix (c ∷ s) p || contains s p

-- What stands before the first occurrence, or the whole string: strings.Split(s, sep)[0].
unfoldable pub before : Bytes → Bytes → Bytes
unfolding has_prefix
before [] p = []
before (c ∷ s) p = if has_prefix (c ∷ s) p then [] else c ∷ before s p

-- Puts a byte in front of the first part.
unfoldable pub push_first : ℕ → List Bytes → List Bytes
push_first c [] = (c ∷ []) ∷ []
push_first c (p ∷ ps) = (c ∷ p) ∷ ps

-- strings.Split(s, sep) for a separator of one byte.
unfoldable pub split : ℕ → Bytes → List Bytes
unfolding push_first
split sep [] = [] ∷ []
split sep (c ∷ s) = let rest = split sep s in if c == sep then [] ∷ rest else push_first c rest

-- The last element of a list that is not empty.
unfoldable pub last : List Bytes → Bytes
last [] = []
last (p ∷ []) = p
last (p ∷ q ∷ ps) = last (q ∷ ps)

-- strings.ToLower(s), for ASCII.
unfoldable pub lower_byte : ℕ → ℕ
lower_byte c = if leb b'A' c && leb c b'Z' then c + 32 else c

unfoldable pub to_lower : Bytes → Bytes
unfolding lower_byte
to_lower s = map lower_byte s
