-- ===== src/Version/Releases.antt =====
-- CompareVersions of internal/version/version.go on release versions.
use giraffecloud.Base.{
  ℕ, zero, suc, ◌^◌, ◌≤◌, ◌<◌, Bool, true, false, ◌&&◌, List, [], ◌∷◌, ◌++◌, map, Bytes, codes, ◌≡◌,
  refl, sym, ◌∙◌, ap, ◌==◌, nat_eq, bytes_eq, bytes_beq, bytes_beq_iff, leb, ltb, length,
  if◌then◌else◌, arith, inl, inr, Bool-cases, All, All-mono, All-append, length-map, some,
}
use giraffecloud.Text.{has_prefix, contains, split, push_first, trim_prefix}
use giraffecloud.Text.Decimal.{
  is_digit, value, fmt_uint32, fmt_uint32-digits, atoi, atoi-fmt_uint32,
}
use giraffecloud.Version.{
  Comparison, less, equal, greater, parse_version_part, leading_digits, compare_each, compare_parts,
  pad, is_dev, is_pre, is_legacy_stable, extract_commit_from_version, same_commit, compare_builds,
  compare_legacy, compare_trimmed, compare_versions,
}
use giraffecloud.Version.Order.{compare_parts-flip, flip, extract_commit_hash-IsPre}

-- The order of release versions: number by number, where a missing number is zero.
unfoldable pub semver_order : List ℕ → List ℕ → Comparison
semver_order [] [] = equal
semver_order [] (b ∷ bs) = if b == 0 then semver_order [] bs else less
semver_order (a ∷ us) [] = if a == 0 then semver_order us [] else greater
semver_order (a ∷ us) (b ∷ bs) =
    let rest = semver_order us bs in if ltb a b then less else if ltb b a then greater else rest

-- The text of a release version: decimal numbers with dots between them.
unfoldable pub release : ℕ → List ℕ → Bytes
release a [] = fmt_uint32 a
release a (b ∷ bs) = fmt_uint32 a ++ (b'.' ∷ release b bs)

abbrev is_plain : ℕ → Bool
is_plain c = leb b'.' c && leb c b'9'

abbrev Plain : Bytes → Type 0
Plain s = All (λ c. is_plain c ≡ true) s

fmt_uint32-Plain : (v : ℕ) → Plain (fmt_uint32 v)
fmt_uint32-Plain v = All-mono (fmt_uint32 v) (λ c h. ground (arith, h)) (fmt_uint32-digits v).1

release-Plain : (a : ℕ) (us : List ℕ) → Plain (release a us)
unfolding release
release-Plain a [] = fmt_uint32-Plain a
release-Plain a (b ∷ bs) =
    All-append (λ c. is_plain c ≡ true) (fmt_uint32 a) (b'.' ∷ release b bs) (fmt_uint32-Plain a)
      (refl, release-Plain b bs)

-- A text of digits and dots has no other byte in it.
module _ (c : ℕ) (p : Bytes) (h : is_plain c ≡ false) where
  no-prefix : (s : Bytes) → Plain s → has_prefix s (c ∷ p) ≡ false
  unfolding has_prefix
  no-prefix [] _ = refl
  no-prefix (d ∷ s) (k, _) = ground (arith, h, k)

  no-contains : (s : Bytes) → Plain s → contains s (c ∷ p) ≡ false
  unfolding contains
  no-contains [] _ = no-prefix [] tt
  no-contains (d ∷ s) (k, ks) = rw (no-prefix (d ∷ s) (k, ks)) (no-contains s ks)

  no-beq : (s : Bytes) → Plain s → (s == (c ∷ p)) ≡ false
  unfolding bytes_beq
  no-beq [] _ = refl
  no-beq (d ∷ s) (k, _) = ground (arith, h, k)

split-part :
    (x y : Bytes)
    → All (λ c. is_digit c ≡ true) x
    → (split b'.' x ≡ x ∷ []) × (split b'.' (x ++ (b'.' ∷ y)) ≡ x ∷ split b'.' y)
unfolding split push_first
split-part [] y _ = (refl, refl)
split-part (c ∷ x) y (k, ks) =
    (ground (arith, (split-part x y ks).0, k), ground (arith, (split-part x y ks).1, k))

split-release : (a : ℕ) (us : List ℕ) → split b'.' (release a us) ≡ map fmt_uint32 (a ∷ us)
unfolding release
split-release a [] = (split-part (fmt_uint32 a) [] (fmt_uint32-digits a).1).0
split-release a (b ∷ bs) =
    (split-part (fmt_uint32 a) (release b bs) (fmt_uint32-digits a).1).1
    ∙ ap (◌∷◌ (fmt_uint32 a)) (split-release b bs)

leading_digits_whole : (s : Bytes) → All (λ c. is_digit c ≡ true) s → leading_digits s ≡ s
unfolding leading_digits
leading_digits_whole [] _ = refl
leading_digits_whole (c ∷ s) (k, ks) = rw k (ap (◌∷◌ c) (leading_digits_whole s ks))

parse-digits :
    (s : Bytes) (v : ℕ)
    → 1 ≤ length s
    → leading_digits s ≡ s
    → atoi s ≡ some v
    → parse_version_part s ≡ v
unfolding parse_version_part
parse-digits [] v h e k = absurd (omega (arith, h))
parse-digits (c ∷ s) v h e k = cc (e, k)

parse-fmt_uint32 : (v : ℕ) → v < 2 ^ 32 → parse_version_part (fmt_uint32 v) ≡ v
parse-fmt_uint32 v h =
    let digits = fmt_uint32-digits v in
    parse-digits (fmt_uint32 v) v digits.0 (leading_digits_whole (fmt_uint32 v) digits.1)
      (atoi-fmt_uint32 v h)

abbrev pub Fits : List ℕ → Type 0
Fits vs = All (λ v. v < 2 ^ 32) vs

parse-zero : parse_version_part (b'0' ∷ []) ≡ 0
unfolding parse_version_part leading_digits atoi value
parse-zero = refl

compare_each-semver_order :
    (n : ℕ) (us bs : List ℕ)
    → Fits us
    → Fits bs
    → length us ≤ n
    → length bs ≤ n
    → compare_each (pad n (map fmt_uint32 us)) (pad n (map fmt_uint32 bs)) ≡ semver_order us bs
unfolding compare_each pad semver_order
compare_each-semver_order zero [] [] f g h k = refl
compare_each-semver_order zero (a ∷ us) bs f g h k = absurd (omega (arith, h))
compare_each-semver_order zero [] (b ∷ bs) f g h k = absurd (omega (arith, k))
compare_each-semver_order (suc n) [] [] f g h k =
    ground (arith, compare_each-semver_order n [] [] tt tt)
compare_each-semver_order (suc n) [] (b ∷ bs) f (gb, g) h k =
    rw (parse-zero, parse-fmt_uint32 b gb)
      (ground (arith, compare_each-semver_order n [] bs tt g (omega arith) (omega (arith, k))))
compare_each-semver_order (suc n) (a ∷ us) [] (fa, f) g h k =
    rw (parse-zero, parse-fmt_uint32 a fa)
      (ground (arith, compare_each-semver_order n us [] f tt (omega (arith, h)) (omega arith)))
compare_each-semver_order (suc n) (a ∷ us) (b ∷ bs) (fa, f) (gb, g) h k =
    rw
      (
        parse-fmt_uint32 a fa,
        parse-fmt_uint32 b gb,
        compare_each-semver_order n us bs f g (omega (arith, h)) (omega (arith, k)),
      )
      refl

compare_parts-semver_order :
    (us vs : List ℕ)
    → Fits us
    → Fits vs
    → compare_parts (map fmt_uint32 us) (map fmt_uint32 vs) ≡ semver_order us vs
unfolding compare_parts
compare_parts-semver_order us vs f g =
    compare_each-semver_order
      (if ltb (length (map fmt_uint32 us)) (length (map fmt_uint32 vs))
        then length (map fmt_uint32 vs)
        else length (map fmt_uint32 us))
      us vs f g (ground (arith, length-map fmt_uint32 us, length-map fmt_uint32 vs))
      (ground (arith, length-map fmt_uint32 us, length-map fmt_uint32 vs))

compare_parts_refl : (ps : List Bytes) → compare_parts ps ps ≡ equal
compare_parts_refl ps = fixed (compare_parts ps ps) (compare_parts-flip ps ps)
  where
    fixed : (c : Comparison) → c ≡ flip c → c ≡ equal
    fixed less h = cc
    fixed equal h = refl
    fixed greater h = cc

-- A text of digits and dots is neither a development, a test nor an old stable build.
record IsRelease (s : Bytes) : Type 0 where
  no_v : trim_prefix s (codes "v") ≡ s
  no_dev : is_dev s ≡ false
  no_pre : is_pre s ≡ false
  no_legacy : is_legacy_stable s ≡ false
  no_commit : extract_commit_from_version s ≡ []

Plain-IsRelease : (s : Bytes) → Plain s → IsRelease s
unfolding trim_prefix is_dev is_pre is_legacy_stable extract_commit_from_version
Plain-IsRelease s h = record {
  no_v = rw (no-prefix b'v' [] refl s h) refl;
  no_dev =
      rw
        (
          no-beq b'd' (codes "ev") refl s h,
          no-beq b'u' (codes "nknown") refl s h,
          no-prefix b'd' (codes "ev-") refl s h,
        )
        refl;
  no_pre =
      rw (no-contains b'-' (codes "test") refl s h, no-prefix b't' (codes "est-") refl s h) refl;
  no_legacy = no-contains b'-' (codes "stable.") refl s h;
  no_commit =
      rw
        (
          no-prefix b'd' (codes "ev-") refl s h,
          no-contains b'-' (codes "stable.") refl s h,
          no-contains b'-' (codes "test.") refl s h,
        )
        refl;
}

compare_versions-parts :
    (v1 v2 : Bytes)
    → IsRelease v1
    → IsRelease v2
    → compare_versions v1 v2 ≡ compare_parts (split b'.' v1) (split b'.' v2)
unfolding compare_versions compare_trimmed compare_legacy compare_builds same_commit
compare_versions-parts v1 v2 r q = elim (Bool-cases (v1 == v2)) [
  | inl e ↦
      rw (r.no_v, q.no_v, e, (bytes_beq_iff v1 v2).0 e) (sym (compare_parts_refl (split b'.' v2)))
  | inr e ↦
      rw
        (
          r.no_v,
          q.no_v,
          e,
          r.no_commit,
          r.no_legacy,
          q.no_legacy,
          r.no_dev,
          q.no_dev,
          r.no_pre,
          extract_commit_hash-IsPre v1 r.no_pre,
          extract_commit_hash-IsPre v2 q.no_pre,
        )
        refl
]

-- CompareVersions orders release versions, whose numbers are below 2 ^ 32, number by number, a
-- missing number counting as zero.
pub compare_versions-release :
    (a b : ℕ) (us vs : List ℕ)
    → Fits (a ∷ us)
    → Fits (b ∷ vs)
    → compare_versions (release a us) (release b vs) ≡ semver_order (a ∷ us) (b ∷ vs)
compare_versions-release a b us vs f g =
    compare_versions-parts (release a us) (release b vs)
      (Plain-IsRelease (release a us) (release-Plain a us))
      (Plain-IsRelease (release b vs) (release-Plain b vs))
    ∙ rw (split-release a us, split-release b vs) (compare_parts-semver_order (a ∷ us) (b ∷ vs) f g)
