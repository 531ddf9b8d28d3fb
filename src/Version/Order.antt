-- ===== src/Version/Order.antt =====
-- CompareVersions of internal/version/version.go with its arguments swapped.
use giraffecloud.Base.{
  ℕ, true, false, ◌&&◌, List, [], ◌∷◌, ◌++◌, Bytes, codes, ◌≡◌, refl, ◌==◌, bytes_eq, bytes_beq_iff,
  ltb, length, if◌then◌else◌, arith,
}
use giraffecloud.Text.{has_prefix, contains, split, before, trim_prefix}
use giraffecloud.Version.{
  Comparison, less, equal, greater, compare_each, compare_parts, pad, is_dev, is_pre,
  is_legacy_stable, extract_commit_hash, extract_commit_from_version, test_commit, same_commit,
  compare_builds, compare_legacy, compare_trimmed, compare_versions, is_update_available,
}

abbrev pub flip : Comparison → Comparison
flip less = greater
flip equal = equal
flip greater = less

compare_each-flip : (ps qs : List Bytes) → compare_each qs ps ≡ flip (compare_each ps qs)
unfolding compare_each
compare_each-flip [] [] = refl
compare_each-flip [] (q ∷ qs) = refl
compare_each-flip (p ∷ ps) [] = refl
compare_each-flip (p ∷ ps) (q ∷ qs) = ground (arith, compare_each-flip ps qs)

pub compare_parts-flip : (ps qs : List Bytes) → compare_parts qs ps ≡ flip (compare_parts ps qs)
unfolding compare_parts
compare_parts-flip ps qs = rw longest (compare_each-flip (pad m ps) (pad m qs))
  where
    m : ℕ
    m = if ltb (length ps) (length qs) then length qs else length ps

    longest : (if ltb (length qs) (length ps) then length ps else length qs) ≡ m
    longest = ground arith

has_prefix-append : (s p q : Bytes) → has_prefix s (p ++ q) ≡ true → has_prefix s p ≡ true
unfolding has_prefix
has_prefix-append s [] q h = refl
has_prefix-append [] (c ∷ p) q h = h
has_prefix-append (d ∷ s) (c ∷ p) q h = ground (arith, has_prefix-append s p q)

contains-append : (s p q : Bytes) → contains s (p ++ q) ≡ true → contains s p ≡ true
unfolding contains
contains-append [] p q h = has_prefix-append [] p q h
contains-append (d ∷ s) p q h = ground (arith, contains-append s p q, has_prefix-append (d ∷ s) p q)

-- A version from which a commit of a test build is read is a test build.
pub extract_commit_hash-IsPre : (v : Bytes) → is_pre v ≡ false → extract_commit_hash v ≡ []
unfolding extract_commit_hash test_commit is_pre
extract_commit_hash-IsPre v h = ground (arith, contains-append v (codes "-test") (codes "."))

beq_comm : (a b : Bytes) → (a == b) ≡ (b == a)
beq_comm a b = ground (arith, bytes_beq_iff a b, bytes_beq_iff b a)

same_commit_comm : (a b : Bytes) → same_commit a b ≡ same_commit b a
unfolding same_commit
same_commit_comm a b = ground (arith, beq_comm a b)

module _ (v1 v2 : Bytes) (dev : (is_dev v1 && is_dev v2) ≡ false)
    (pre : (is_pre v1 && is_pre v2) ≡ false) where
  compare_builds-flip : compare_builds v2 v1 ≡ flip (compare_builds v1 v2)
  unfolding compare_builds
  compare_builds-flip = ground (
    arith,
    extract_commit_hash-IsPre v1,
    extract_commit_hash-IsPre v2,
    compare_parts-flip (split b'.' v1) (split b'.' v2),
  )

  compare_legacy-flip : compare_legacy v2 v1 ≡ flip (compare_legacy v1 v2)
  unfolding compare_legacy
  compare_legacy-flip = ground (
    arith,
    beq_comm (before v1 (codes "-stable.")) (before v2 (codes "-stable.")),
    compare_builds-flip,
  )

  compare_trimmed-flip : compare_trimmed v2 v1 ≡ flip (compare_trimmed v1 v2)
  unfolding compare_trimmed
  compare_trimmed-flip = ground (
    arith,
    beq_comm v1 v2,
    same_commit_comm (extract_commit_from_version v1) (extract_commit_from_version v2),
    compare_legacy-flip,
  )

abbrev pub trim : Bytes → Bytes
trim v = trim_prefix v (codes "v")

-- CompareVersions on swapped arguments gives the opposite result, unless both versions are
-- development builds or both are test builds.
pub compare_versions-flip :
    (v1 v2 : Bytes)
    → (is_dev (trim v1) && is_dev (trim v2)) ≡ false
    → (is_pre (trim v1) && is_pre (trim v2)) ≡ false
    → compare_versions v2 v1 ≡ flip (compare_versions v1 v2)
unfolding compare_versions
compare_versions-flip v1 v2 dev pre = compare_trimmed-flip (trim v1) (trim v2) dev pre

-- Of two test builds that are not development builds or old stable builds and from whose names
-- no common commit is read, each is an update for the other, as long as the names differ.
pub test_builds-update :
    (v1 v2 : Bytes)
    → ((trim v1 == trim v2) ≡ false)
      × (same_commit (extract_commit_from_version (trim v1)) (extract_commit_from_version (trim v2))
          ≡ false)
      × (same_commit (extract_commit_hash (trim v1)) (extract_commit_hash (trim v2)) ≡ false)
    → ((is_pre (trim v1) ≡ true)
        × (is_dev (trim v1) ≡ false)
        × (is_legacy_stable (trim v1) ≡ false))
    → ((is_pre (trim v2) ≡ true)
        × (is_dev (trim v2) ≡ false)
        × (is_legacy_stable (trim v2) ≡ false))
    → (is_update_available v1 v2 ≡ true) × (is_update_available v2 v1 ≡ true)
unfolding is_update_available compare_versions compare_trimmed compare_legacy compare_builds
test_builds-update v1 v2 (other, commits, hashes) first second = (
  ground (arith, other, commits, hashes, first, second),
  ground (
    arith,
    beq_comm (trim v1) (trim v2),
    same_commit_comm (extract_commit_from_version (trim v1))
        (extract_commit_from_version (trim v2)),
    same_commit_comm (extract_commit_hash (trim v1)) (extract_commit_hash (trim v2)),
    other,
    commits,
    hashes,
    first,
    second,
  ),
)
