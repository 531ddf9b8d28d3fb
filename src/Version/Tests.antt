-- ===== src/Version/Tests.antt =====
-- Runs of internal/version/version.go, and its theorems at concrete versions.
use giraffecloud.Base.{Bool, true, false, [], ◌∷◌, codes, ◌≡◌, refl, arith, bytes_eq, bytes_beq}
use giraffecloud.Text.{has_prefix, trim_prefix, contains, before, split, last, push_first}
use giraffecloud.Text.Decimal.{atoi, value, fmt_uint32, fill}
use giraffecloud.Version.{
  less, equal, greater, after_last, leading_digits, parse_version_part, extract_commit_from_version,
  test_commit, described_commit, extract_commit_hash, pad, compare_each, compare_parts, is_dev,
  is_pre, is_legacy_stable, same_commit, compare_builds, compare_legacy, compare_trimmed,
  compare_versions, is_update_available, is_update_required,
}
use giraffecloud.Version.Order.{flip, compare_versions-flip}
use giraffecloud.Version.Releases.{release, semver_order, compare_versions-release}

-- Names what the tests compute.
unfoldable all_opened : Bool
unfolding bytes_beq has_prefix trim_prefix contains before split last push_first atoi value
    fmt_uint32 fill after_last leading_digits parse_version_part extract_commit_from_version
    test_commit described_commit extract_commit_hash pad compare_each compare_parts is_dev is_pre
    is_legacy_stable same_commit compare_builds compare_legacy compare_trimmed compare_versions
    is_update_available is_update_required release semver_order
all_opened = true

compare_patch : compare_versions (codes "v1.2.3") (codes "1.2.10") ≡ less
unfolding all_opened
compare_patch = refl

compare_padded : compare_versions (codes "v1.2") (codes "1.2.0") ≡ equal
unfolding all_opened
compare_padded = refl

compare_commits :
    compare_versions (codes "dev-cc38be6") (codes "v0.0.0-test.main.20251101.cc38be6") ≡ equal
unfolding all_opened
compare_commits = refl

compare_legacy_stable : compare_versions (codes "v0.0.1") (codes "0.0.1-stable.cc38be6") ≡ greater
unfolding all_opened
compare_legacy_stable = refl

required_none : is_update_required (codes "v1.0.0") (codes "v0.0.0") ≡ false
unfolding all_opened
required_none = refl

compare_versions-flip_example :
    compare_versions (codes "v1.3.0") (codes "dev-cc38be6")
    ≡ flip (compare_versions (codes "dev-cc38be6") (codes "v1.3.0"))
unfolding all_opened
compare_versions-flip_example =
    compare_versions-flip (codes "dev-cc38be6") (codes "v1.3.0") refl refl

compare_versions-release_example :
    compare_versions (release 1 (9 ∷ [])) (release 1 (10 ∷ 0 ∷ []))
    ≡ semver_order (1 ∷ 9 ∷ []) (1 ∷ 10 ∷ 0 ∷ [])
compare_versions-release_example =
    compare_versions-release 1 1 (9 ∷ []) (10 ∷ 0 ∷ []) (omega arith, (omega arith, tt))
      (omega arith, (omega arith, (omega arith, tt)))
