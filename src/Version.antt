-- ===== src/Version.antt =====
-- Versions: internal/version/version.go.
pub mod Configs
pub mod Service
mod Order
mod Releases
mod Tests
use giraffecloud.Base.{
  ℕ, zero, suc, Bool, true, false, not, ◌&&◌, ◌||◌, Option, none, some, List, [], ◌∷◌, Bytes, codes,
  ◌==◌, nat_eq, bytes_eq, bytes_beq, leb, ltb, length, drop, if◌then◌else◌,
}
use giraffecloud.Text.{has_prefix, trim_prefix, contains, before, split, last, push_first}
use giraffecloud.Text.Decimal.{is_digit, atoi, value}

-- The results -1, 0 and 1 of CompareVersions.
pub data Comparison : Type 0 where
  less equal greater : Comparison

-- What stands after the last occurrence of the text.
unfoldable pub after_last : Bytes → Bytes → Option Bytes
after_last [] p = none
after_last (c ∷ s) p = elim (after_last s p) [
  | some rest ↦ some rest
  | none ↦ if has_prefix (c ∷ s) p then some (drop (length p) (c ∷ s)) else none
]

-- The digits at the start.
unfoldable pub leading_digits : Bytes → Bytes
leading_digits [] = []
leading_digits (c ∷ s) = if is_digit c then c ∷ leading_digits s else []

unfoldable pub parse_version_part : Bytes → ℕ
parse_version_part part = elim (leading_digits part) [
  | [] ↦ 0
  | c ∷ s ↦ elim (atoi (c ∷ s)) [ some num ↦ num | none ↦ 0 ]
]

unfoldable pub extract_commit_from_version : Bytes → Bytes
extract_commit_from_version version =
    if has_prefix version (codes "dev-")
    then trim_prefix version (codes "dev-")
    else if contains version (codes "-stable.")
    then last (split b'.' version)
    else if contains version (codes "-test.")
    then last (split b'.' version)
    else []

-- The last part of a text with "-test." in it.
unfoldable pub test_commit : Bytes → Bytes
test_commit version = if contains version (codes "-test.") then last (split b'.' version) else []

-- What extractCommitHash makes of a text that starts with "test-".
unfoldable pub described_commit : Bytes → Bytes
described_commit version =
    let fallback : Bytes = elim (split b'-' version) [
      | _ ∷ part ∷ _ ↦ part
      | _ ↦ test_commit version
    ] in
    elim (after_last version (codes "-g")) [
      | some (c ∷ hash) ↦ c ∷ hash
      | some [] ↦ fallback
      | none ↦ fallback
    ]

unfoldable pub extract_commit_hash : Bytes → Bytes
extract_commit_hash version =
    if has_prefix version (codes "test-") then described_commit version else test_commit version

-- Appends "0" until there are as many parts as wanted.
unfoldable pub pad : ℕ → List Bytes → List Bytes
pad zero parts = parts
pad (suc n) [] = (b'0' ∷ []) ∷ pad n []
pad (suc n) (part ∷ parts) = part ∷ pad n parts

-- The loop over the parts of two versions of the same count of parts.
unfoldable pub compare_each : List Bytes → List Bytes → Comparison
compare_each [] _ = equal
compare_each (_ ∷ _) [] = equal
compare_each (p ∷ ps) (q ∷ qs) =
    let rest = compare_each ps qs in
    if ltb (parse_version_part p) (parse_version_part q)
    then less
    else if ltb (parse_version_part q) (parse_version_part p)
    then greater
    else rest

unfoldable pub compare_parts : List Bytes → List Bytes → Comparison
compare_parts parts1 parts2 =
    let max_len = if ltb (length parts1) (length parts2) then length parts2 else length parts1 in
    compare_each (pad max_len parts1) (pad max_len parts2)

unfoldable pub is_dev : Bytes → Bool
is_dev v = v == codes "dev" || v == codes "unknown" || has_prefix v (codes "dev-")

unfoldable pub is_pre : Bytes → Bool
is_pre v = contains v (codes "-test") || has_prefix v (codes "test-")

unfoldable pub is_legacy_stable : Bytes → Bool
is_legacy_stable v = contains v (codes "-stable.")

abbrev pub is_empty : Bytes → Bool
is_empty [] = true
is_empty (_ ∷ _) = false

-- Two versions that name the same commit.
unfoldable pub same_commit : Bytes → Bytes → Bool
same_commit hash1 hash2 = not (is_empty hash1) && not (is_empty hash2) && hash1 == hash2

-- The end of CompareVersions, from the development versions on.
unfoldable pub compare_builds : Bytes → Bytes → Comparison
compare_builds v1 v2 =
    if is_dev v1
    then less
    else if is_dev v2
    then greater
    else if is_pre v1 && is_pre v2
    then if same_commit (extract_commit_hash v1) (extract_commit_hash v2)
      then equal
      else if (is_empty (extract_commit_hash v1) || is_empty (extract_commit_hash v2)) && v1 == v2
      then equal
      else less
    else if not (is_empty (extract_commit_hash v1))
    then less
    else if not (is_empty (extract_commit_hash v2))
    then greater
    else compare_parts (split b'.' v1) (split b'.' v2)

-- The middle of CompareVersions: builds of the old stable format.
unfoldable pub compare_legacy : Bytes → Bytes → Comparison
compare_legacy v1 v2 =
    if is_legacy_stable v1
      && is_legacy_stable v2
      && before v1 (codes "-stable.") == before v2 (codes "-stable.")
    then equal
    else if not (is_legacy_stable v1)
        && is_legacy_stable v2
        && is_empty (extract_commit_from_version v1)
    then greater
    else if is_legacy_stable v1
        && not (is_legacy_stable v2)
        && is_empty (extract_commit_from_version v2)
    then less
    else compare_builds v1 v2

-- CompareVersions on versions whose prefix "v" is taken off.
unfoldable pub compare_trimmed : Bytes → Bytes → Comparison
compare_trimmed v1 v2 =
    if v1 == v2
    then equal
    else if same_commit (extract_commit_from_version v1) (extract_commit_from_version v2)
    then equal
    else compare_legacy v1 v2

unfoldable pub compare_versions : Bytes → Bytes → Comparison
compare_versions v1 v2 = compare_trimmed (trim_prefix v1 (codes "v")) (trim_prefix v2 (codes "v"))

abbrev pub is_less : Comparison → Bool
is_less less = true
is_less _ = false

unfoldable pub is_update_available : Bytes → Bytes → Bool
is_update_available client_version server_version =
    is_less (compare_versions client_version server_version)

unfoldable pub is_update_required : Bytes → Bytes → Bool
is_update_required client_version minimum_version =
    if minimum_version == []
      || minimum_version == codes "v0.0.0"
      || minimum_version == codes "0.0.0"
    then false
    else is_less (compare_versions client_version minimum_version)
