-- ===== src/Tunnels/Domains.antt =====
-- internal/utils/subdomain.go: the base domain and the subdomain of a user. The environment
-- variables are a record; HMAC-SHA256 is a parameter that gives the bytes of the digest.
use Prim.Native.String.{String}
use giraffecloud.Base.{
  ℕ, zero, suc, ◌+◌, ◌-◌, ◌*◌, ◌/◌, ◌%◌, ◌^◌, ◌≤◌, ◌<◌, ◌≡◌, refl, ◌⊎◌, inl, Bool, true, List, [],
  ◌∷◌, ◌++◌, Bytes, codes, ◌==◌, nat_eq, bytes_eq, bytes_beq, length, take, drop, All, ltb,
  if◌then◌else◌, arith,
}
use giraffecloud.Text.{trim_prefix, has_suffix, trim_suffix}
use giraffecloud.Text.Laws.{has_suffix-trim_suffix, trim_suffix-append, has_suffix-append}
use giraffecloud.Tunnels.Words.{adjectives, nouns}

pub record Env : Type 0 where
  pub subdomain_secret : Bytes
  pub base_domain : Bytes
  pub client_url : Bytes

unfoldable pub get_subdomain_secret : Env → Bytes
unfolding bytes_beq
get_subdomain_secret env =
    if env.subdomain_secret == []
    then codes "default-development-secret-change-in-production"
    else env.subdomain_secret

-- domain[:idx] for the index of the first byte, if it occurs.
unfoldable pub up_to : ℕ → Bytes → Bytes
up_to b [] = []
up_to b (c ∷ s) = if c == b then [] else c ∷ up_to b s

unfoldable pub get_base_domain : Env → Bytes
unfolding bytes_beq trim_prefix up_to
get_base_domain env =
    if env.base_domain == []
    then (if env.client_url == []
        then codes "localhost"
        else up_to b':' (
            trim_prefix
              (trim_prefix (trim_prefix env.client_url (codes "https://")) (codes "http://"))
              (codes "www.")))
    else env.base_domain

unfoldable pub is_auto_generated_domain : Env → Bytes → Bool
unfolding has_suffix
is_auto_generated_domain env domain = has_suffix domain (b'.' ∷ get_base_domain env)

unfoldable pub extract_subdomain : Env → Bytes → Bytes
unfolding has_suffix trim_suffix
extract_subdomain env domain =
    if has_suffix domain (b'.' ∷ get_base_domain env)
    then trim_suffix domain (b'.' ∷ get_base_domain env)
    else []

-- The bytes of a number, the first one highest: binary.BigEndian and big.Int.SetBytes.
unfoldable pub big_endian_from : ℕ → Bytes → ℕ
big_endian_from acc [] = acc
big_endian_from acc (b ∷ bs) = big_endian_from (acc * 256 + b) bs

abbrev pub big_endian : Bytes → ℕ
big_endian bs = big_endian_from 0 bs

unfoldable pub put_uint32 : ℕ → Bytes
put_uint32 n = n / 2 ^ 24 % 256 ∷ n / 2 ^ 16 % 256 ∷ n / 2 ^ 8 % 256 ∷ n % 256 ∷ []

-- A digit of big.Int.Text(36), which is lower case already.
unfoldable pub digit36 : ℕ → ℕ
digit36 d = if ltb d 10 then b'0' + d else b'a' + (d - 10)

-- The digits in front of `rest`. A number of six bytes has at most ten of them.
unfoldable pub base36_from : ℕ → ℕ → Bytes → Bytes
unfolding digit36
base36_from zero n rest = rest
base36_from (suc fuel) n rest =
    let more = base36_from fuel (n / 36) (digit36 (n % 36) ∷ rest) in if n == 0 then rest else more

unfoldable pub base36 : ℕ → Bytes
unfolding base36_from
base36 n = if n == 0 then b'0' ∷ [] else base36_from 10 n []

-- The loop that pads to six characters.
unfoldable pub pad_to : ℕ → Bytes → Bytes
pad_to zero s = s
pad_to (suc missing) s = pad_to missing (b'0' ∷ s)

unfoldable pub encoded_hash : ℕ → Bytes
unfolding base36 pad_to
encoded_hash n = let s = base36 n in take 8 (pad_to (6 - length s) s)

unfoldable pub word_at : List String → ℕ → Bytes
word_at [] i = []
word_at (w ∷ ws) zero = codes w
word_at (w ∷ ws) (suc i) = word_at ws i

module _ (hmac : Bytes → Bytes → Bytes) (env : Env) where
  -- The label in front of the base domain: two words and the encoded hash.
  unfoldable pub subdomain : ℕ → Bytes
  unfolding get_subdomain_secret put_uint32 word_at encoded_hash big_endian_from adjectives nouns
  subdomain user =
      let hash = hmac (get_subdomain_secret env) (put_uint32 user) in
      let adjective = big_endian (take 4 hash) % length adjectives in
      let noun = big_endian (take 4 (drop 4 hash)) % length nouns in
      let number = big_endian (take 6 (drop 8 hash)) in
      word_at adjectives adjective ++ b'-' ∷ (word_at nouns noun ++ b'-' ∷ encoded_hash number)

  unfoldable pub generate_subdomain_for_user : ℕ → Bytes
  unfolding get_base_domain
  generate_subdomain_for_user user = subdomain user ++ b'.' ∷ get_base_domain env

-- Any label in front of the base domain counts as a generated domain, the one that is generated for
-- a user among them, and the label is what is extracted; and where a domain counts as generated,
-- what is extracted from it is such a label.
pub extract_subdomain-label :
    (hmac : Bytes → Bytes → Bytes) (env : Env) (label domain : Bytes)
    → (is_auto_generated_domain env (label ++ b'.' ∷ get_base_domain env) ≡ true)
      × (extract_subdomain env (label ++ b'.' ∷ get_base_domain env) ≡ label)
      × ((user : ℕ)
          → extract_subdomain env (generate_subdomain_for_user hmac env user)
            ≡ subdomain hmac env user)
      × (is_auto_generated_domain env domain ≡ true
          → extract_subdomain env domain ++ b'.' ∷ get_base_domain env ≡ domain)
unfolding generate_subdomain_for_user is_auto_generated_domain extract_subdomain
extract_subdomain-label hmac env label domain =
    let dot : Bytes = b'.' ∷ get_base_domain env in
    (
      has_suffix-append label dot,
      rw (has_suffix-append label dot) (trim_suffix-append label dot),
      λ user.
          rw (has_suffix-append (subdomain hmac env user) dot)
            (trim_suffix-append (subdomain hmac env user) dot),
      λ h. rw h (has_suffix-trim_suffix domain dot h),
    )

length-pad_to : (k : ℕ) (s : Bytes) → length (pad_to k s) ≡ k + length s
unfolding pad_to
length-pad_to zero s = omega arith
length-pad_to (suc k) s = omega (arith, length-pad_to k (b'0' ∷ s))

length-take_bounds :
    (n : ℕ) (s : Bytes)
    → (length (take n s) ≤ n)
      × (n ≤ length s → length (take n s) ≡ n)
      × (length s ≤ n → length (take n s) ≡ length s)
length-take_bounds zero s = (omega arith, λ h. refl, λ h. omega arith)
length-take_bounds (suc n) [] = (omega arith, λ h. omega arith, λ h. refl)
length-take_bounds (suc n) (c ∷ s) =
    let (le, full, all) = length-take_bounds n s in
    (omega arith, λ h. omega (arith, full (omega arith)), λ h. omega (arith, all (omega arith)))

-- A byte of the base-36 alphabet: a digit or a lower-case letter.
abbrev pub IsDigit36 : ℕ → Type 0
IsDigit36 c = ((b'0' ≤ c) × (c ≤ b'9')) ⊎ ((b'a' ≤ c) × (c ≤ b'z'))

digit36-IsDigit36 : (d : ℕ) → d < 36 → IsDigit36 (digit36 d)
unfolding digit36
digit36-IsDigit36 d h = ground arith

base36_from-All :
    (fuel n : ℕ) (rest : Bytes) → All IsDigit36 rest → All IsDigit36 (base36_from fuel n rest)
unfolding base36_from
base36_from-All zero n rest h = h
base36_from-All (suc fuel) n rest h = ground (
  arith,
  base36_from-All fuel (n / 36) (digit36 (n % 36) ∷ rest)
      (digit36-IsDigit36 (n % 36) (omega arith), h),
)

base36-All : (n : ℕ) → All IsDigit36 (base36 n)
unfolding base36
base36-All n = ground (arith, base36_from-All 10 n [] tt)

pad_to-All : (k : ℕ) (s : Bytes) → All IsDigit36 s → All IsDigit36 (pad_to k s)
unfolding pad_to
pad_to-All zero s h = h
pad_to-All (suc k) s h = pad_to-All k (b'0' ∷ s) (inl (omega arith), h)

take-All : (n : ℕ) (s : Bytes) → All IsDigit36 s → All IsDigit36 (take n s)
take-All zero s h = tt
take-All (suc n) [] h = tt
take-All (suc n) (c ∷ s) (d, h) = (d, take-All n s h)

-- The encoded hash has six, seven or eight characters, whatever the number, and each is a digit or
-- a lower-case letter.
pub encoded_hash_bounds :
    (n : ℕ)
    → (6 ≤ length (encoded_hash n)) × (length (encoded_hash n) ≤ 8) × All IsDigit36 (encoded_hash n)
unfolding encoded_hash
encoded_hash_bounds n =
    let s = base36 n in
    let padded = pad_to (6 - length s) s in
    let (le, full, all) = length-take_bounds 8 padded in
    (
      grind (arith, le, full, all, length-pad_to (6 - length s) s),
      le,
      take-All 8 padded (pad_to-All (6 - length s) s (base36-All n)),
    )
