-- ===== src/Auth/Base64.antt =====
-- base64.RawURLEncoding of Go's library, as internal/service/token_service.go and
-- internal/service/csrf_service.go call it.
use giraffecloud.Base.{
  ℕ, ◌+◌, ◌-◌, ◌*◌, ◌/◌, ◌%◌, ◌<◌, ◌≡◌, refl, ap, ◌∙◌, false, ◌&&◌, ◌||◌, Option, none, some, List,
  [], ◌∷◌, map, Bytes, ◌==◌, nat_eq, ltb, leb, All, if◌then◌else◌, arith,
}

unfoldable pub encode_sextet : ℕ → ℕ
encode_sextet n =
    if ltb n 26
    then n + 65
    else if ltb n 52
    then n + 71
    else if ltb n 62
    then n - 4
    else if n == 62
    then b'-'
    else b'_'

-- The sextets of a text of bytes, the last one filled up with zeros.
unfoldable pub sextets : Bytes → List ℕ
sextets [] = []
sextets (a ∷ []) = (a / 4) ∷ (a % 4 * 16) ∷ []
sextets (a ∷ b ∷ []) = (a / 4) ∷ (a % 4 * 16 + b / 16) ∷ (b % 16 * 4) ∷ []
sextets (a ∷ b ∷ c ∷ rest) =
    (a / 4) ∷ (a % 4 * 16 + b / 16) ∷ (b % 16 * 4 + c / 64) ∷ (c % 64) ∷ sextets rest

-- EncodeToString
unfoldable pub encode : Bytes → Bytes
unfolding encode_sextet sextets
encode bytes = map encode_sextet (sextets bytes)

-- EncodedLen
unfoldable pub encoded_len : ℕ → ℕ
encoded_len n = n / 3 * 4 + (n % 3 * 8 + 5) / 6

unfoldable pub decode_sextet : ℕ → Option ℕ
decode_sextet c =
    if leb b'A' c && leb c b'Z'
    then some (c - 65)
    else if leb b'a' c && leb c b'z'
    then some (c - 71)
    else if leb b'0' c && leb c b'9'
    then some (c + 4)
    else if c == b'-'
    then some 62
    else if c == b'_'
    then some 63
    else none

abbrev pub prepend : Option ℕ → Option (List ℕ) → Option (List ℕ)
prepend (some n) (some ns) = some (n ∷ ns)
prepend _ _ = none

-- The sextets of a text; line ends are passed over.
unfoldable pub read_sextets : Bytes → Option (List ℕ)
unfolding decode_sextet
read_sextets [] = some []
read_sextets (c ∷ s) =
    let rest = read_sextets s in if c == 10 || c == 13 then rest else prepend (decode_sextet c) rest

-- The bytes of sextets; what is left over of the last one is dropped.
unfoldable pub join_sextets : List ℕ → Option Bytes
join_sextets [] = some []
join_sextets (p ∷ []) = none
join_sextets (p ∷ q ∷ []) = some ((p * 4 + q / 16) ∷ [])
join_sextets (p ∷ q ∷ r ∷ []) = some ((p * 4 + q / 16) ∷ ((q % 16) * 16 + r / 4) ∷ [])
join_sextets (p ∷ q ∷ r ∷ s ∷ rest) =
    prepend (some (p * 4 + q / 16)) (
      prepend (some ((q % 16) * 16 + r / 4))
        (prepend (some ((r % 4) * 64 + s)) (join_sextets rest)))

abbrev pub after_read : Option (List ℕ) → Option Bytes
after_read none = none
after_read (some ns) = join_sextets ns

-- DecodeString
unfoldable pub decode : Bytes → Option Bytes
unfolding read_sextets join_sextets
decode s = after_read (read_sextets s)

-- A byte.
abbrev pub IsByte : ℕ → Type 0
IsByte b = b < 256

decode-encode_sextet : (n : ℕ) → n < 64 → decode_sextet (encode_sextet n) ≡ some n
unfolding decode_sextet encode_sextet
decode-encode_sextet n h = ground (arith, h)

encode_sextet_visible : (n : ℕ) → n < 64 → (encode_sextet n == 10 || encode_sextet n == 13) ≡ false
unfolding encode_sextet
encode_sextet_visible n h = ground (arith, h)

sextets_small : (xs : Bytes) → All IsByte xs → All (λ n. n < 64) (sextets xs)
unfolding sextets
sextets_small [] h = tt
sextets_small (a ∷ []) (p, _) = (omega arith, (omega arith, tt))
sextets_small (a ∷ b ∷ []) (p, (q, _)) = (omega arith, (omega arith, (omega arith, tt)))
sextets_small (a ∷ b ∷ c ∷ rest) (p, (q, (r, h))) =
    (omega arith, (omega arith, (omega arith, (omega arith, sextets_small rest h))))

read_sextets-map :
    (ns : List ℕ) → All (λ n. n < 64) ns → read_sextets (map encode_sextet ns) ≡ some ns
unfolding read_sextets
read_sextets-map [] h = refl
read_sextets-map (n ∷ ns) (p, h) =
    rw (encode_sextet_visible n p, decode-encode_sextet n p, read_sextets-map ns h) refl

join_sextets-sextets : (xs : Bytes) → All IsByte xs → join_sextets (sextets xs) ≡ some xs
unfolding join_sextets sextets
join_sextets-sextets [] h = refl
join_sextets-sextets (a ∷ []) (p, _) = ap (λ x. some (x ∷ [])) (omega arith)
join_sextets-sextets (a ∷ b ∷ []) (p, (q, _)) = ground arith
join_sextets-sextets (a ∷ b ∷ c ∷ rest) (p, (q, (r, h))) =
    rw (join_sextets-sextets rest h) (ground arith)

-- Decoding gives back the bytes that were encoded.
pub decode-encode : (xs : Bytes) → All IsByte xs → decode (encode xs) ≡ some xs
unfolding decode encode
decode-encode xs h =
    ap after_read (read_sextets-map (sextets xs) (sextets_small xs h)) ∙ join_sextets-sextets xs h
