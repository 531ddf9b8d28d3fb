-- ===== src/Auth/Service/Tests.antt =====
-- The token service (internal/service/token_service.go) over a table in memory.
use giraffecloud.Base.{
  ◌≡◌, ◌≤◌, ◌<◌, refl, some, [], ◌∷◌, Bytes, codes, bytes_beq, bytes_eq, nat_eq, arith,
}
use giraffecloud.Auth.Base64.{encode, decode}
use giraffecloud.Auth.Memory.{tokens_in_memory}
use giraffecloud.Auth.Tokens.{Token, get_by_token, update_last_used}
use giraffecloud.Auth.Service.{
  TokenError, ok, err, Draw, new_token, to_token_response, create_token, validate_token,
  validate_token_entropy, looked_up, found, check_found, used,
}
use giraffecloud.Auth.Service.Issued.{Valid, create_token-validate_token, validate_token-Valid}

-- "light w" in the raw encoding, and back.
encode_test :
    (encode (codes "light w") ≡ codes "bGlnaHQgdw")
    × (decode (codes "bGlnaHQgdw") ≡ some (codes "light w"))
unfolding encode decode
encode_test = (refl, refl)

-- A hash for the tests.
abbrev hash : Bytes → Bytes
hash s = 0 ∷ s

abbrev thirty_two : Bytes
thirty_two = codes "0123456789abcdef0123456789abcdef"

abbrev draw : Draw
draw = record { random = some thirty_two; id = 1; now = 10; in_a_year = 20 }

abbrev issued : Token
issued = new_token tokens_in_memory hash 5 (codes "laptop") draw (encode thirty_two)

create_token-validate_token_example :
    ((create_token tokens_in_memory hash 5 (codes "laptop") draw []).1
      ≡ ok (to_token_response issued (encode thirty_two)))
    × (15 ≤ 20
        → (validate_token tokens_in_memory hash (encode thirty_two) 15 (issued ∷ [])).1 ≡ ok issued)
    × (20 < 15
        → (validate_token tokens_in_memory hash (encode thirty_two) 15 (issued ∷ [])).1
          ≡ err TokenError.has_expired)
unfolding get_by_token update_last_used new_token bytes_beq encode
create_token-validate_token_example =
    create_token-validate_token tokens_in_memory hash 5 (codes "laptop") draw thirty_two []
      (issued ∷ []) 15 refl (ground arith) refl refl refl refl

validate_token-Valid_example :
    Valid tokens_in_memory hash
      (encode thirty_two)
      15
      (issued ∷ [])
      (validate_token tokens_in_memory hash (encode thirty_two) 15 (issued ∷ [])).0
      issued
unfolding validate_token validate_token_entropy looked_up found check_found used get_by_token
    update_last_used new_token bytes_beq encode decode
validate_token-Valid_example =
    validate_token-Valid tokens_in_memory hash (encode thirty_two) 15 (issued ∷ []) issued refl
