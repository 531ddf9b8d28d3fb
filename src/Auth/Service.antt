-- ===== src/Auth/Service.antt =====
-- The token service: internal/service/token_service.go, with the conversions of
-- internal/api/mapper/token_mapper.go. Random bytes and ids, the hash and the clock are parameters.
pub mod Issued
mod Tests
use giraffecloud.Base.{
  ℕ, ◌*◌, ◌+◌, Bool, true, false, Option, none, some, List, [], ◌∷◌, map, Bytes, length, ltb,
  if◌then◌else◌,
}
use giraffecloud.Tunnels.Store.{DbError, DbResult, not_found, failed}
use giraffecloud.Auth.Base64.{encode, encoded_len, decode}
use giraffecloud.Auth.Tokens
use giraffecloud.Auth.Tokens.{Token, TokenClient, get_by_token, update_last_used}

pub data EntropyError : Type 0 where
  token_too_short token_invalid : EntropyError

abbrev pub min_token_bytes : ℕ
min_token_bytes = 32

-- From the decoded bytes on.
unfoldable pub check_decoded : Option Bytes → Option EntropyError
check_decoded none = some token_invalid
check_decoded (some decoded) =
    if ltb (length decoded) min_token_bytes then some token_too_short else none

-- The error of validateTokenEntropy, if there is one.
unfoldable pub validate_token_entropy : Bytes → Option EntropyError
unfolding encoded_len check_decoded decode
validate_token_entropy token =
    if ltb (length token) (encoded_len min_token_bytes)
    then some token_too_short
    else check_decoded (decode token)

-- token.Response and token.ListResponse.
pub record TokenResponse : Type 0 where
  pub token : Bytes
  pub id : ℕ
  pub name : Bytes
  pub created_at : ℕ
  pub expires_at : ℕ

pub record TokenListResponse : Type 0 where
  pub id : ℕ
  pub name : Bytes
  pub created_at : ℕ
  pub last_used_at : ℕ
  pub expires_at : ℕ
  pub revoked_at : Option ℕ

unfoldable pub to_token_response : Token → Bytes → TokenResponse
to_token_response t plain_token = record {
  token = plain_token;
  id = t.id;
  name = t.name;
  created_at = t.created_at;
  expires_at = t.expires_at;
}

unfoldable pub to_token_list_response : Token → TokenListResponse
to_token_list_response t = record {
  id = t.id;
  name = t.name;
  created_at = t.created_at;
  last_used_at = t.last_used_at;
  expires_at = t.expires_at;
  revoked_at = t.revoked_at;
}

unfoldable pub to_token_list_responses : List Token → List TokenListResponse
unfolding to_token_list_response
to_token_list_responses tokens = map to_token_list_response tokens

pub data TokenError : Type 0 where
  no_randomness token_not_found is_revoked has_expired : TokenError
  entropy : EntropyError → TokenError
  database : DbError → TokenError

pub data TokenResult {ℓ} (A : Type ℓ) : Type ℓ where
  ok : A → TokenResult A
  err : TokenError → TokenResult A

-- What a call draws from the world: the random bytes, a new id, the time, and the time a year later.
pub record Draw : Type 0 where
  pub random : Option Bytes
  pub id : ℕ
  pub now : ℕ
  pub in_a_year : ℕ

module _ {S : Type 0} (client : TokenClient S) (hash : Bytes → Bytes) where
  unfoldable pub stored : Token → Bytes → S × DbResult (Unit {0}) → S × TokenResult TokenResponse
  unfolding to_token_response
  stored t plain_token (s, DbResult.ok _) = (s, ok (to_token_response t plain_token))
  stored t plain_token (s, DbResult.err e) = (s, err (database e))

  unfoldable pub new_token : ℕ → Bytes → Draw → Bytes → Token
  new_token user_id name draw plain_token = record {
    id = draw.id;
    user_id = user_id;
    name = name;
    token_hash = hash plain_token;
    created_at = draw.now;
    last_used_at = draw.now;
    expires_at = draw.in_a_year;
    revoked_at = none;
  }

  -- From the check of the entropy on.
  unfoldable pub checked :
      ℕ → Bytes → Draw → Bytes → Option EntropyError → S → S × TokenResult TokenResponse
  unfolding stored new_token Tokens.create
  checked user_id name draw plain_token (some e) s = (s, err (entropy e))
  checked user_id name draw plain_token none s =
      let t = new_token user_id name draw plain_token in
      stored t plain_token (Tokens.create client t s)

  unfoldable pub drawn : ℕ → Bytes → Draw → Option Bytes → S → S × TokenResult TokenResponse
  unfolding checked encode validate_token_entropy
  drawn user_id name draw none s = (s, err no_randomness)
  drawn user_id name draw (some token_bytes) s =
      let plain_token = encode token_bytes in
      checked user_id name draw plain_token (validate_token_entropy plain_token) s

  unfoldable pub create_token : ℕ → Bytes → Draw → S → S × TokenResult TokenResponse
  unfolding drawn
  create_token user_id name draw s = drawn user_id name draw draw.random s

  unfoldable pub listed : DbResult (List Token) → TokenResult (List TokenListResponse)
  unfolding to_token_list_responses
  listed (DbResult.ok ts) = ok (to_token_list_responses ts)
  listed (DbResult.err e) = err (database e)

  unfoldable pub list_tokens : ℕ → S → TokenResult (List TokenListResponse)
  unfolding listed Tokens.list
  list_tokens user_id s = listed (Tokens.list client user_id s)

  unfoldable pub revoked : S × DbResult (Unit {0}) → S × TokenResult (Unit {0})
  revoked (s, DbResult.ok _) = (s, ok tt)
  revoked (s, DbResult.err not_found) = (s, err token_not_found)
  revoked (s, DbResult.err failed) = (s, err (database failed))

  unfoldable pub revoke_token : ℕ → ℕ → S → S × TokenResult (Unit {0})
  unfolding revoked Tokens.revoke
  revoke_token id now s = revoked (Tokens.revoke client id now s)

  unfoldable pub used : Token → S × DbResult (Unit {0}) → S × TokenResult Token
  used t (s, DbResult.ok _) = (s, ok t)
  used t (s, DbResult.err e) = (s, err (database e))

  -- The checks of a token that was found.
  unfoldable pub check_found : Token → ℕ → Option ℕ → S → S × TokenResult Token
  unfolding used update_last_used
  check_found t now (some _) s = (s, err is_revoked)
  check_found t now none s =
      if ltb t.expires_at now
      then (s, err has_expired)
      else used t (update_last_used client t.id now s)

  unfoldable pub found : ℕ → DbResult Token → S → S × TokenResult Token
  unfolding check_found
  found now (DbResult.ok t) s = check_found t now t.revoked_at s
  found now (DbResult.err not_found) s = (s, err token_not_found)
  found now (DbResult.err failed) s = (s, err (database failed))

  unfoldable pub looked_up : Bytes → ℕ → Option EntropyError → S → S × TokenResult Token
  unfolding found get_by_token
  looked_up token now (some e) s = (s, err (entropy e))
  looked_up token now none s = found now (get_by_token client hash token s) s

  unfoldable pub validate_token : Bytes → ℕ → S → S × TokenResult Token
  unfolding looked_up validate_token_entropy
  validate_token token now s = looked_up token now (validate_token_entropy token) s
