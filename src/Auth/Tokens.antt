-- ===== src/Auth/Tokens.antt =====
-- The tokens: internal/db/ent/schema/token.go and internal/repository/token_repository.go, over the
-- client that ent generates. SHA-256 in hexadecimal is a parameter.
use giraffecloud.Base.{
  ℕ, Bool, true, false, ◌&&◌, Option, none, some, List, [], ◌∷◌, Bytes, ◌==◌, nat_eq, bytes_eq, ◌≡◌,
  select, if◌then◌else◌,
}
use giraffecloud.Tunnels.Store.{DbResult, ok}

-- Ids are numbers, times are counted.
pub record Token : Type 0 where
  pub id : ℕ
  pub user_id : ℕ
  pub name : Bytes
  pub token_hash : Bytes
  pub created_at : ℕ
  pub last_used_at : ℕ
  pub expires_at : ℕ
  pub revoked_at : Option ℕ

abbrev pub update_token : ℕ → (Token → Token) → List Token → List Token
update_token id f [] = []
update_token id f (t ∷ ts) = (if t.id == id then f t else t) ∷ update_token id f ts

-- The client over a store: the table's rows, and the calls, each of which may fail.
pub record TokenClient (S : Type 0) : Type 0 where
  pub rows : S → List Token
  pub create : Token → S → S × DbResult (Unit {0})
  pub all_newest_first : (Token → Bool) → S → DbResult (List Token)
  pub only : (Token → Bool) → S → DbResult Token
  pub update_one : ℕ → (Token → Token) → S → S × DbResult (Unit {0})
  pub only_row :
      (p : Token → Bool) (s : S) (t : Token) → only p s ≡ ok t → select p (rows s) ≡ t ∷ []
  pub update_rows :
      (id : ℕ) (f : Token → Token) (s : S)
      → (update_one id f s).1 ≡ ok tt
      → rows (update_one id f s).0 ≡ update_token id f (rows s)

abbrev pub is_nil : Option ℕ → Bool
is_nil none = true
is_nil (some _) = false

module _ {S : Type 0} (client : TokenClient S) where
  unfoldable pub create : Token → S → S × DbResult (Unit {0})
  create t s = client.create t s

  unfoldable pub list : ℕ → S → DbResult (List Token)
  list user_id s = client.all_newest_first (λ t. t.user_id == user_id && is_nil t.revoked_at) s

  unfoldable pub get_by_id : ℕ → S → DbResult Token
  get_by_id id s = client.only (λ t. t.id == id) s

  -- `hash` is the hexadecimal SHA-256 of a text.
  unfoldable pub get_by_token : (Bytes → Bytes) → Bytes → S → DbResult Token
  get_by_token hash token s = client.only (λ t. t.token_hash == hash token && is_nil t.revoked_at) s

  unfoldable pub update_last_used : ℕ → ℕ → S → S × DbResult (Unit {0})
  update_last_used id now s = client.update_one id (λ t. record t { last_used_at = now }) s

  -- The schema sets the time of the last use on every update.
  unfoldable pub revoke : ℕ → ℕ → S → S × DbResult (Unit {0})
  revoke id now s =
      client.update_one id (λ t. record t { revoked_at = some now; last_used_at = now }) s
