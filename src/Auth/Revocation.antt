-- ===== src/Auth/Revocation.antt =====
-- What Revoke of internal/repository/token_repository.go takes from a token.
use giraffecloud.Base.{
  ℕ, Bool, true, false, ◌&&◌, some, List, [], ◌∷◌, Bytes, ◌==◌, nat_eq, bytes_eq, ◌≡◌, ◌≢◌, sym,
  subst, All, All-select, arith,
}
use giraffecloud.Tunnels.Store.{ok}
use giraffecloud.Auth.Tokens.{Token, TokenClient, update_token, is_nil, get_by_token, revoke}

-- In the table a token of the id is revoked.
abbrev Shut : ℕ → Token → Type 0
Shut id t = t.id ≡ id → is_nil t.revoked_at ≡ false

update_token-Shut :
    (id now : ℕ) (ts : List Token)
    → All
        (Shut id)
        (update_token id (λ t. record t { revoked_at = some now; last_used_at = now }) ts)
update_token-Shut id now [] = tt
update_token-Shut id now (t ∷ ts) = (λ e. ground (arith, e), update_token-Shut id now ts)

module _ {S : Type 0} (client : TokenClient S) (hash : Bytes → Bytes) where
  -- After a revocation that succeeds, no text is accepted as the token of that id.
  pub get_by_token-revoke :
      (id now : ℕ) (token : Bytes) (s : S) (t : Token)
      → (revoke client id now s).1 ≡ ok tt
      → get_by_token client hash token (revoke client id now s).0 ≡ ok t
      → t.id ≢ id
  unfolding get_by_token revoke
  get_by_token-revoke id now token s t done found same =
      let live = All-select (Shut id) p (client.rows after) (
        subst (All (Shut id)) (sym (client.update_rows id shut s done))
          (update_token-Shut id now (client.rows s))) in
      let (accepted, closed) =
        (subst (All (λ x. (p x ≡ true) × Shut id x)) (client.only_row p after t found) live).0 in
      ground (arith, accepted, closed same)
    where
      p : Token → Bool
      p = λ u. u.token_hash == hash token && is_nil u.revoked_at

      shut : Token → Token
      shut = λ u. record u { revoked_at = some now; last_used_at = now }

      after : S
      after = (client.update_one id shut s).0
