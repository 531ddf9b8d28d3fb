-- ===== src/Auth/Memory.antt =====
-- A table of tokens in memory, which stands for the client of internal/repository/token_repository.go
-- in the tests.
use giraffecloud.Base.{List, [], ◌∷◌, ◌++◌, ◌≡◌, refl, select, nat_eq}
use giraffecloud.Tunnels.Store.{DbResult, ok, err, not_found, failed}
use giraffecloud.Auth.Tokens.{Token, TokenClient, update_token}

abbrev pub one_token : List Token → DbResult Token
one_token [] = err not_found
one_token (t ∷ []) = ok t
one_token (t ∷ u ∷ ts) = err failed

pub one_token-ok : (ts : List Token) (t : Token) → one_token ts ≡ ok t → ts ≡ t ∷ []
one_token-ok [] t h = cc
one_token-ok (u ∷ []) t h = cc
one_token-ok (u ∷ v ∷ ts) t h = cc

abbrev pub tokens_in_memory : TokenClient (List Token)
tokens_in_memory = record {
  rows = λ s. s;
  create = λ t s. (s ++ t ∷ [], ok tt);
  all_newest_first = λ p s. ok (select p s);
  only = λ p s. one_token (select p s);
  update_one = λ id f s. (update_token id f s, ok tt);
  only_row = λ p s t h. one_token-ok (select p s) t h;
  update_rows = λ id f s h. refl;
}
