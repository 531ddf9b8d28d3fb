-- ===== src/Auth/Service/Issued.antt =====
-- Tokens that internal/service/token_service.go issues and accepts.
use giraffecloud.Base.{
  ℕ, ◌*◌, ◌<◌, ◌≤◌, ◌≡◌, refl, sym, ap, ◌∙◌, inl, inr, Bool, ◌&&◌, Option, none, some, List, [],
  ◌∷◌, Bytes, ◌==◌, bytes_eq, bytes_beq_iff, length, length-map, ltb, subst, All, select, arith,
  Bool-cases,
}
use giraffecloud.Tunnels.Store.{DbResult, not_found, failed}
use giraffecloud.Auth.Base64.{
  IsByte, encode_sextet, sextets, encode, encoded_len, decode, decode-encode,
}
use giraffecloud.Auth.Tokens
use giraffecloud.Auth.Tokens.{
  Token, TokenClient, is_nil, update_token, get_by_token, update_last_used,
}
use giraffecloud.Auth.Service.{
  EntropyError, min_token_bytes, check_decoded, validate_token_entropy, TokenError, ok, err, Draw,
  stored, new_token, to_token_response, checked, drawn, create_token, used, check_found, found,
  looked_up, validate_token,
}

length-sextets : (xs : Bytes) → 4 * length xs ≤ 3 * length (sextets xs)
unfolding sextets
length-sextets [] = omega arith
length-sextets (a ∷ []) = omega arith
length-sextets (a ∷ b ∷ []) = omega arith
length-sextets (a ∷ b ∷ c ∷ rest) = omega (arith, length-sextets rest)

-- Enough random bytes make a token of enough entropy.
encode-entropy :
    (xs : Bytes)
    → All IsByte xs
    → min_token_bytes ≤ length xs
    → validate_token_entropy (encode xs) ≡ none
unfolding validate_token_entropy encoded_len check_decoded
encode-entropy xs bytes long = rw (decode-encode xs bytes) (ground (arith, enough, long))
  where
    enough : 43 ≤ length (encode xs)
    enough =
        unfold encode in
        omega (arith, length-sextets xs, length-map encode_sextet (sextets xs), long)

module _ {S : Type 0} (client : TokenClient S) (hash : Bytes → Bytes) where
  -- A call of CreateToken that draws 32 random bytes and whose row is stored answers with the text
  -- that encodes the bytes. As long as that row is the one found for the text and its last use can
  -- be written, ValidateToken accepts the text until a year has passed, and refuses it afterwards.
  pub create_token-validate_token :
      (user_id : ℕ) (name : Bytes) (draw : Draw) (xs : Bytes) (s s' : S) (now : ℕ)
      → draw.random ≡ some xs
      → All IsByte xs
      → length xs ≡ min_token_bytes
      → (client.create (new_token client hash user_id name draw (encode xs)) s).1 ≡ DbResult.ok tt
      → get_by_token client hash (encode xs) s'
        ≡ DbResult.ok (new_token client hash user_id name draw (encode xs))
      → (update_last_used client draw.id now s').1 ≡ DbResult.ok tt
      → ((create_token client hash user_id name draw s).1
          ≡ ok
              (to_token_response (new_token client hash user_id name draw (encode xs)) (encode xs)))
        × (now ≤ draw.in_a_year
            → (validate_token client hash (encode xs) now s').1
              ≡ ok (new_token client hash user_id name draw (encode xs)))
        × (draw.in_a_year < now
            → (validate_token client hash (encode xs) now s').1 ≡ err TokenError.has_expired)
  unfolding create_token drawn checked stored Tokens.create validate_token looked_up found
      check_found used new_token
  create_token-validate_token user_id name draw xs s s' now random bytes long kept row touched =
      let fine = encode-entropy xs bytes (omega (arith, long)) in
      (
        rw (random, fine) (ground (arith, kept)),
        λ young. rw (fine, row) (ground (arith, young, touched)),
        λ old. rw (fine, row) (ground (arith, old)),
      )

  -- What ValidateToken accepts at a time.
  pub record Valid (token : Bytes) (now : ℕ) (s s' : S) (t : Token) : Type 0 where
    pub entropy : (bytes : Bytes) × (decode token ≡ some bytes) × (min_token_bytes ≤ length bytes)
    pub stored_hash : t.token_hash ≡ hash token
    pub live : t.revoked_at ≡ none
    pub unexpired : now ≤ t.expires_at
    pub touched :
        client.rows s' ≡ update_token t.id (λ u. record u { last_used_at = now }) (client.rows s)

  decoded_long :
      (o : Option Bytes)
      → check_decoded o ≡ none
      → (bytes : Bytes) × (o ≡ some bytes) × (min_token_bytes ≤ length bytes)
  unfolding check_decoded
  decoded_long none h = cc
  decoded_long (some bytes) h = (bytes, refl, ground (arith, h))

  entropy_long :
      (token : Bytes)
      → validate_token_entropy token ≡ none
      → (bytes : Bytes) × (decode token ≡ some bytes) × (min_token_bytes ≤ length bytes)
  unfolding validate_token_entropy
  entropy_long token h = elim (Bool-cases (ltb (length token) (encoded_len min_token_bytes))) [
    | inl short ↦ let k = rw short at h in cc
    | inr long ↦ decoded_long (decode token) (rw long at h)
  ]

  used_lem :
      (t u : Token) (r : S × DbResult (Unit {0}))
      → (used client hash u r).1 ≡ ok t
      → (u ≡ t) × (r.1 ≡ DbResult.ok tt) × ((used client hash u r).0 ≡ r.0)
  unfolding used
  used_lem t u (s, DbResult.ok tt) h = (ground (arith, h), refl, refl)
  used_lem t u (s, DbResult.err e) h = cc

  -- The row that GetByToken found has the hash.
  row_hash :
      (token : Bytes) (s : S) (t : Token)
      → get_by_token client hash token s ≡ DbResult.ok t
      → t.token_hash ≡ hash token
  unfolding get_by_token
  row_hash token s t e = first_hash (client.rows s) (client.only_row known s t e)
    where
      known : Token → Bool
      known = λ u. u.token_hash == hash token && is_nil u.revoked_at

      first_hash : (ts : List Token) → select known ts ≡ t ∷ [] → t.token_hash ≡ hash token
      first_hash [] h = cc
      first_hash (u ∷ ts) h = elim (Bool-cases (known u)) [
        | inl yes_so ↦
            let same : u ≡ t = ground (arith, rw yes_so at h) in
            ap (λ (v : Token). v.token_hash) (sym same)
            ∙ (bytes_beq_iff u.token_hash (hash token)).0 (ground (arith, yes_so))
        | inr not_so ↦ first_hash ts (rw not_so at h)
      ]

  found-Valid :
      (token : Bytes) (now : ℕ) (s : S) (t u : Token) (r : Option ℕ)
      → validate_token_entropy token ≡ none
      → u.token_hash ≡ hash token
      → u.revoked_at ≡ r
      → (check_found client hash u now r s).1 ≡ ok t
      → Valid token now s (check_found client hash u now r s).0 t
  unfolding check_found update_last_used
  found-Valid token now s t u (some at_time) fine known live h = cc
  found-Valid token now s t u none fine known live h = elim (Bool-cases (ltb u.expires_at now)) [
    | inl old ↦ let k = rw old at h in cc
    | inr young ↦
        let (same, done, after) =
          used_lem t u (client.update_one u.id (λ v. record v { last_used_at = now }) s)
            (rw young at h) in
        let valid : Valid token now s
            (client.update_one u.id (λ v. record v { last_used_at = now }) s).0 u =
          record {
            entropy = entropy_long token fine;
            stored_hash = known;
            live = live;
            unexpired = ground (arith, young);
            touched = client.update_rows u.id (λ v. record v { last_used_at = now }) s done;
          } in
        rw (young, after) (subst (Valid token now s _) same valid)
  ]

  -- A token that ValidateToken accepts decodes to at least 32 bytes; the row that is returned has its
  -- hash, is not revoked and has not expired; and the row's last use is now the time of the call, while
  -- nothing else in the table has changed.
  pub validate_token-Valid :
      (token : Bytes) (now : ℕ) (s : S) (t : Token)
      → (validate_token client hash token now s).1 ≡ ok t
      → Valid token now s (validate_token client hash token now s).0 t
  unfolding validate_token
  validate_token-Valid token now s t = entropy_go (validate_token_entropy token) refl
    where
      found_go :
          (r : DbResult Token)
          → validate_token_entropy token ≡ none
          → get_by_token client hash token s ≡ r
          → (found client hash now r s).1 ≡ ok t
          → Valid token now s (found client hash now r s).0 t
      found_go (DbResult.ok u) fine e h =
          unfold found in
          found-Valid token now s t u u.revoked_at fine (row_hash token s u e) refl h
      found_go (DbResult.err not_found) fine e h = unfold found in cc
      found_go (DbResult.err failed) fine e h = unfold found in cc

      entropy_go :
          (o : Option EntropyError)
          → validate_token_entropy token ≡ o
          → (looked_up client hash token now o s).1 ≡ ok t
          → Valid token now s (looked_up client hash token now o s).0 t
      entropy_go (some e) fine h = unfold looked_up in cc
      entropy_go none fine h =
          unfold looked_up in found_go (get_by_token client hash token s) fine refl h
