-- ===== src/Grpc/Whole.antt =====
-- The chunks of a large file (internal/tunnel/grpc_chunked_streaming.go) make up the file.
use giraffecloud.Base.{
  ℕ, zero, suc, ◌+◌, ◌-◌, ◌*◌, ◌/◌, ◌%◌, ◌^◌, ◌≤◌, ◌<◌, ◌≡◌, refl, sym, ap, ◌∙◌, inl, inr, Bool,
  List, [], ◌∷◌, ◌++◌, Bytes, ◌==◌, nat_eq, length, take, drop, take-append-drop, ltb, arith,
  Bool-cases,
}
use mathlib.Core.List.{append_assoc}
use giraffecloud.Grpc.Splitting.{
  FetchedResponse, LargeFileChunk, StreamResult, streamed, num_chunks, chunk_data, chunk,
  send_chunks, stream_response_in_chunks,
}

-- The bytes of chunks, one after the other.
unfoldable pub joined : List LargeFileChunk → Bytes
joined [] = []
joined (c ∷ cs) = c.bytes ++ joined cs

drop_nil {ℓ} : {A : Type ℓ} (k : ℕ) → drop {A = A} k [] ≡ []
drop_nil zero = refl
drop_nil (suc k) = refl

drop-drop {ℓ} : {A : Type ℓ} (k n : ℕ) (xs : List A) → drop k (drop n xs) ≡ drop (n + k) xs
drop-drop k zero xs = let e : 0 + k ≡ k = omega arith in rw e refl
drop-drop k (suc n) [] = let e : suc n + k ≡ suc (n + k) = omega arith in rw (e, drop_nil k) refl
drop-drop k (suc n) (x ∷ xs) =
    let e : suc n + k ≡ suc (n + k) = omega arith in rw e (drop-drop k n xs)

drop_all {ℓ} : {A : Type ℓ} (n : ℕ) (xs : List A) → length xs ≤ n → drop n xs ≡ []
drop_all zero [] h = refl
drop_all zero (x ∷ xs) h = absurd (omega (arith, h))
drop_all (suc n) [] h = refl
drop_all (suc n) (x ∷ xs) h = drop_all n xs (omega (arith, h))

length-take_le {ℓ} : {A : Type ℓ} (n : ℕ) (xs : List A) → length (take n xs) ≤ n
length-take_le zero xs = omega arith
length-take_le (suc n) [] = omega arith
length-take_le (suc n) (x ∷ xs) = omega (arith, length-take_le n xs)

num_chunks_lem :
    (total size : ℕ)
    → 0 < size
    → (total ≤ num_chunks total size * size) × (1 ≤ num_chunks total size)
unfolding num_chunks
num_chunks_lem total size h = elim (Bool-cases ((total + size - 1) / size == 0)) [
  | inl none_left ↦ rw none_left (ground (arith, h, none_left), omega arith)
  | inr some_left ↦ rw some_left (omega (arith, h), ground (arith, some_left))
]

-- A chunk and what comes after it.
chunk_data-rest :
    (body : Bytes) (size i : ℕ)
    → chunk_data body size i ++ drop ((i + 1) * size) body ≡ drop (i * size) body
unfolding chunk_data
chunk_data-rest body size i = elim (Bool-cases (ltb (length body) (i * size + size))) [
  | inl short ↦ rw short (
      ap (take (length body - i * size) (drop (i * size) body) ++◌) (
        drop_all ((i + 1) * size) body
          (let fits : length body < i * size + size = ground (arith, short) in omega (arith, fits))
        ∙ sym (drop-drop (length body - i * size) (i * size) body ∙ drop_all _ body (omega arith)))
      ∙ take-append-drop (length body - i * size) (drop (i * size) body))
  | inr long ↦ rw long (
      ap (take (i * size + size - i * size) (drop (i * size) body) ++◌) (
        ap (λ k. drop k body) (omega arith)
        ∙ sym (drop-drop (i * size + size - i * size) (i * size) body))
      ∙ take-append-drop (i * size + size - i * size) (drop (i * size) body))
]

chunk_data-short : (body : Bytes) (size i : ℕ) → length (chunk_data body size i) ≤ size
unfolding chunk_data
chunk_data-short body size i = elim (Bool-cases (ltb (length body) (i * size + size))) [
  | inl short ↦
      let fits : length body < i * size + size = ground (arith, short) in
      rw short (omega (arith, fits, length-take_le (length body - i * size) (drop (i * size) body)))
  | inr long ↦
      rw long (omega (arith, length-take_le (i * size + size - i * size) (drop (i * size) body)))
]

-- The chunks that were sent, in the order of their numbers from `i` on: none is over the size, and
-- only the last of the `n` is final.
abbrev pub InOrder : ℕ → ℕ → ℕ → List LargeFileChunk → Type 0
InOrder size n i [] = Unit
InOrder size n i (c ∷ cs) =
    (c.chunk_number ≡ (i + 1) % 2 ^ 32)
    × (c.is_final ≡ (i == n - 1))
    × (length c.bytes ≤ size)
    × InOrder size n (suc i) cs

-- What was sent of the body from chunk `i` on. All of it was if no send failed.
abbrev SentFrom : Bytes → ℕ → ℕ → ℕ → ℕ → List LargeFileChunk × StreamResult → Type 0
SentFrom body size n rounds i (sent, result) =
    InOrder size n i sent
    × (rest : Bytes) × (joined sent ++ rest ≡ drop (i * size) body)
    × (result ≡ streamed → (rest ≡ drop (n * size) body) × (length sent ≡ rounds))

module _ (request_id : Bytes) (r : FetchedResponse) (size : ℕ) (sends : LargeFileChunk → Bool) where
  send_chunks-SentFrom :
      (n rounds i : ℕ)
      → i + rounds ≡ n
      → SentFrom r.body size n rounds i (send_chunks request_id r size sends n rounds i)
  unfolding send_chunks joined chunk
  send_chunks-SentFrom n zero i e = (
    tt,
    drop (i * size) r.body,
    refl,
    λ done. (ap (λ k. drop (k * size) r.body) (omega arith), refl),
  )
  send_chunks-SentFrom n (suc rounds) i e =
      let (order, rest, whole, all) = send_chunks-SentFrom n rounds (suc i) (omega arith) in
      elim (Bool-cases (sends (chunk request_id r size n i))) [
        | inl yes_so ↦ rw yes_so (
          (refl, refl, chunk_data-short r.body size i, order),
          rest,
          append_assoc (chunk_data r.body size i) _ rest
              ∙ ap ((chunk_data r.body size i) ++◌)
                  (whole ∙ ap (λ k. drop (k * size) r.body) (omega arith))
              ∙ chunk_data-rest r.body size i,
          λ done. ((all done).0, omega (arith, (all done).1)),
        )
        | inr not_so ↦ rw not_so (tt, drop (i * size) r.body, refl, λ done. cc)
      ]

  -- What was sent of the body: chunks in the order of their numbers, none over the size and only the
  -- last one final, that make up the start of the body; and if no send failed, the whole of it, in as many
  -- chunks as the size asks for, one for an empty body.
  abbrev pub Whole : List LargeFileChunk × StreamResult → Type 0
  Whole o =
      InOrder size (num_chunks (length r.body) size) 0 o.0
      × (rest : Bytes) × (joined o.0 ++ rest ≡ r.body)
      × (o.1 ≡ streamed → (rest ≡ []) × (length o.0 ≡ num_chunks (length r.body) size))

  -- For a chunk size that is not zero: the chunks that streamResponseInChunks sends are numbered from
  -- one, none is over the size, only the last is final, and together they are the start of the
  -- body; they are the whole body, in the computed number of chunks, unless a send failed.
  pub stream_response_in_chunks-Whole :
      0 < size → Whole (stream_response_in_chunks request_id r size sends)
  unfolding stream_response_in_chunks
  stream_response_in_chunks-Whole h =
      let n = num_chunks (length r.body) size in
      let (order, rest, whole, all) = send_chunks-SentFrom n n 0 (omega arith) in
      let enough = num_chunks_lem (length r.body) size h in
      (
        order,
        rest,
        (let start_at : 0 * size ≡ 0 = omega arith in whole ∙ ap (λ k. drop k r.body) start_at),
        λ done. ((all done).0 ∙ drop_all (n * size) r.body enough.0, (all done).1),
      )
