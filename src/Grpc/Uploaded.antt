-- ===== src/Grpc/Uploaded.antt =====
-- What an upload sends of its body (internal/tunnel/grpc_chunked_streaming.go).
use giraffecloud.Base.{
  ◌+◌, ◌≡◌, refl, sym, ap, subst, ◌∙◌, inl, inr, Bool, true, false, List, [], ◌∷◌, ◌++◌, Bytes,
  length, length-append, arith, Bool-cases,
}
use mathlib.Core.List.{append_assoc, append-nil}
use giraffecloud.Grpc.Chunks.{is_empty}
use giraffecloud.Grpc.Absorbed.{sum, sum-append, empty_nil}
use giraffecloud.Grpc.LargeFiles.{LargeRequest}
use giraffecloud.Grpc.Uploads.{
  UploadMessage, upload_start, upload_end, upload_chunk, uploaded, Upload, send_message, send_end,
  send_reads, send_upload,
}

-- The bytes of the chunks among messages, and those of reads.
unfoldable pub chunk_bytes : List UploadMessage → Bytes
chunk_bytes [] = []
chunk_bytes (upload_start ∷ ms) = chunk_bytes ms
chunk_bytes (upload_end ∷ ms) = chunk_bytes ms
chunk_bytes (upload_chunk b ∷ ms) = b ++ chunk_bytes ms

unfoldable pub read_bytes : List Bytes → Bytes
read_bytes [] = []
read_bytes (b ∷ bs) = b ++ read_bytes bs

chunk_bytes-append :
    (ms ns : List UploadMessage) → chunk_bytes (ms ++ ns) ≡ chunk_bytes ms ++ chunk_bytes ns
unfolding chunk_bytes
chunk_bytes-append [] ns = refl
chunk_bytes-append (upload_start ∷ ms) ns = chunk_bytes-append ms ns
chunk_bytes-append (upload_end ∷ ms) ns = chunk_bytes-append ms ns
chunk_bytes-append (upload_chunk b ∷ ms) ns =
    ap (b ++◌) (chunk_bytes-append ms ns) ∙ sym (append_assoc b (chunk_bytes ms) (chunk_bytes ns))

abbrev started : Upload
started = record { sent = upload_start ∷ []; recorded = []; result = uploaded }

-- An upload `v` that goes on from `u` over a body: its chunks are the start of the body, and unless it
-- failed they are the whole of it, recorded in full and closed by the end.
abbrev Through : Upload → Bytes → Upload → Type 0
Through u body v =
    ((rest : Bytes) × (chunk_bytes v.sent ++ rest ≡ chunk_bytes u.sent ++ body))
    × (v.result ≡ uploaded
        → (chunk_bytes v.sent ≡ chunk_bytes u.sent ++ body)
          × (sum v.recorded ≡ sum u.recorded + length body)
          × (front : List UploadMessage) × (v.sent ≡ front ++ upload_end ∷ []))

module _ (sends : List UploadMessage → UploadMessage → Bool) where
  send_end-Through : (ends_well : Bool) (u : Upload) → Through u [] (send_end sends ends_well u)
  unfolding send_end send_message chunk_bytes
  send_end-Through false u = (([], refl), λ done. cc)
  send_end-Through true u = elim (Bool-cases (sends u.sent upload_end)) [
    | inl yes_so ↦ simp yes_so (
        let same : chunk_bytes (u.sent ++ upload_end ∷ []) ≡ chunk_bytes u.sent ++ [] =
          chunk_bytes-append u.sent (upload_end ∷ []) in
        (([], append-nil _ ∙ same), λ done. (same, omega arith, u.sent, refl)))
    | inr not_so ↦ simp not_so (([], refl), λ done. cc)
  ]

  -- The bytes of a read, once they are sent, are part of what was sent.
  grow :
      (u v : Upload) (b body : Bytes)
      → Through
          (record u {
            sent = u.sent ++ upload_chunk b ∷ [];
            recorded = u.recorded ++ length b ∷ [];
          })
          body
          v
      → Through u (b ++ body) v
  unfolding chunk_bytes sum
  grow u v b body ((rest, start), all) =
      let more : chunk_bytes (u.sent ++ upload_chunk b ∷ []) ++ body
          ≡ chunk_bytes u.sent ++ (b ++ body) =
        ap (◌++ body) (
          chunk_bytes-append u.sent (upload_chunk b ∷ [])
          ∙ ap (chunk_bytes u.sent ++◌) (append-nil b))
        ∙ append_assoc (chunk_bytes u.sent) b body in
      (
        (rest, start ∙ more),
        λ done. (
          (all done).0 ∙ more,
          omega (arith, (all done).1, sum-append u.recorded (length b ∷ []), length-append b body),
          (all done).2,
          (all done).3,
        ),
      )

  send_reads-Through :
      (bs : List Bytes) (ends_well : Bool) (u : Upload)
      → Through u (read_bytes bs) (send_reads sends bs ends_well u)
  unfolding send_reads read_bytes
  send_reads-Through [] ends_well u = send_end-Through ends_well u
  send_reads-Through (b ∷ bs) ends_well u = elim (Bool-cases (is_empty b)) [
    | inl nothing ↦ simp nothing (
        subst (λ x. Through u (x ++ read_bytes bs) (send_reads sends bs ends_well u))
          (sym (empty_nil b nothing)) (send_reads-Through bs ends_well u))
    | inr something ↦ elim (Bool-cases (sends u.sent (upload_chunk b))) [
      | inl yes_so ↦
          simp (something, yes_so) (grow u _ b (read_bytes bs) (send_reads-Through bs ends_well _))
      | inr not_so ↦ simp (something, not_so) ((b ++ read_bytes bs, refl), λ done. cc)
    ]
  ]

  -- An upload sends its body in order: the chunks that were sent are the start of what the reads of
  -- the body gave. An upload that reports no failure sent all of it, recorded all its bytes, and
  -- ended with the end message.
  pub send_upload-Through :
      (r : LargeRequest)
      → let u = send_upload sends r in
        ((rest : Bytes) × (chunk_bytes u.sent ++ rest ≡ read_bytes r.reads))
        × (u.result ≡ uploaded
            → (chunk_bytes u.sent ≡ read_bytes r.reads)
              × (sum u.recorded ≡ length (read_bytes r.reads))
              × (front : List UploadMessage) × (u.sent ≡ front ++ upload_end ∷ []))
  unfolding send_upload chunk_bytes sum
  send_upload-Through r = elim (Bool-cases (sends [] upload_start)) [
    | inl yes_so ↦ simp yes_so (
        let (start, all) = send_reads-Through r.reads r.ends_well started in
        (start, λ done. ((all done).0, omega (arith, (all done).1), (all done).2, (all done).3)))
    | inr not_so ↦ simp not_so ((read_bytes r.reads, refl), λ done. cc)
  ]
