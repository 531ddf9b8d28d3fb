-- ===== src/Grpc/Collected.antt =====
-- What a visitor gets of a response in chunks (internal/tunnel/grpc_chunked_streaming.go).
use giraffecloud.Base.{
  ◌≡◌, refl, sym, ap, ◌∙◌, Bool, true, false, List, [], ◌∷◌, ◌++◌, map, Bytes, length,
  length-append, if◌then◌else◌, arith, All,
}
use mathlib.Core.List.{append-nil}
use giraffecloud.Grpc.Streams.{HttpResponse}
use giraffecloud.Grpc.Chunks.{
  StreamError, refused, Arrival, running, returned, broken, nothing_yet, take_message, take_arrival,
  collect, delivered, without_length, deliver_collection,
}
use giraffecloud.Grpc.Absorbed.{
  sum, bodies, chunk_message, IsMiddle, IsLast, Breaks, absorb, absorbed, collect_middle,
  collect_step, collect_done, take_chunk-absorb, absorbed_running, absorbed_written, recorded_one,
  absorbed_recorded, first_of, first_absorbed, deliver_done, absorbed_starts, deliver_broken,
  broken_by,
}

module _ (accepts : Bytes → Bytes → Bool) (cancels : Bool)
    (open_pipe : (written body : Bytes) → accepts written body ≡ true) (id : Bytes) where
  collect_to_last :
      (rs : List HttpResponse) (last : HttpResponse) (later : List Arrival)
      → All IsMiddle rs
      → IsLast last
      → collect accepts cancels
          (map (chunk_message id) rs ++ chunk_message id last ∷ later)
          nothing_yet
        ≡ absorb last returned (absorbed rs nothing_yet)
  unfolding take_arrival take_message
  collect_to_last rs last later middle final =
      let c = absorbed rs nothing_yet in
      collect_middle accepts cancels open_pipe id rs (chunk_message id last ∷ later) nothing_yet
        middle refl
      ∙ collect_step accepts cancels open_pipe (chunk_message id last) later c
          (absorbed_running rs nothing_yet refl)
      ∙ ap (collect accepts cancels later) (
          take_chunk-absorb accepts cancels open_pipe last c final.0
          ∙ ap (λ b. absorb last (if b then returned else running) c) final.1)
      ∙ collect_done accepts cancels open_pipe later (absorb last returned c) refl

  -- Without an initial chunk and with a reader of the pipe that takes everything, a response in chunks
  -- is delivered whole: with the head of the first chunk, less its Content-Length, and the bodies of
  -- all of them in order, as soon as the final chunk is there, whatever comes after it; and the
  -- bytes recorded for the usage are as many as the body has.
  pub collect-whole :
      (rs : List HttpResponse) (last : HttpResponse) (later : List Arrival) (prefers_error : Bool)
      → All IsMiddle rs
      → IsLast last
      → let c =
          collect accepts cancels
            (map (chunk_message id) rs ++ chunk_message id last ∷ later)
            nothing_yet in
        (deliver_collection prefers_error c
          ≡ delivered (without_length (first_of rs last)) (bodies rs ++ last.body) true)
        × (sum c.recorded ≡ length (bodies rs ++ last.body))
  unfolding sum
  collect-whole rs last later prefers_error middle final =
      let c = absorbed rs nothing_yet in
      let to_last = collect_to_last rs last later middle final in
      (
        ap (deliver_collection prefers_error) to_last
            ∙ deliver_done prefers_error (absorb last returned c) (first_of rs last) refl
                (first_absorbed rs last)
            ∙ ap (λ w. delivered (without_length (first_of rs last)) (w ++ last.body) true)
                (absorbed_written rs nothing_yet),
        ap (λ d. sum d.recorded) to_last
            ∙ omega (
              arith,
              recorded_one last c.recorded,
              absorbed_recorded rs nothing_yet,
              length-append (bodies rs) last.body,
            ),
      )

  -- The goroutine closes the pipe in the same way when it gives up. Without an initial chunk and with
  -- a reader of the pipe that takes everything, when the tunnel goes, the time is over or the client
  -- reports an error after at least one chunk: if the caller looks at the first chunk before the
  -- error, the visitor gets what came so far as a response that has ended, the same as if a final
  -- chunk without bytes had come; and if it looks at the error first, it gets an error.
  pub collect-cut :
      (r : HttpResponse) (rs : List HttpResponse) (a : Arrival) (last : HttpResponse)
      (later : List Arrival)
      → All IsMiddle (r ∷ rs)
      → Breaks a
      → IsLast last
      → last.body ≡ []
      → let cut =
          collect accepts cancels (map (chunk_message id) (r ∷ rs) ++ a ∷ later) nothing_yet in
        (deliver_collection false cut
          ≡ deliver_collection false (
              collect accepts cancels
                (map (chunk_message id) (r ∷ rs) ++ chunk_message id last ∷ later)
                nothing_yet))
        × (e : StreamError) × (deliver_collection true cut ≡ refused e)
  unfolding deliver_collection
  collect-cut r rs a last later middle breaks final empty =
      let c = absorbed (r ∷ rs) nothing_yet in
      let (e, breaking) = broken_by accepts cancels a c breaks in
      let ended : collect accepts cancels (map (chunk_message id) (r ∷ rs) ++ a ∷ later) nothing_yet
          ≡ record c { progress = broken e } =
        collect_middle accepts cancels open_pipe id (r ∷ rs) (a ∷ later) nothing_yet middle refl
        ∙ collect_step accepts cancels open_pipe a later c
            (absorbed_running (r ∷ rs) nothing_yet refl)
        ∙ ap (collect accepts cancels later) breaking
        ∙ collect_done accepts cancels open_pipe later (record c { progress = broken e }) refl in
      (
        ap (deliver_collection false) ended
            ∙ deliver_broken c r e (absorbed_starts r rs)
            ∙ ap (λ w. delivered (without_length r) w true)
                (absorbed_written (r ∷ rs) nothing_yet ∙ sym (append-nil (bodies (r ∷ rs))))
            ∙ sym (
                (collect-whole (r ∷ rs) last later false middle final).0
                ∙ ap (λ b. delivered (without_length r) (bodies (r ∷ rs) ++ b) true) empty),
        e,
        ap (deliver_collection true) ended,
      )
