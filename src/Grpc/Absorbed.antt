-- ===== src/Grpc/Absorbed.antt =====
-- What the chunks of a response add to what was collected
-- (internal/tunnel/grpc_chunked_streaming.go).
use giraffecloud.Base.{
  ℕ, ◌+◌, ◌≡◌, refl, sym, ap, ◌∙◌, inl, inr, Bool, true, false, some, List, [], ◌∷◌, ◌++◌, map,
  Bytes, length, length-append, if◌then◌else◌, arith, Bool-cases, All,
}
use mathlib.Core.List.{append_assoc, append-nil}
use giraffecloud.Grpc.Streams.{HttpResponse, http_response, error}
use giraffecloud.Grpc.Chunks.{
  StreamError, disconnected, timed_out, client_error, error_first, with_chunk, Arrival, message,
  closes, times_out, Running, running, returned, broken, Collection, nothing_yet, is_final_id,
  or_first, is_empty, write, after_chunk, take_chunk, take_message, take_arrival, is_running,
  collect, delivered, without_length, has_ended, deliver_collection,
}

unfoldable pub sum : List ℕ → ℕ
sum [] = 0
sum (n ∷ ns) = n + sum ns

-- The bodies of responses, one after the other.
unfoldable pub bodies : List HttpResponse → Bytes
bodies [] = []
bodies (r ∷ rs) = r.body ++ bodies rs

abbrev pub chunk_message : Bytes → HttpResponse → Arrival
chunk_message id r = message (record { request_id = id; message_type = http_response r })

-- A chunk that is not the last one, and the last one.
abbrev pub IsMiddle : HttpResponse → Type 0
IsMiddle r = (r.is_chunked ≡ true) × (is_final_id r.chunk_id ≡ false)

abbrev pub IsLast : HttpResponse → Type 0
IsLast r = (r.is_chunked ≡ true) × (is_final_id r.chunk_id ≡ true)

-- An arrival at which the goroutine gives up.
abbrev pub Breaks : Arrival → Type 0
Breaks closes = Unit
Breaks times_out = Unit
Breaks (message m) = (text : Bytes) × (code : ℕ) × (m.message_type ≡ error text code)

-- What a chunk that the pipe takes adds.
abbrev pub absorb : HttpResponse → Running → Collection → Collection
absorb r next c = record {
  first_chunk = or_first c.first_chunk r;
  written = c.written ++ r.body;
  recorded = if is_empty r.body then c.recorded else c.recorded ++ length r.body ∷ [];
  cancelled = c.cancelled;
  progress = next;
}

unfoldable pub absorbed : List HttpResponse → Collection → Collection
absorbed [] c = c
absorbed (r ∷ rs) c = absorbed rs (absorb r running c)

pub sum-append : (xs ys : List ℕ) → sum (xs ++ ys) ≡ sum xs + sum ys
unfolding sum
sum-append [] ys = omega arith
sum-append (x ∷ xs) ys = omega (arith, sum-append xs ys)

bodies-append : (rs ss : List HttpResponse) → bodies (rs ++ ss) ≡ bodies rs ++ bodies ss
unfolding bodies
bodies-append [] ss = refl
bodies-append (r ∷ rs) ss =
    ap (r.body ++◌) (bodies-append rs ss) ∙ sym (append_assoc r.body (bodies rs) (bodies ss))

pub empty_nil : (b : Bytes) → is_empty b ≡ true → b ≡ []
empty_nil [] h = refl
empty_nil (x ∷ b) h = cc

append_empty : (w b : Bytes) → is_empty b ≡ true → w ≡ w ++ b
append_empty w b h = sym (ap (w ++◌) (empty_nil b h) ∙ append-nil w)

-- A chunk without bytes leaves this, whichever way the bytes so far are written.
abbrev with_written : HttpResponse → Collection → Bytes → Collection
with_written r c w = record c {
  first_chunk = or_first c.first_chunk r;
  written = w;
  progress = after_chunk r;
}

module _ (accepts : Bytes → Bytes → Bool) (cancels : Bool)
    (open_pipe : (written body : Bytes) → accepts written body ≡ true) where
  -- A chunk of a response in chunks, on a pipe that takes everything.
  pub take_chunk-absorb :
      (r : HttpResponse) (c : Collection)
      → r.is_chunked ≡ true
      → take_chunk accepts cancels r c ≡ absorb r (after_chunk r) c
  unfolding take_chunk write
  take_chunk-absorb r c chunked = elim (Bool-cases (is_empty r.body)) [
    | inl nothing ↦
        simp (chunked, nothing) (ap (with_written r c) (append_empty c.written r.body nothing))
    | inr something ↦ simp (chunked, something, open_pipe c.written r.body) refl
  ]

  pub collect_step :
      (a : Arrival) (more : List Arrival) (c : Collection)
      → c.progress ≡ running
      → collect accepts cancels (a ∷ more) c
        ≡ collect accepts cancels more (take_arrival accepts cancels a c)
  unfolding collect
  collect_step a more c runs =
      ap (λ b. if b then collect accepts cancels more (take_arrival accepts cancels a c) else c)
        (ap is_running runs)

  -- Nothing is read after the goroutine has returned.
  pub collect_done :
      (more : List Arrival) (c : Collection)
      → is_running c.progress ≡ false
      → collect accepts cancels more c ≡ c
  unfolding collect
  collect_done [] c done = refl
  collect_done (a ∷ more) c done =
      ap (λ b. if b then collect accepts cancels more (take_arrival accepts cancels a c) else c)
        done

  pub collect_middle :
      (id : Bytes) (rs : List HttpResponse) (more : List Arrival) (c : Collection)
      → All IsMiddle rs
      → c.progress ≡ running
      → collect accepts cancels (map (chunk_message id) rs ++ more) c
        ≡ collect accepts cancels more (absorbed rs c)
  unfolding take_arrival take_message absorbed
  collect_middle id [] more c middle runs = refl
  collect_middle id (r ∷ rs) more c (m, ms) runs =
      collect_step (chunk_message id r) (map (chunk_message id) rs ++ more) c runs
      ∙ ap (collect accepts cancels (map (chunk_message id) rs ++ more))
          (take_chunk-absorb r c m.0 ∙ ap (λ b. absorb r (if b then returned else running) c) m.1)
      ∙ collect_middle id rs more (absorb r running c) ms refl

pub absorbed_running :
    (rs : List HttpResponse) (c : Collection)
    → c.progress ≡ running
    → (absorbed rs c).progress ≡ running
unfolding absorbed
absorbed_running [] c runs = runs
absorbed_running (r ∷ rs) c runs = absorbed_running rs (absorb r running c) refl

pub absorbed_written :
    (rs : List HttpResponse) (c : Collection) → (absorbed rs c).written ≡ c.written ++ bodies rs
unfolding absorbed bodies
absorbed_written [] c = sym (append-nil c.written)
absorbed_written (r ∷ rs) c =
    absorbed_written rs (absorb r running c) ∙ append_assoc c.written r.body (bodies rs)

pub recorded_one :
    (r : HttpResponse) (ns : List ℕ)
    → sum (if is_empty r.body then ns else ns ++ length r.body ∷ []) ≡ sum ns + length r.body
unfolding sum
recorded_one r ns = elim (Bool-cases (is_empty r.body)) [
  | inl nothing ↦ rw (nothing, empty_nil r.body nothing) (omega arith)
  | inr something ↦ rw something (sum-append ns (length r.body ∷ []) ∙ omega arith)
]

pub absorbed_recorded :
    (rs : List HttpResponse) (c : Collection)
    → sum (absorbed rs c).recorded ≡ sum c.recorded + length (bodies rs)
unfolding absorbed bodies
absorbed_recorded [] c = omega arith
absorbed_recorded (r ∷ rs) c = omega (
  arith,
  absorbed_recorded rs (absorb r running c),
  recorded_one r c.recorded,
  length-append r.body (bodies rs),
)

-- The first chunk of responses, if there is one.
abbrev pub first_of : List HttpResponse → HttpResponse → HttpResponse
first_of [] last = last
first_of (r ∷ rs) last = r

absorbed_first :
    (rs : List HttpResponse) (c : Collection) (f : HttpResponse)
    → c.first_chunk ≡ some f
    → (absorbed rs c).first_chunk ≡ some f
unfolding absorbed
absorbed_first [] c f e = e
absorbed_first (r ∷ rs) c f e = absorbed_first rs (absorb r running c) f (rw e refl)

pub first_absorbed :
    (rs : List HttpResponse) (last : HttpResponse)
    → or_first (absorbed rs nothing_yet).first_chunk last ≡ some (first_of rs last)
unfolding absorbed
first_absorbed [] last = refl
first_absorbed (r ∷ rs) last =
    ap (λ o. or_first o last) (absorbed_first rs (absorb r running nothing_yet) r refl)

pub deliver_done :
    (prefers_error : Bool) (c : Collection) (f : HttpResponse)
    → c.progress ≡ returned
    → c.first_chunk ≡ some f
    → deliver_collection prefers_error c ≡ delivered (without_length f) c.written true
unfolding deliver_collection
deliver_done true c f done first =
    ap (λ p. error_first p c) done
    ∙ ap (λ o. with_chunk o c) first
    ∙ ap (λ p. delivered (without_length f) c.written (has_ended p)) done
deliver_done false c f done first =
    ap (λ o. with_chunk o c) first
    ∙ ap (λ p. delivered (without_length f) c.written (has_ended p)) done

pub absorbed_starts :
    (r : HttpResponse) (rs : List HttpResponse)
    → (absorbed (r ∷ rs) nothing_yet).first_chunk ≡ some r
unfolding absorbed
absorbed_starts r rs = absorbed_first rs (absorb r running nothing_yet) r refl

pub deliver_broken :
    (c : Collection) (f : HttpResponse) (e : StreamError)
    → c.first_chunk ≡ some f
    → deliver_collection false (record c { progress = broken e })
      ≡ delivered (without_length f) c.written true
unfolding deliver_collection
deliver_broken c f e first = ap (λ o. with_chunk o (record c { progress = broken e })) first

pub broken_by :
    (accepts : Bytes → Bytes → Bool) (cancels : Bool) (a : Arrival) (c : Collection)
    → Breaks a
    → (e : StreamError) × (take_arrival accepts cancels a c ≡ record c { progress = broken e })
unfolding take_arrival take_message
broken_by accepts cancels closes c b = (disconnected, refl)
broken_by accepts cancels times_out c b = (timed_out, refl)
broken_by accepts cancels (message m) c (text, code, e) =
    (client_error text, ap (λ type. take_message accepts cancels type c) e)
