-- ===== src/Usage/Conservation.antt =====
-- What a flush brings to the database (FlushToDB of internal/service/usage_service.go).
use mathlib.Core.Option.{some-injective}
use giraffecloud.Base.{
  ℕ, zero, suc, ◌+◌, ◌%◌, ◌^◌, Bool, true, false, Option, some, none, List, [], ◌∷◌, map, Bytes,
  ◌&&◌, ◌==◌, nat_eq, bytes_eq, nat_beq_iff, bytes_beq_iff, if◌then◌else◌, Bool-cases, both_true,
  inl, inr, ◌≡◌, refl, arith, length, take, drop,
}
use giraffecloud.Base.Map.{total, total-insert, total-insert_new}
use giraffecloud.Usage.Service.{
  Day, UsageRecord, UsageService, add64, batch_size, snapshot_and_reset,
}
use giraffecloud.Usage.Flush.{
  UsageClient, ◌>>=◌, or_rolled_back, unless_failed, day_beq, same_period, add_record, put_record,
  put_records, attempt_batch, process_batch, process_batches, flush_taken, flush_to_db,
}
use giraffecloud.Usage.Counters.{Counter, bytes_in, bytes_out, requests, read}

-- The records of one user, tunnel, domain and day.
pub record Period : Type 0 where
  pub user : ℕ
  pub tunnel : ℕ
  pub domain : Bytes
  pub day : Day

abbrev pub is_in : Period → UsageRecord → Bool
is_in k r =
    r.user_id == k.user
    && r.tunnel_id == k.tunnel
    && r.domain == k.domain
    && day_beq r.period_start k.day

-- A counter of a record, if it is one of the period.
abbrev pub counted_in : Period → Counter → UsageRecord → ℕ
counted_in k c r = if is_in k r then read c r else 0

abbrev sum_by : (UsageRecord → ℕ) → List UsageRecord → ℕ
sum_by f [] = 0
sum_by f (r ∷ rs) = f r + sum_by f rs

sum_by-take-drop :
    (f : UsageRecord → ℕ) (n : ℕ) (rs : List UsageRecord)
    → sum_by f (take n rs) + sum_by f (drop n rs) ≡ sum_by f rs
sum_by-take-drop f zero rs = omega arith
sum_by-take-drop f (suc n) [] = omega arith
sum_by-take-drop f (suc n) (r ∷ rs) = omega (arith, sum_by-take-drop f n rs)

sum_by-map :
    (f : UsageRecord → ℕ) (m : List (Bytes × UsageRecord)) → sum_by f (map (λ e. e.1) m) ≡ total f m
unfolding total
sum_by-map f [] = refl
sum_by-map f ((k, r) ∷ m) = omega (arith, sum_by-map f m)

-- The row that the query finds is of the record's period.
same_period-is_in :
    (k : Period) (r row : UsageRecord) → same_period r row ≡ true → is_in k row ≡ is_in k r
unfolding same_period day_beq
same_period-is_in k r row h =
    let (most, domain) = both_true _ _ h in
    let (more, tunnel) = both_true _ _ most in
    let (days, user) = both_true _ _ more in
    let (months, day) = both_true _ _ days in
    let (year, month) = both_true _ _ months in
    rw
      (
        (nat_beq_iff row.period_start.year r.period_start.year).0 year,
        (nat_beq_iff row.period_start.month r.period_start.month).0 month,
        (nat_beq_iff row.period_start.day r.period_start.day).0 day,
        (nat_beq_iff row.user_id r.user_id).0 user,
        (nat_beq_iff row.tunnel_id r.tunnel_id).0 tunnel,
        (bytes_beq_iff row.domain r.domain).0 domain,
      )
      refl

read-add_record :
    (c : Counter) (r existing : UsageRecord)
    → read c (add_record r existing) ≡ add64 (read c existing) (read c r)
unfolding add_record
read-add_record bytes_in r existing = refl
read-add_record bytes_out r existing = refl
read-add_record requests r existing = refl

is_in-add_record :
    (k : Period) (r existing : UsageRecord) → is_in k (add_record r existing) ≡ is_in k existing
unfolding add_record
is_in-add_record k r existing = refl

counted_in-add_record :
    (k : Period) (c : Counter) (r existing : UsageRecord)
    → same_period r existing ≡ true
    → counted_in k c (add_record r existing) % 2 ^ 64
      ≡ (counted_in k c existing + counted_in k c r) % 2 ^ 64
counted_in-add_record k c r existing h = elim (Bool-cases (is_in k r)) [
  | inl mine ↦
      rw (is_in-add_record k r existing, same_period-is_in k r existing h, mine)
        (omega (arith, read-add_record c r existing))
  | inr other ↦
      rw (is_in-add_record k r existing, same_period-is_in k r existing h, other) (omega arith)
]

bind-some {ℓ κ} :
    {A : Type ℓ} {B : Type κ} (o : Option A) (next : A → Option B) (b : B)
    → (o >>= next) ≡ some b
    → (a : A) × (o ≡ some a) × (next a ≡ some b)
bind-some none next b h = cc
bind-some (some a) next b h = (a, refl, h)

module _ {S : Type 0} (client : UsageClient S) where
  -- A counter over the rows of a period in the table.
  abbrev pub stored : Period → Counter → S → ℕ
  stored k c s = total (counted_in k c) (client.rows s)

  put_record-stored :
      (k : Period) (c : Counter) (r : UsageRecord) (s t : S)
      → put_record client r s ≡ some t
      → stored k c t % 2 ^ 64 ≡ (stored k c s + counted_in k c r) % 2 ^ 64
  unfolding put_record
  put_record-stored k c r s t h = go (client.only (same_period r) s) refl h
    where
      go :
          (o : Option (ℕ × UsageRecord))
          → client.only (same_period r) s ≡ o
          → elim o [
            | some (id, existing) ↦ client.update_one id (add_record r existing) s
            | none ↦ client.create r s
          ]
            ≡ some t
          → stored k c t % 2 ^ 64 ≡ (stored k c s + counted_in k c r) % 2 ^ 64
      go none e h' =
          let (id, fresh, rows) = client.create_rows r s t h' in
          rw rows (omega (arith, total-insert_new (counted_in k c) id r (client.rows s) fresh))
      go (some (id, existing)) e h' = rw (client.update_rows id (add_record r existing) s t h') (
          omega (
            arith,
            counted_in-add_record k c r existing
                (client.only_row (same_period r) s id existing e).1,
            total-insert (counted_in k c) id (add_record r existing) existing (client.rows s)
                (client.only_row (same_period r) s id existing e).0,
          ))

  put_records-stored :
      (k : Period) (c : Counter) (rs : List UsageRecord) (s t : S)
      → put_records client rs s ≡ some t
      → stored k c t % 2 ^ 64 ≡ (stored k c s + sum_by (counted_in k c) rs) % 2 ^ 64
  unfolding put_records
  put_records-stored k c [] s t h = let same : s ≡ t = some-injective _ _ h in rw same (omega arith)
  put_records-stored k c (r ∷ rs) s t h =
      let (u, e, h') = bind-some (put_record client r s) (put_records client rs) t h in
      omega (arith, put_record-stored k c r s u e, put_records-stored k c rs u t h')

  attempt_batch-stored :
      (k : Period) (c : Counter) (rs : List UsageRecord) (s t : S)
      → attempt_batch client rs s ≡ some t
      → stored k c t % 2 ^ 64 ≡ (stored k c s + sum_by (counted_in k c) rs) % 2 ^ 64
  unfolding attempt_batch
  attempt_batch-stored k c rs s t h =
      let (opened, begun, rest) =
        bind-some (client.tx s) (λ o. put_records client rs o >>= client.commit) t h in
      let (done, put, committed) = bind-some (put_records client rs opened) client.commit t rest in
      rw (client.commit_rows done t committed, ← client.tx_rows s opened begun)
        (put_records-stored k c rs opened done put)

  process_batch-stored :
      (k : Period) (c : Counter) (rs : List UsageRecord) (s : S)
      → (process_batch client rs s).1 ≡ true
      → stored k c (process_batch client rs s).0 % 2 ^ 64
        ≡ (stored k c s + sum_by (counted_in k c) rs) % 2 ^ 64
  unfolding process_batch
  process_batch-stored k c rs s = go (attempt_batch client rs s) refl
    where
      go :
          (o : Option S)
          → attempt_batch client rs s ≡ o
          → (or_rolled_back s o).1 ≡ true
          → stored k c (or_rolled_back s o).0 % 2 ^ 64
            ≡ (stored k c s + sum_by (counted_in k c) rs) % 2 ^ 64
      go none e h = cc
      go (some t) e h = attempt_batch-stored k c rs s t e

  unless_failed-stored :
      (k : Period) (c : Counter) (next : S → S × Bool) (done : S × Bool) (n m : ℕ)
      → (done.1 ≡ true → stored k c done.0 % 2 ^ 64 ≡ n % 2 ^ 64)
      → ((s : S) → (next s).1 ≡ true → stored k c (next s).0 % 2 ^ 64 ≡ (stored k c s + m) % 2 ^ 64)
      → (unless_failed next done).1 ≡ true
      → stored k c (unless_failed next done).0 % 2 ^ 64 ≡ (n + m) % 2 ^ 64
  unless_failed-stored k c next (s, true) n m f g h = omega (arith, f refl, g s h)
  unless_failed-stored k c next (s, false) n m f g h = cc

  process_batches-stored :
      (k : Period) (c : Counter) (fuel : ℕ) (rs : List UsageRecord) (s : S)
      → (process_batches client fuel rs s).1 ≡ true
      → stored k c (process_batches client fuel rs s).0 % 2 ^ 64
        ≡ (stored k c s + sum_by (counted_in k c) rs) % 2 ^ 64
  unfolding process_batches
  process_batches-stored k c fuel [] s h = omega arith
  process_batches-stored k c zero (r ∷ rs) s h = cc
  process_batches-stored k c (suc fuel) (r ∷ rs) s h =
      let batch = take batch_size (r ∷ rs) in
      let later = drop batch_size (r ∷ rs) in
      omega (
        arith,
        sum_by-take-drop (counted_in k c) batch_size (r ∷ rs),
        unless_failed-stored k c (process_batches client fuel later) (process_batch client batch s)
            (stored k c s + sum_by (counted_in k c) batch) (sum_by (counted_in k c) later)
            (process_batch-stored k c batch s) (process_batches-stored k c fuel later) h,
      )

  flush_taken-stored :
      (k : Period) (c : Counter) (now : ℕ) (rs : List UsageRecord) (s : UsageService) (store : S)
      → (flush_taken client now rs s store).2 ≡ true
      → stored k c (flush_taken client now rs s store).1 % 2 ^ 64
        ≡ (stored k c store + sum_by (counted_in k c) rs) % 2 ^ 64
  unfolding flush_taken
  flush_taken-stored k c now [] s store h = omega arith
  flush_taken-stored k c now (r ∷ rs) s store h =
      process_batches-stored k c (length (r ∷ rs)) (r ∷ rs) store h

  pub flush_taken-records :
      (now : ℕ) (rs : List UsageRecord) (s : UsageService) (store : S)
      → (flush_taken client now rs s store).0.records ≡ s.records
  unfolding flush_taken
  flush_taken-records now [] s store = refl
  flush_taken-records now (r ∷ rs) s store = refl

  -- A flush that succeeds adds to each counter of the usage table, for every user, tunnel, domain
  -- and day, what the records in memory held for them, modulo 2 ^ 64, and leaves no record in
  -- memory.
  pub flush_to_db-stored :
      (k : Period) (c : Counter) (now : ℕ) (s : UsageService) (store : S)
      → (flush_to_db client now s store).2 ≡ true
      → (stored k c (flush_to_db client now s store).1 % 2 ^ 64
          ≡ (stored k c store + total (counted_in k c) s.records) % 2 ^ 64)
        × ((flush_to_db client now s store).0.records ≡ [])
  unfolding flush_to_db snapshot_and_reset
  flush_to_db-stored k c now s store h =
      let rs = map (λ e. e.1) s.records in
      let left : UsageService = record s { records = [] } in
      (
        omega (
          arith,
          sum_by-map (counted_in k c) s.records,
          flush_taken-stored k c now rs left store h,
        ),
        flush_taken-records now rs left store,
      )
