-- ===== src/Usage/Flush.antt =====
-- Flushing to the database: FlushToDB, processBatch and the background task of
-- internal/service/usage_service.go. The ent client is a parameter.
use giraffecloud.Base.{
  ℕ, zero, suc, Bool, true, false, ◌&&◌, Option, none, some, List, [], ◌∷◌, ◌==◌, nat_eq, bytes_eq,
  take, drop, length, if◌then◌else◌, ◌≡◌,
}
use giraffecloud.Base.Map.{lookup, insert}
use giraffecloud.Usage.Service.{
  Day, UsageRecord, UsageService, add64, batch_size, snapshot_and_reset, should_flush,
}

unfoldable pub day_beq : Day → Day → Bool
day_beq a b = a.year == b.year && a.month == b.month && a.day == b.day

-- The usage table of a store: its rows by id. Each call may fail; the laws say what a call does
-- that does not. A transaction sees the rows as they were, and its rows become the table's at the
-- commit; a store that is not committed is rolled back.
pub record UsageClient (S : Type 0) : Type 0 where
  pub rows : S → List (ℕ × UsageRecord)
  pub tx : S → Option S
  pub only : (UsageRecord → Bool) → S → Option (ℕ × UsageRecord)
  pub update_one : ℕ → UsageRecord → S → Option S
  pub create : UsageRecord → S → Option S
  pub commit : S → Option S
  pub tx_rows : (s t : S) → tx s ≡ some t → rows t ≡ rows s
  pub only_row :
      (p : UsageRecord → Bool) (s : S) (id : ℕ) (r : UsageRecord)
      → only p s ≡ some (id, r)
      → (lookup id (rows s) ≡ some r) × (p r ≡ true)
  pub update_rows :
      (id : ℕ) (r : UsageRecord) (s t : S)
      → update_one id r s ≡ some t
      → rows t ≡ insert id r (rows s)
  pub create_rows :
      (r : UsageRecord) (s t : S)
      → create r s ≡ some t
      → (id : ℕ) × (lookup id (rows s) ≡ none) × (rows t ≡ insert id r (rows s))
  pub commit_rows : (s t : S) → commit s ≡ some t → rows t ≡ rows s

-- The predicates of the query.
unfoldable pub same_period : UsageRecord → UsageRecord → Bool
same_period r row =
    day_beq row.period_start r.period_start
    && row.user_id == r.user_id
    && row.tunnel_id == r.tunnel_id
    && row.domain == r.domain

-- The row with the counters set.
unfoldable pub add_record : UsageRecord → UsageRecord → UsageRecord
add_record r existing = record existing {
  bytes_in = add64 existing.bytes_in r.bytes_in;
  bytes_out = add64 existing.bytes_out r.bytes_out;
  requests = add64 existing.requests r.requests;
}

infixl 5 ◌>>=◌
abbrev pub ◌>>=◌ {ℓ κ} : {A : Type ℓ} {B : Type κ} → Option A → (A → Option B) → Option B
none >>= next = none
some found >>= next = next found

-- The store after a transaction, and whether it was committed.
abbrev pub or_rolled_back {ℓ} : {S : Type ℓ} → S → Option S → S × Bool
or_rolled_back s (some t) = (t, true)
or_rolled_back s none = (s, false)

-- Goes on with the store, unless the batch before failed.
abbrev pub unless_failed {ℓ} : {S : Type ℓ} → (S → S × Bool) → S × Bool → S × Bool
unless_failed next (s, true) = next s
unless_failed next (s, false) = (s, false)

module _ {S : Type 0} (client : UsageClient S) where
  -- One turn of the loop of processBatch.
  unfoldable pub put_record : UsageRecord → S → Option S
  put_record r s = elim (client.only (same_period r) s) [
    | some (id, existing) ↦ client.update_one id (add_record r existing) s
    | none ↦ client.create r s
  ]

  unfoldable pub put_records : List UsageRecord → S → Option S
  put_records [] s = some s
  put_records (r ∷ rs) s = put_record r s >>= put_records rs

  -- processBatch, none if a call fails and the transaction is rolled back.
  unfoldable pub attempt_batch : List UsageRecord → S → Option S
  attempt_batch rs s = do opened ← client.tx s; done ← put_records rs opened; client.commit done

  -- The store after processBatch, and whether it succeeded.
  unfoldable pub process_batch : List UsageRecord → S → S × Bool
  process_batch rs s = or_rolled_back s (attempt_batch rs s)

  -- The loop of FlushToDB over the batches; a turn takes at least one record, so that the count
  -- of the records is fuel enough.
  unfoldable pub process_batches : ℕ → List UsageRecord → S → S × Bool
  process_batches fuel [] s = (s, true)
  process_batches zero (r ∷ rs) s = (s, false)
  process_batches (suc fuel) (r ∷ rs) s =
      unless_failed (process_batches fuel (drop batch_size (r ∷ rs)))
        (process_batch (take batch_size (r ∷ rs)) s)

  -- FlushToDB at a time, after the snapshot: the service, the store, and whether it succeeded.
  unfoldable pub flush_taken : ℕ → List UsageRecord → UsageService → S → UsageService × S × Bool
  flush_taken now [] s store = (s, store, true)
  flush_taken now (r ∷ rs) s store =
      let done = process_batches (length (r ∷ rs)) (r ∷ rs) store in
      (record s { last_flush = now }, done.0, done.1)

  unfoldable pub flush_to_db : ℕ → UsageService → S → UsageService × S × Bool
  flush_to_db now s store =
      let taken = snapshot_and_reset s in flush_taken now taken.1 taken.0 store

  -- A flush by a background task, which only logs an error, if there is a database.
  unfoldable pub flushed : ℕ → UsageService → S → UsageService × S
  flushed now s store =
      let done = flush_to_db now s store in if s.has_db then (done.0, done.1) else (s, store)

  -- triggerBackgroundFlush.
  unfoldable pub trigger_background_flush : ℕ → UsageService → S → UsageService × S
  trigger_background_flush now s store =
      let done = flushed now s store in
      if should_flush now s then (record done.0 { last_flush = now }, done.1) else (s, store)

  -- A tick of the task that Start runs.
  unfoldable pub tick : ℕ → UsageService → S → UsageService × S
  tick now s store = flushed now s store

  -- Stop, after the task has ended: the final flush.
  unfoldable pub stop : ℕ → UsageService → S → UsageService × S × Bool
  stop now s store = if s.has_db then flush_to_db now s store else (s, store, true)
