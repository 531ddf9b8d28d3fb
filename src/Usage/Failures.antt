-- ===== src/Usage/Failures.antt =====
-- When a flush fails and when it does not (FlushToDB of internal/service/usage_service.go).
use giraffecloud.Base.{
  ℕ, zero, suc, ◌≤◌, true, false, Option, some, none, List, [], ◌∷◌, map, Bytes, nat_eq, bytes_eq,
  ◌≡◌, ◌≢◌, refl, ap, ◌∙◌, arith, length, take, drop, length-drop,
}
use giraffecloud.Usage.Service.{UsageRecord, UsageService, batch_size, snapshot_and_reset}
use giraffecloud.Usage.Flush.{
  UsageClient, ◌>>=◌, or_rolled_back, unless_failed, same_period, add_record, put_record,
  put_records, attempt_batch, process_batch, process_batches, flush_taken, flush_to_db,
}
use giraffecloud.Usage.Conservation.{flush_taken-records}

module _ {S : Type 0} (client : UsageClient S) where
  -- A transaction that cannot be opened.
  module _ (s : S) (shut : client.tx s ≡ none) where
    process_batch-shut : (rs : List UsageRecord) → process_batch client rs s ≡ (s, false)
    unfolding process_batch attempt_batch
    process_batch-shut rs =
        ap (λ o. or_rolled_back s (o >>= λ t. put_records client rs t >>= client.commit)) shut

    process_batches-shut :
        (fuel : ℕ) (r : UsageRecord) (rs : List UsageRecord)
        → process_batches client (suc fuel) (r ∷ rs) s ≡ (s, false)
    unfolding process_batches
    process_batches-shut fuel r rs =
        ap (unless_failed (process_batches client fuel (drop batch_size (r ∷ rs))))
          (process_batch-shut (take batch_size (r ∷ rs)))

    flush_taken-shut :
        (now : ℕ) (m : List (Bytes × UsageRecord)) (service : UsageService)
        → m ≢ []
        → ((flush_taken client now (map (λ e. e.1) m) service s).1 ≡ s)
          × ((flush_taken client now (map (λ e. e.1) m) service s).2 ≡ false)
    unfolding flush_taken
    flush_taken-shut now [] service full = absurd (full refl)
    flush_taken-shut now ((k, r) ∷ m) service full =
        let lost = process_batches-shut (length (map (λ e. e.1) m)) r (map (λ e. e.1) m) in
        (ap (λ x. x.0) lost, ap (λ x. x.1) lost)

  -- A flush of a service with records, whose transaction cannot be opened, fails: the store stays
  -- as it was, and the records are gone from the service.
  pub flush_to_db-lost :
      (now : ℕ) (s : UsageService) (store : S)
      → s.records ≢ []
      → client.tx store ≡ none
      → ((flush_to_db client now s store).0.records ≡ [])
        × ((flush_to_db client now s store).1 ≡ store)
        × ((flush_to_db client now s store).2 ≡ false)
  unfolding flush_to_db snapshot_and_reset
  flush_to_db-lost now s store full shut =
      let left : UsageService = record s { records = [] } in
      let lost = flush_taken-shut store shut now s.records left full in
      (flush_taken-records client now (map (λ e. e.1) s.records) left store, lost.0, lost.1)

  -- No call of the client fails.
  pub record IsUp : Type 0 where
    pub opens : (s : S) → (t : S) × (client.tx s ≡ some t)
    pub updates : (id : ℕ) (r : UsageRecord) (s : S) → (t : S) × (client.update_one id r s ≡ some t)
    pub creates : (r : UsageRecord) (s : S) → (t : S) × (client.create r s ≡ some t)
    pub commits : (s : S) → (t : S) × (client.commit s ≡ some t)

  module _ (up : IsUp) where
    put_record-IsUp : (r : UsageRecord) (s : S) → (t : S) × (put_record client r s ≡ some t)
    unfolding put_record
    put_record-IsUp r s = go (client.only (same_period r) s)
      where
        go :
            (o : Option (ℕ × UsageRecord))
            → (t : S) × (elim o as (λ _. Option S) [
              | some (id, existing) ↦ client.update_one id (add_record r existing) s
              | none ↦ client.create r s
            ]
                ≡ some t)
        go (some (id, existing)) = up.updates id (add_record r existing) s
        go none = up.creates r s

    put_records-IsUp :
        (rs : List UsageRecord) (s : S) → (t : S) × (put_records client rs s ≡ some t)
    unfolding put_records
    put_records-IsUp [] s = (s, refl)
    put_records-IsUp (r ∷ rs) s =
        let (u, e) = put_record-IsUp r s in
        let (t, k) = put_records-IsUp rs u in (t, ap (λ o. o >>= put_records client rs) e ∙ k)

    process_batch-IsUp :
        (rs : List UsageRecord) (s : S) → (t : S) × (process_batch client rs s ≡ (t, true))
    unfolding process_batch attempt_batch
    process_batch-IsUp rs s =
        let (opened, e) = up.opens s in
        let (done, k) = put_records-IsUp rs opened in
        let (t, h) = up.commits done in
        (
          t,
          ap (or_rolled_back s) (
              ap (λ o. o >>= λ u. put_records client rs u >>= client.commit) e
              ∙ ap (λ o. o >>= client.commit) k
              ∙ h),
        )

    process_batches-IsUp :
        (fuel : ℕ) (rs : List UsageRecord) (s : S)
        → length rs ≤ fuel
        → (process_batches client fuel rs s).1 ≡ true
    unfolding process_batches
    process_batches-IsUp fuel [] s h = refl
    process_batches-IsUp zero (r ∷ rs) s h = absurd (omega (arith, h))
    process_batches-IsUp (suc fuel) (r ∷ rs) s h =
        let later = drop batch_size (r ∷ rs) in
        let (t, e) = process_batch-IsUp (take batch_size (r ∷ rs)) s in
        ap (λ done. (unless_failed (process_batches client fuel later) done).1) e
        ∙ process_batches-IsUp fuel later t (omega (arith, h, length-drop batch_size (r ∷ rs)))

    flush_taken-IsUp :
        (now : ℕ) (rs : List UsageRecord) (s : UsageService) (store : S)
        → (flush_taken client now rs s store).2 ≡ true
    unfolding flush_taken
    flush_taken-IsUp now [] s store = refl
    flush_taken-IsUp now (r ∷ rs) s store =
        process_batches-IsUp (length (r ∷ rs)) (r ∷ rs) store (omega arith)

    -- A flush succeeds, whatever the count of records, if no call of the client fails.
    pub flush_to_db-IsUp :
        (now : ℕ) (s : UsageService) (store : S) → (flush_to_db client now s store).2 ≡ true
    unfolding flush_to_db snapshot_and_reset
    flush_to_db-IsUp now s store =
        flush_taken-IsUp now (map (λ e. e.1) s.records) (record s { records = [] }) store
