-- ===== src/Usage/Counters.antt =====
-- What the counters in memory hold after calls of Increment (internal/service/usage_service.go).
use giraffecloud.Base.{
  ℕ, ◌+◌, ◌%◌, ◌^◌, true, false, Option, some, none, List, [], ◌∷◌, Bytes, ◌==◌, bytes_eq,
  bytes_beq_iff, ◌≡◌, refl, ap, ◌∙◌, if◌then◌else◌, arith, Bool-cases, inl, inr, ◌⊎◌,
}
use giraffecloud.Base.Map.{lookup, lookup-insert}
use giraffecloud.Usage.Service.{
  UsageRecord, UsageService, Traffic, traffic_key, fresh_record, found_or_fresh, record_for,
  add_traffic, add_to, add64, increment,
}

-- The three counters of a record.
pub data Counter : Type 0 where
  bytes_in bytes_out requests : Counter

abbrev pub read : Counter → UsageRecord → ℕ
read bytes_in r = r.bytes_in
read bytes_out r = r.bytes_out
read requests r = r.requests

abbrev pub brought : Counter → Traffic → ℕ
brought bytes_in t = t.bytes_in
brought bytes_out t = t.bytes_out
brought requests t = t.requests

-- What stands under a key, zero if there is no record.
abbrev pub read_found : Counter → Option UsageRecord → ℕ
read_found c (some r) = read c r
read_found c none = 0

abbrev pub counted : Counter → Bytes → List (Bytes × UsageRecord) → ℕ
counted c k records = read_found c (lookup k records)

-- The calls of Increment in a row.
unfoldable pub run : List Traffic → UsageService → UsageService
run [] s = s
run (t ∷ ts) s = run ts (increment t s).0

-- What calls with the key bring, added up.
unfoldable pub sum_for : Counter → Bytes → List Traffic → ℕ
sum_for c k [] = 0
sum_for c k (t ∷ ts) =
    let rest = sum_for c k ts in if traffic_key t == k then brought c t + rest else rest

read-add_traffic :
    (c : Counter) (t : Traffic) (r : UsageRecord)
    → read c (add_traffic t r) ≡ add64 (read c r) (brought c t)
unfolding add_traffic
read-add_traffic bytes_in t r = refl
read-add_traffic bytes_out t r = refl
read-add_traffic requests t r = refl

read-fresh_record : (c : Counter) (t : Traffic) → read c (fresh_record t) ≡ 0
unfolding fresh_record
read-fresh_record bytes_in t = refl
read-fresh_record bytes_out t = refl
read-fresh_record requests t = refl

read-found_or_fresh :
    (c : Counter) (t : Traffic) (o : Option UsageRecord)
    → read c (found_or_fresh t o) ≡ read_found c o
read-found_or_fresh c t (some r) = refl
read-found_or_fresh c t none = read-fresh_record c t

counted-add_to :
    (c : Counter) (k : Bytes) (t : Traffic) (m : List (Bytes × UsageRecord))
    → counted c k (add_to t m)
      ≡ (if traffic_key t == k then add64 (counted c k m) (brought c t) else counted c k m)
unfolding add_to record_for
counted-add_to c k t m =
    ap (read_found c) (lookup-insert (traffic_key t) k (add_traffic t (record_for t m)) m)
    ∙ decided (Bool-cases (traffic_key t == k))
  where
    decided :
        ((traffic_key t == k) ≡ true) ⊎ ((traffic_key t == k) ≡ false)
        → read_found c
            (if traffic_key t == k then some (add_traffic t (record_for t m)) else lookup k m)
          ≡ (if traffic_key t == k then add64 (counted c k m) (brought c t) else counted c k m)
    decided (inl e) = rw e (
        read-add_traffic c t (record_for t m)
        ∙ ap (λ n. add64 n (brought c t)) (read-found_or_fresh c t (lookup (traffic_key t) m))
        ∙ ap (λ j. add64 (counted c j m) (brought c t)) ((bytes_beq_iff (traffic_key t) k).0 e))
    decided (inr e) = rw e refl

-- After any calls of Increment, a key's counter is what stood there before and what the calls
-- with that key brought, modulo 2 ^ 64.
pub run-counted :
    (c : Counter) (k : Bytes) (ts : List Traffic) (s : UsageService)
    → counted c k (run ts s).records % 2 ^ 64 ≡ (counted c k s.records + sum_for c k ts) % 2 ^ 64
unfolding run sum_for increment
run-counted c k [] s = omega arith
run-counted c k (t ∷ ts) s =
    ground (arith, run-counted c k ts (increment t s).0, counted-add_to c k t s.records)
