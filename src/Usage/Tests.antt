-- ===== src/Usage/Tests.antt =====
-- Runs of internal/service/usage_service.go and quota_service.go on concrete inputs, with a client
-- that keeps the usage table in memory.
use mathlib.Core.Option.{some-injective}
use giraffecloud.Base.{
  inl, inr, Bool-cases, ℕ, select, ◌+◌, ◌*◌, ◌%◌, ◌^◌, ◌≤◌, Bool, true, false, Option, none, some,
  List, [], ◌∷◌, codes, bytes_beq, nat_eq, bytes_eq, ◌≡◌, ◌↔◌, refl, sym, arith, if◌then◌else◌,
}
use giraffecloud.Base.Map.{lookup, insert, total}
use giraffecloud.Text.Decimal.{fmt_uint32, fill}
use giraffecloud.Usage.Service.{
  Day, UsageRecord, UsageService, Traffic, key, format_day, new_usage_service, traffic_key,
  fresh_record, record_for, add_traffic, add_to, should_flush, increment, snapshot_and_reset,
}
use giraffecloud.Usage.Flush.{
  UsageClient, day_beq, same_period, add_record, put_record, put_records, attempt_batch,
  process_batch, process_batches, flush_taken, flush_to_db,
}
use giraffecloud.Usage.Keys.{key-injective}
use giraffecloud.Usage.Counters.{bytes_in, counted, run, sum_for, run-counted}
use giraffecloud.Usage.Conservation.{Period, counted_in, stored, flush_to_db-stored}
use giraffecloud.Usage.Failures.{IsUp, flush_to_db-lost, flush_to_db-IsUp}
use giraffecloud.Usage.Quota.{
  block, QuotaService, QuotaWorld, ltb64, not_before, this_month, plan_limit, used_from, decide,
  delete_before, remember, conclude, young, answer, check_user,
}
use giraffecloud.Usage.Quota.Decisions.{month_total, check_user-block}

-- Names what the tests compute.
unfoldable all_opened : Bool
unfolding lookup insert total fmt_uint32 fill key format_day new_usage_service traffic_key
    fresh_record record_for add_traffic add_to should_flush increment snapshot_and_reset day_beq
    same_period add_record put_record put_records attempt_batch process_batch process_batches
    flush_taken flush_to_db run sum_for not_before this_month plan_limit used_from decide
    delete_before remember conclude young answer check_user month_total bytes_beq
all_opened = true

-- A table in memory.
abbrev Memory : Type 0
Memory = List (ℕ × UsageRecord)

abbrev past : List (ℕ × UsageRecord) → ℕ
past [] = 1
past ((id, _) ∷ m) = id + past m

past-positive : (m : List (ℕ × UsageRecord)) → 1 ≤ past m
past-positive [] = omega arith
past-positive ((j, r) ∷ m) = omega (arith, past-positive m)

past-fresh : (id : ℕ) (m : List (ℕ × UsageRecord)) → past m ≤ id → lookup id m ≡ none
unfolding lookup
past-fresh id [] h = refl
past-fresh id ((j, r) ∷ m) h = ground (arith, h, past-fresh id m, past-positive m)

abbrev find_id : (UsageRecord → Bool) → List (ℕ × UsageRecord) → Option ℕ
find_id p [] = none
find_id p ((id, r) ∷ m) = if p r then some id else find_id p m

-- The row at an id, if the predicate holds of it.
abbrev with_id : (UsageRecord → Bool) → ℕ → Option UsageRecord → Option (ℕ × UsageRecord)
with_id p id none = none
with_id p id (some r) = if p r then some (id, r) else none

abbrev row_of : (UsageRecord → Bool) → List (ℕ × UsageRecord) → Option ℕ → Option (ℕ × UsageRecord)
row_of p m none = none
row_of p m (some id) = with_id p id (lookup id m)

with_id-row :
    (p : UsageRecord → Bool) (m : List (ℕ × UsageRecord)) (i : ℕ) (o : Option UsageRecord) (id : ℕ)
    (r : UsageRecord)
    → lookup i m ≡ o
    → with_id p i o ≡ some (id, r)
    → (lookup id m ≡ some r) × (p r ≡ true)
with_id-row p m i none id r e h = cc
with_id-row p m i (some q) id r e h = elim (Bool-cases (p q)) [
  | inl yes_so ↦
      let same : some (i, q) ≡ some (id, r) = rw yes_so at h in (cc (e, same), cc (yes_so, same))
  | inr not_so ↦ let absent : none ≡ some (id, r) = rw not_so at h in cc absent
]

row_of-row :
    (p : UsageRecord → Bool) (m : List (ℕ × UsageRecord)) (o : Option ℕ) (id : ℕ) (r : UsageRecord)
    → row_of p m o ≡ some (id, r)
    → (lookup id m ≡ some r) × (p r ≡ true)
row_of-row p m none id r h = cc
row_of-row p m (some i) id r h = with_id-row p m i (lookup i m) id r refl h

-- The client opens transactions or does not.
abbrev open_tx : Bool → Memory → Option Memory
open_tx true m = some m
open_tx false m = none

open_tx-rows : (up : Bool) (m t : Memory) → open_tx up m ≡ some t → t ≡ m
open_tx-rows true m t h = sym (some-injective _ _ h)
open_tx-rows false m t h = cc

abbrev in_memory : Bool → UsageClient Memory
in_memory up = record {
  rows = λ m. m;
  tx = open_tx up;
  only = λ p m. row_of p m (find_id p m);
  update_one = λ id r m. some (insert id r m);
  create = λ r m. some (insert (past m) r m);
  commit = λ m. some m;
  tx_rows = open_tx-rows up;
  only_row = λ p m id r h. row_of-row p m (find_id p m) id r h;
  update_rows = λ id r m t h. sym (some-injective _ _ h);
  create_rows =
      λ r m t h. (past m, past-fresh (past m) m (omega arith), sym (some-injective _ _ h));
  commit_rows = λ m t h. sym (some-injective _ _ h);
}

in_memory-IsUp : IsUp (in_memory true)
in_memory-IsUp = record {
  opens = λ m. (m, refl);
  updates = λ id r m. (insert id r m, refl);
  creates = λ r m. (insert (past m) r m, refl);
  commits = λ m. (m, refl);
}

abbrev today : Day
today = record { year = 2025; month = 11; day = 26 }

abbrev request : ℕ → ℕ → Traffic
request user size = record {
  today = today;
  now = 5;
  user_id = user;
  tunnel_id = 7;
  domain = codes "shop.example";
  bytes_in = size;
  bytes_out = 2 * size;
  requests = 1;
}

abbrev traffic : List Traffic
traffic = request 3 100 ∷ request 4 10 ∷ request 3 50 ∷ []

abbrev service : UsageService
service = (increment (request 3 100) (new_usage_service true 0)).0

format_today : traffic_key (request 3 100) ≡ codes "2025-11-26:3:7"
unfolding all_opened
format_today = refl

counted_twice :
    counted bytes_in (codes "2025-11-26:3:7") (run traffic (new_usage_service true 0)).records ≡ 150
unfolding all_opened
counted_twice = refl

flushed_total :
    (flush_to_db (in_memory true) 9 (run traffic (new_usage_service true 0)) []).2 ≡ true
unfolding all_opened
flushed_total = refl

abbrev buyer : ℕ
buyer = 3

abbrev line : ℕ
line = 7

key-injective_example : (today ≡ today) × (buyer ≡ buyer) × (line ≡ line)
unfolding key
key-injective_example =
    key-injective today today buyer buyer line line
      ((omega arith, omega arith, omega arith), (omega arith, omega arith, omega arith))
      (omega arith, omega arith, omega arith, omega arith) refl

run-counted_example :
    counted bytes_in (codes "2025-11-26:3:7") (run traffic service).records % 2 ^ 64
    ≡ (counted bytes_in (codes "2025-11-26:3:7") service.records
        + sum_for bytes_in (codes "2025-11-26:3:7") traffic)
      % 2 ^ 64
run-counted_example = run-counted bytes_in (codes "2025-11-26:3:7") traffic service

-- The traffic of one user, tunnel, domain and day.
abbrev november_26 : Period
november_26 = record { user = 3; tunnel = 7; domain = codes "shop.example"; day = today }

flush_to_db-stored_example :
    (stored (in_memory true) november_26 bytes_in (flush_to_db (in_memory true) 9 service []).1
        % 2 ^ 64
      ≡ (stored (in_memory true) november_26 bytes_in []
          + total (counted_in november_26 bytes_in) service.records)
        % 2 ^ 64)
    × ((flush_to_db (in_memory true) 9 service []).0.records ≡ [])
unfolding all_opened
flush_to_db-stored_example =
    flush_to_db-stored (in_memory true) november_26 bytes_in 9 service [] refl

flush_to_db-lost_example :
    ((flush_to_db (in_memory false) 9 service []).0.records ≡ [])
    × ((flush_to_db (in_memory false) 9 service []).1 ≡ [])
    × ((flush_to_db (in_memory false) 9 service []).2 ≡ false)
unfolding all_opened
flush_to_db-lost_example = flush_to_db-lost (in_memory false) 9 service [] (λ e. cc) refl

flush_to_db-IsUp_example : (flush_to_db (in_memory true) 9 service []).2 ≡ true
flush_to_db-IsUp_example = flush_to_db-IsUp (in_memory true) in_memory-IsUp 9 service []

-- A user of no plan whose records of the month reach the default limit of 300 bytes.
abbrev recorded : List UsageRecord
recorded = add_traffic (request 3 100) (fresh_record (request 3 100)) ∷ []

abbrev world : QuotaWorld
world = record {
  only_user = λ id. some (record { plan_name = none });
  only_active_plan = λ name. none;
  usage = recorded;
  all_usage = λ p. some (select p recorded);
  reaches_threshold = λ used limit. true;
  all_usage_rows = λ p rs h. sym (some-injective _ _ h);
}

abbrev quotas : QuotaService
quotas = record { default_limit = 300; cache = [] }

check_user-block_example : ((check_user world today 5 3 quotas).1.decision ≡ block) ↔ (
    ltb64 (month_total (select (this_month today 3) recorded) % 2 ^ 64) (plan_limit world quotas 3)
    ≡ false)
unfolding all_opened
check_user-block_example =
    check_user-block world today 5 3 quotas (select (this_month today 3) recorded) refl refl refl

blocked : (check_user world today 5 3 quotas).1.decision ≡ block
unfolding all_opened
blocked = refl
