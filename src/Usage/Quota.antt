-- ===== src/Usage/Quota.antt =====
-- The monthly quota: internal/service/quota_service.go. The database is a parameter, and so is the
-- comparison of floating-point numbers that decides on a warning.
pub mod Decisions
use giraffecloud.Base.{
  ℕ, ◌+◌, ◌-◌, ◌*◌, ◌%◌, ◌^◌, Bool, true, false, not, ◌&&◌, ◌||◌, Option, none, some, List, [], ◌∷◌,
  Bytes, ◌==◌, nat_eq, bytes_eq, bytes_beq, ltb, leb, length, select, if◌then◌else◌, ◌≡◌,
}
use giraffecloud.Base.Map.{lookup, insert}
use giraffecloud.Usage.Service.{Day, UsageRecord, add64}

pub data QuotaDecision : Type 0 where
  allow warn block : QuotaDecision

pub record QuotaResult : Type 0 where
  pub decision : QuotaDecision
  pub used_bytes : ℕ
  pub limit_bytes : ℕ

pub record QuotaCacheEntry : Type 0 where
  pub result : QuotaResult
  pub at : ℕ

pub record QuotaService : Type 0 where
  pub default_limit : ℕ
  pub cache : List (ℕ × QuotaCacheEntry)

-- The order of signed 64-bit numbers on the words that stand for them.
abbrev pub ltb64 : ℕ → ℕ → Bool
ltb64 a b = ltb ((a + 2 ^ 63) % 2 ^ 64) ((b + 2 ^ 63) % 2 ^ 64)

-- PeriodStartGTE: whether the second day is not before the first.
unfoldable pub not_before : Day → Day → Bool
not_before start d =
    ltb start.year d.year
    || (start.year == d.year
        && (ltb start.month d.month || (start.month == d.month && leb start.day d.day)))

pub record User : Type 0 where
  pub plan_name : Option Bytes

-- The queries, none on an error, and the test `float64(used) >= float64(limit) * warnThresholdPct`.
pub record QuotaWorld : Type 0 where
  pub only_user : ℕ → Option User
  pub only_active_plan : Bytes → Option ℕ
  pub usage : List UsageRecord
  pub all_usage : (UsageRecord → Bool) → Option (List UsageRecord)
  pub reaches_threshold : ℕ → ℕ → Bool
  pub all_usage_rows :
      (p : UsageRecord → Bool) (rs : List UsageRecord) → all_usage p ≡ some rs → rs ≡ select p usage

-- The limit of the user's plan, or the default.
unfoldable pub plan_limit : QuotaWorld → QuotaService → ℕ → ℕ
plan_limit w s user_id = elim (w.only_user user_id) [
  | none ↦ s.default_limit
  | some u ↦ elim u.plan_name [
    | none ↦ s.default_limit
    | some name ↦
        if name == []
        then s.default_limit
        else elim (w.only_active_plan name) [ some limit ↦ limit | none ↦ s.default_limit ]
  ]
]

unfoldable pub this_month : Day → ℕ → UsageRecord → Bool
this_month today user_id r =
    not_before (record today { day = 1 }) r.period_start && r.user_id == user_id

unfoldable pub used_from : ℕ → List UsageRecord → ℕ
used_from used [] = used
used_from used (r ∷ rs) = used_from (add64 used (add64 r.bytes_in r.bytes_out)) rs

unfoldable pub decide : QuotaWorld → ℕ → ℕ → QuotaDecision
decide w used limit =
    if not (ltb64 used limit)
    then block
    else if w.reaches_threshold used limit && ltb64 used limit
    then warn
    else allow

abbrev pub seconds : ℕ → ℕ
seconds n = n * 1000000000

-- The loop that deletes what is older than five minutes.
unfoldable pub delete_before : ℕ → List (ℕ × QuotaCacheEntry) → List (ℕ × QuotaCacheEntry)
delete_before now [] = []
delete_before now ((user, entry) ∷ m) =
    let rest = delete_before now m in
    if ltb (entry.at + seconds 300) now then rest else (user, entry) ∷ rest

unfoldable pub remember :
    ℕ → ℕ → QuotaResult → List (ℕ × QuotaCacheEntry) → List (ℕ × QuotaCacheEntry)
remember now user_id res cache =
    let larger = insert user_id (record { result = res; at = now }) cache in
    if ltb 10000 (length larger) then delete_before now larger else larger

-- The end of CheckUser, from what the query of the usage rows gave.
unfoldable pub conclude :
    QuotaWorld → ℕ → ℕ → QuotaService → Option (List UsageRecord) → QuotaService × QuotaResult
conclude w now user_id s none =
    (s, record { decision = allow; used_bytes = 0; limit_bytes = plan_limit w s user_id })
conclude w now user_id s (some rows) =
    let used = used_from 0 rows in
    let limit = plan_limit w s user_id in
    let res : QuotaResult = record {
      decision = decide w used limit;
      used_bytes = used;
      limit_bytes = limit;
    } in
    (record s { cache = remember now user_id res s.cache }, res)

-- The entry, if it is younger than thirty seconds.
unfoldable pub young : ℕ → Option QuotaCacheEntry → Option QuotaResult
young now none = none
young now (some entry) = if ltb (now - entry.at) (seconds 30) then some entry.result else none

-- CheckUser after it looked into the cache.
unfoldable pub answer :
    QuotaWorld → Day → ℕ → ℕ → QuotaService → Option QuotaResult → QuotaService × QuotaResult
answer w today now user_id s (some res) = (s, res)
answer w today now user_id s none =
    conclude w now user_id s (w.all_usage (this_month today user_id))

-- CheckUser on a day at a time.
unfoldable pub check_user : QuotaWorld → Day → ℕ → ℕ → QuotaService → QuotaService × QuotaResult
check_user w today now user_id s =
    if ltb64 0 s.default_limit
    then answer w today now user_id s (young now (lookup user_id s.cache))
    else (s, record { decision = allow; used_bytes = 0; limit_bytes = 0 })
