-- ===== src/Usage/Service.antt =====
-- The counters in memory: usageService of internal/service/usage_service.go.
use giraffecloud.Base.{
  ℕ, ◌+◌, ◌-◌, ◌/◌, ◌%◌, ◌^◌, Bool, ◌||◌, Option, none, some, List, [], ◌∷◌, ◌++◌, map, Bytes,
  nat_eq, bytes_eq, ltb, length,
}
use giraffecloud.Base.Map.{lookup, insert}
use giraffecloud.Text.Decimal.{fmt_uint32}

-- A day of the calendar in UTC.
pub record Day : Type 0 where
  pub year : ℕ
  pub month : ℕ
  pub day : ℕ

-- One digit of a number, and the layout "2006-01-02" of a day before the year 10000.
abbrev pub digit : ℕ → ℕ
digit n = b'0' + n % 10

unfoldable pub format_day : Day → Bytes
format_day d =
    digit (d.year / 1000)
    ∷ digit (d.year / 100)
    ∷ digit (d.year / 10)
    ∷ digit d.year
    ∷ b'-'
    ∷ digit (d.month / 10)
    ∷ digit d.month
    ∷ b'-'
    ∷ digit (d.day / 10)
    ∷ digit d.day
    ∷ []

-- The sum of two signed 64-bit numbers, as the words that stand for them.
abbrev pub add64 : ℕ → ℕ → ℕ
add64 a b = (a + b) % 2 ^ 64

pub record UsageRecord : Type 0 where
  pub period_start : Day
  pub user_id : ℕ
  pub tunnel_id : ℕ
  pub domain : Bytes
  pub bytes_in : ℕ
  pub bytes_out : ℕ
  pub requests : ℕ

-- Of the database client, whether there is one; the client itself is a parameter of the flush.
pub record UsageService : Type 0 where
  pub records : List (Bytes × UsageRecord)
  pub last_flush : ℕ
  pub has_db : Bool

abbrev pub batch_size : ℕ
batch_size = 1000

-- Thirty seconds, in nanoseconds.
abbrev pub flush_interval : ℕ
flush_interval = 30000000000

unfoldable pub new_usage_service : Bool → ℕ → UsageService
new_usage_service has_db now = record { records = []; last_flush = now; has_db = has_db }

unfoldable pub key : Bytes → ℕ → ℕ → Bytes
key day user_id tunnel_id = day ++ (b':' ∷ (fmt_uint32 user_id ++ (b':' ∷ fmt_uint32 tunnel_id)))

-- A call of Increment, with the day and the time at which it is made.
pub record Traffic : Type 0 where
  pub today : Day
  pub now : ℕ
  pub user_id : ℕ
  pub tunnel_id : ℕ
  pub domain : Bytes
  pub bytes_in : ℕ
  pub bytes_out : ℕ
  pub requests : ℕ

unfoldable pub traffic_key : Traffic → Bytes
traffic_key t = key (format_day t.today) t.user_id t.tunnel_id

unfoldable pub fresh_record : Traffic → UsageRecord
fresh_record t = record {
  period_start = t.today;
  user_id = t.user_id;
  tunnel_id = t.tunnel_id;
  domain = t.domain;
  bytes_in = 0;
  bytes_out = 0;
  requests = 0;
}

unfoldable pub add_traffic : Traffic → UsageRecord → UsageRecord
add_traffic t rec = record rec {
  bytes_in = add64 rec.bytes_in t.bytes_in;
  bytes_out = add64 rec.bytes_out t.bytes_out;
  requests = add64 rec.requests t.requests;
}

-- The record that was found, a new one if there is none.
abbrev pub found_or_fresh : Traffic → Option UsageRecord → UsageRecord
found_or_fresh t (some rec) = rec
found_or_fresh t none = fresh_record t

unfoldable pub record_for : Traffic → List (Bytes × UsageRecord) → UsageRecord
record_for t records = found_or_fresh t (lookup (traffic_key t) records)

-- The map after a call.
unfoldable pub add_to : Traffic → List (Bytes × UsageRecord) → List (Bytes × UsageRecord)
add_to t records = insert (traffic_key t) (add_traffic t (record_for t records)) records

-- Whether there is a reason to flush.
unfoldable pub should_flush : ℕ → UsageService → Bool
should_flush now s = ltb batch_size (length s.records) || ltb flush_interval (now - s.last_flush)

-- Increment: the new state, and whether a flush in the background is started.
unfoldable pub increment : Traffic → UsageService → UsageService × Bool
increment t s =
    let next : UsageService = record s { records = add_to t s.records } in
    (next, should_flush t.now next)

-- SnapshotAndReset: the records in the order of the map's iteration.
unfoldable pub snapshot_and_reset : UsageService → UsageService × List UsageRecord
snapshot_and_reset s = (record s { records = [] }, map (λ e. e.1) s.records)
