-- ===== src/Usage/Quota/Decisions.antt =====
-- What CheckUser of internal/service/quota_service.go decides.
use giraffecloud.Base.{
  ℕ, ◌+◌, ◌-◌, ◌%◌, ◌^◌, ◌<◌, ◌≤◌, true, false, Option, none, some, List, [], ◌∷◌, nat_eq, ltb,
  length, select, if◌then◌else◌, ◌≡◌, refl, ap, ◌∙◌, ◌↔◌, arith, Bool-cases, inl, inr, beq_refl,
}
use giraffecloud.Base.Map.{lookup, insert, lookup-insert}
use giraffecloud.Usage.Service.{Day, UsageRecord, add64}
use giraffecloud.Usage.Quota.{
  allow, block, QuotaResult, QuotaCacheEntry, QuotaService, QuotaWorld, ltb64, plan_limit,
  this_month, used_from, decide, seconds, delete_before, remember, conclude, young, answer,
  check_user,
}

lookup-delete_before :
    (now k : ℕ) (m : List (ℕ × QuotaCacheEntry)) (entry : QuotaCacheEntry)
    → lookup k m ≡ some entry
    → now ≤ entry.at
    → lookup k (delete_before now m) ≡ some entry
unfolding lookup delete_before
lookup-delete_before now k [] entry found h = cc
lookup-delete_before now k ((user, first) ∷ m) entry found h =
    ground (arith, found, h, lookup-delete_before now k m entry)

lookup-remember :
    (now user_id : ℕ) (res : QuotaResult) (cache : List (ℕ × QuotaCacheEntry))
    → lookup user_id (remember now user_id res cache) ≡ some (record { result = res; at = now })
unfolding remember
lookup-remember now user_id res cache =
    let entry : QuotaCacheEntry = record { result = res; at = now } in
    let larger = insert user_id entry cache in
    let kept : lookup user_id larger ≡ some entry =
      lookup-insert user_id user_id entry cache ∙ rw (beq_refl user_id) refl in
    elim (Bool-cases (ltb 10000 (length larger))) [
      | inl e ↦ rw e (lookup-delete_before now user_id larger entry kept (omega arith))
      | inr e ↦ rw e kept
    ]

-- The bytes in and out of the user's records of the month, without wrapping.
unfoldable pub month_total : List UsageRecord → ℕ
month_total [] = 0
month_total (r ∷ rs) = r.bytes_in + r.bytes_out + month_total rs

used_from-month_total :
    (used : ℕ) (rs : List UsageRecord)
    → used_from used rs % 2 ^ 64 ≡ (used + month_total rs) % 2 ^ 64
unfolding used_from month_total
used_from-month_total used [] = omega arith
used_from-month_total used (r ∷ rs) =
    omega (arith, used_from-month_total (add64 used (add64 r.bytes_in r.bytes_out)) rs)

used_from-lt : (used : ℕ) (rs : List UsageRecord) → used < 2 ^ 64 → used_from used rs < 2 ^ 64
unfolding used_from
used_from-lt used [] h = h
used_from-lt used (r ∷ rs) h =
    used_from-lt (add64 used (add64 r.bytes_in r.bytes_out)) rs (omega arith)

check_user-answer :
    (w : QuotaWorld) (today : Day) (now user_id : ℕ) (s : QuotaService) (o : Option QuotaResult)
    → ltb64 0 s.default_limit ≡ true
    → young now (lookup user_id s.cache) ≡ o
    → check_user w today now user_id s ≡ answer w today now user_id s o
unfolding check_user
check_user-answer w today now user_id s o limited e =
    ap
      (λ b.
        if b
        then answer w today now user_id s (young now (lookup user_id s.cache))
        else (s, record { decision = allow; used_bytes = 0; limit_bytes = 0 }))
      limited
    ∙ ap (answer w today now user_id s) e

-- The result blocks exactly when the used bytes reach the limit.
decide-block :
    (w : QuotaWorld) (used limit : ℕ) → (decide w used limit ≡ block) ↔ (ltb64 used limit ≡ false)
unfolding decide
decide-block w used limit = (λ h. ground (arith, h), λ h. ground (arith, h))

-- The hypotheses of a check that asks the database.
module _ (w : QuotaWorld) (today : Day) (now user_id : ℕ) (s : QuotaService)
    (rows : List UsageRecord) (limited : ltb64 0 s.default_limit ≡ true)
    (miss : young now (lookup user_id s.cache) ≡ none)
    (read : w.all_usage (this_month today user_id) ≡ some rows) where
  checked : QuotaResult
  checked = record {
    decision = decide w (used_from 0 rows) (plan_limit w s user_id);
    used_bytes = used_from 0 rows;
    limit_bytes = plan_limit w s user_id;
  }

  check_user-checked :
      check_user w today now user_id s
      ≡ (record s { cache = remember now user_id checked s.cache }, checked)
  unfolding answer conclude checked
  check_user-checked =
      check_user-answer w today now user_id s none limited miss ∙ ap (conclude w now user_id s) read

  used_word : used_from 0 rows ≡ month_total (select (this_month today user_id) w.usage) % 2 ^ 64
  used_word =
      rw (← w.all_usage_rows (this_month today user_id) rows read)
        (omega (arith, used_from-lt 0 rows (omega arith), used_from-month_total 0 rows))

  -- A check that asks the database blocks the user exactly when the bytes of the user's usage rows
  -- of the month, added up as signed 64-bit numbers, reach the limit of the user's plan.
  pub check_user-block : ((check_user w today now user_id s).1.decision ≡ block) ↔ (
      ltb64
        (month_total (select (this_month today user_id) w.usage) % 2 ^ 64)
        (plan_limit w s user_id)
      ≡ false)
  unfolding checked
  check_user-block =
      rw (check_user-checked, ← used_word)
        (decide-block w (used_from 0 rows) (plan_limit w s user_id))

  -- A second check within thirty seconds gives the first's result, whatever the database holds.
  pub check_user-again :
      (v : QuotaWorld) (day : Day) (later : ℕ)
      → later - now < seconds 30
      → check_user v day later user_id (check_user w today now user_id s).0
        ≡ check_user w today now user_id s
  unfolding answer young
  check_user-again v day later h = rw check_user-checked (
      check_user-answer v day later user_id
        (record s { cache = remember now user_id checked s.cache }) (some checked) limited
        (ap (young later) (lookup-remember now user_id checked s.cache) ∙ ground (arith, h)))
