-- ===== src/Usage/Keys.antt =====
-- The keys of the counters: key of internal/service/usage_service.go.
use mathlib.Core.Option.{some-injective}
use giraffecloud.Base.{
  ℕ, ◌/◌, ◌^◌, ◌<◌, true, [], ◌∷◌, ◌++◌, Bytes, nat_eq, ◌≡◌, refl, sym, ap, ◌∙◌, All, length, arith,
}
use giraffecloud.Text.Decimal.{is_digit, fmt_uint32, fmt_uint32-digits, atoi, atoi-fmt_uint32}
use giraffecloud.Usage.Service.{Day, digit, format_day, key}

head_eq : {a b : ℕ} {s t : Bytes} → a ∷ s ≡ b ∷ t → (a ≡ b) × (s ≡ t)
head_eq e = (cc, cc)

-- Digits before a colon can be told from what follows it.
split_at_colon :
    (x y s t : Bytes)
    → All (λ c. is_digit c ≡ true) x
    → All (λ c. is_digit c ≡ true) y
    → x ++ (b':' ∷ s) ≡ y ++ (b':' ∷ t)
    → (x ≡ y) × (s ≡ t)
split_at_colon [] [] s t f g e = (refl, (head_eq e).1)
split_at_colon [] (d ∷ y) s t f g e =
    let first : b':' ≡ d = (head_eq e).0 in absurd (ground (arith, first, g.0))
split_at_colon (c ∷ x) [] s t f g e =
    let first : c ≡ b':' = (head_eq e).0 in absurd (ground (arith, first, f.0))
split_at_colon (c ∷ x) (d ∷ y) s t f g e =
    let rest = split_at_colon x y s t f.1 g.1 (head_eq e).1 in
    let first : c ≡ d = (head_eq e).0 in (cc (first, rest.0), rest.1)

fmt_uint32-injective : (u v : ℕ) → u < 2 ^ 32 → v < 2 ^ 32 → fmt_uint32 u ≡ fmt_uint32 v → u ≡ v
fmt_uint32-injective u v h k e =
    some-injective _ _ (sym (atoi-fmt_uint32 u h) ∙ ap atoi e ∙ atoi-fmt_uint32 v k)

-- A day of a year before 10000.
abbrev pub IsDay : Day → Type 0
IsDay d = (d.year < 10000) × (d.month < 100) × (d.day < 100)

module _ (c d : Day) (e : format_day c ≡ format_day d) where
  year_eq : c.year < 10000 → d.year < 10000 → c.year ≡ d.year
  unfolding format_day
  year_eq h k =
      let d1 : digit (c.year / 1000) ≡ digit (d.year / 1000) = cc in
      let d2 : digit (c.year / 100) ≡ digit (d.year / 100) = cc in
      let d3 : digit (c.year / 10) ≡ digit (d.year / 10) = cc in
      let d4 : digit c.year ≡ digit d.year = cc in omega (arith, d1, d2, d3, d4, h, k)

  month_eq : c.month < 100 → d.month < 100 → c.month ≡ d.month
  unfolding format_day
  month_eq h k =
      let d1 : digit (c.month / 10) ≡ digit (d.month / 10) = cc in
      let d2 : digit c.month ≡ digit d.month = cc in omega (arith, d1, d2, h, k)

  date_eq : c.day < 100 → d.day < 100 → c.day ≡ d.day
  unfolding format_day
  date_eq h k =
      let d1 : digit (c.day / 10) ≡ digit (d.day / 10) = cc in
      let d2 : digit c.day ≡ digit d.day = cc in omega (arith, d1, d2, h, k)

same_length : (x y s t : Bytes) → length x ≡ length y → x ++ s ≡ y ++ t → (x ≡ y) × (s ≡ t)
same_length [] [] s t h e = (refl, e)
same_length [] (d ∷ y) s t h e = absurd (omega (arith, h))
same_length (c ∷ x) [] s t h e = absurd (omega (arith, h))
same_length (c ∷ x) (d ∷ y) s t h e =
    let rest = same_length x y s t (omega (arith, h)) (head_eq e).1 in
    let first : c ≡ d = (head_eq e).0 in (cc (first, rest.0), rest.1)

length-format_day : (c d : Day) → length (format_day c) ≡ length (format_day d)
unfolding format_day
length-format_day c d = refl

-- Two counters with the same key are those of the same day, user and tunnel, for years before
-- 10000 and 32-bit ids.
pub key-injective :
    (c d : Day) (u v t w : ℕ)
    → IsDay c × IsDay d
    → (u < 2 ^ 32) × (v < 2 ^ 32) × (t < 2 ^ 32) × (w < 2 ^ 32)
    → key (format_day c) u t ≡ key (format_day d) v w
    → (c ≡ d) × (u ≡ v) × (t ≡ w)
unfolding key
key-injective c d u v t w (h, k) (hu, hv, ht, hw) e =
    let days =
      same_length (format_day c) (format_day d) (b':' ∷ (fmt_uint32 u ++ (b':' ∷ fmt_uint32 t)))
        (b':' ∷ (fmt_uint32 v ++ (b':' ∷ fmt_uint32 w))) (length-format_day c d) e in
    let ids =
      split_at_colon (fmt_uint32 u) (fmt_uint32 v) (fmt_uint32 t) (fmt_uint32 w)
        (fmt_uint32-digits u).1 (fmt_uint32-digits v).1 (head_eq days.1).1 in
    (
      cc (year_eq c d days.0 h.0 k.0, month_eq c d days.0 h.1 k.1, date_eq c d days.0 h.2 k.2),
      fmt_uint32-injective u v hu hv ids.0,
      fmt_uint32-injective t w ht hw ids.1,
    )
