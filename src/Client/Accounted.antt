-- ===== src/Client/Accounted.antt =====
-- Where the connections of ConnectionPool (internal/tunnel/connection_pool.go) are.
use giraffecloud.Base.{
  ℕ, zero, suc, any, true, Bool, false, ◌||◌, ◌+◌, ◌≡◌, ◌≤◌, refl, sym, subst, inl, inr, Option,
  none, some, List, [], ◌∷◌, ◌++◌, ◌==◌, nat_eq, length, length-append, if◌then◌else◌, arith,
  Bool-cases,
}
use giraffecloud.Connections.Pool.{Probe}
use giraffecloud.Client.LocalPool.{
  ConnectionPool, new_connection_pool, shut_down, shut_all, or_dialled, is_connection_alive,
  take_alive, get, put, close, State, start, Step, enters_get, enters_put, receives, sends, closes,
  without_one, received, sent, act, step, run,
}

unfoldable pub count : ℕ → List ℕ → ℕ
count h [] = 0
count h (c ∷ cs) = (if c == h then 1 else 0) + count h cs

abbrev pub count_one : ℕ → Option ℕ → ℕ
count_one h none = 0
count_one h (some c) = if c == h then 1 else 0

-- What a step brings to the pool: a connection that a caller puts in, and what is dialled for a Get
-- that has entered, when the pool is open and its first connection is missing or dead.
abbrev pub has_live : (ℕ → Probe) → List ℕ → Bool
has_live probe [] = false
has_live probe (c ∷ cs) = is_connection_alive probe c

abbrev pub is_zero : ℕ → Bool
is_zero zero = true
is_zero (suc n) = false

abbrev pub dialled : (ℕ → Probe) → Option ℕ → State → Option ℕ
dialled probe dial s =
    if is_zero s.getting || s.pool.is_closed || has_live probe s.pool.connections
    then none
    else dial

abbrev pub brought : Step → State → Option ℕ
brought (enters_put conn) s = conn
brought (receives probe dial) s = dialled probe dial s
brought _ s = none

unfoldable pub came_in : ℕ → State → List Step → ℕ
came_in h s [] = 0
came_in h s (e ∷ es) =
    count_one h (if s.has_panicked then none else brought e s) + came_in h (step s e).0 es

-- The results of the Gets.
unfoldable pub handed_out : ℕ → State → List Step → ℕ
handed_out h s [] = 0
handed_out h s (e ∷ es) = count_one h (step s e).1 + handed_out h (step s e).0 es

-- In the pool, closed, or with a Put that has entered.
abbrev pub held : ℕ → State → ℕ
held h s = count h s.pool.connections + count h s.pool.shut + count h s.putting

count-append : (h : ℕ) (xs ys : List ℕ) → count h (xs ++ ys) ≡ count h xs + count h ys
unfolding count
count-append h [] ys = omega arith
count-append h (c ∷ cs) ys = omega (arith, count-append h cs ys)

count-shut_all : (h : ℕ) (xs shut : List ℕ) → count h (shut_all xs shut) ≡ count h xs + count h shut
unfolding count shut_all
count-shut_all h [] shut = omega arith
count-shut_all h (c ∷ cs) shut = omega (arith, count-shut_all h cs (c ∷ shut))

count-without_one :
    (h c : ℕ) (cs : List ℕ)
    → any (λ d. d == c) cs ≡ true
    → count h (without_one c cs) + (if c == h then 1 else 0) ≡ count h cs
unfolding count without_one
count-without_one h c [] e = cc
count-without_one h c (d ∷ ds) e = ground (arith, e, count-without_one h c ds)

abbrev in_pool : ℕ → ConnectionPool → ℕ
in_pool h p = count h p.connections + count h p.shut

in_pool-take_alive :
    (h : ℕ) (probe : ℕ → Probe) (dial : Option ℕ) (cs : List ℕ) (p : ConnectionPool)
    → p.connections ≡ cs
    → let (p', found) = take_alive probe cs p in
      (in_pool h p' + count_one h (or_dialled found dial)
        ≡ in_pool h p + count_one h (if has_live probe cs then none else dial))
      × (length p'.connections ≤ length p.connections)
      × (p'.max_size ≡ p.max_size)
unfolding take_alive shut_down count
in_pool-take_alive h probe dial [] p e = (omega arith, omega arith, refl)
in_pool-take_alive h probe dial (c ∷ cs) p e = elim (Bool-cases (is_connection_alive probe c)) [
  | inl up ↦ rw (up, e) (omega arith, omega arith, refl)
  | inr down ↦ rw (down, e) (omega arith, omega arith, refl)
]

in_pool-put :
    (h : ℕ) (probe : ℕ → Probe) (c : ℕ) (p : ConnectionPool)
    → length p.connections ≤ p.max_size
    → (in_pool h (put probe c p) ≡ in_pool h p + count_one h (some c))
      × (length (put probe c p).connections ≤ (put probe c p).max_size)
unfolding put shut_down count
in_pool-put h probe c p fits =
    ground
      (arith, fits, count-append h p.connections (c ∷ []), length-append p.connections (c ∷ []))

in_pool-close :
    (h : ℕ) (p : ConnectionPool)
    → length p.connections ≤ p.max_size
    → (in_pool h (close p) ≡ in_pool h p) × (length (close p).connections ≤ (close p).max_size)
unfolding close count
in_pool-close h p fits = ground (arith, fits, count-shut_all h p.connections p.shut)

-- The pool is not over its size, and a panic comes only after a Close.
pub record Sound (s : State) : Type 0 where
  pub fits : length s.pool.connections ≤ s.pool.max_size
  pub panics : s.has_panicked ≡ true → s.pool.is_closed ≡ true

-- A step from a state to another, with a result, that brings a connection.
abbrev Moved : ℕ → State → State × Option ℕ → Option ℕ → Type 0
Moved h s (t, result) brings =
    (held h t + count_one h result ≡ held h s + count_one h brings) × Sound t

received-Moved :
    (h : ℕ) (probe : ℕ → Probe) (dial : Option ℕ) (n : ℕ) (s : State)
    → s.getting ≡ n
    → s.has_panicked ≡ false
    → Sound s
    → Moved h s (received probe dial n s) (dialled probe dial s)
unfolding received get
received-Moved h probe dial zero s e calm v = (rw e (omega arith), v)
received-Moved h probe dial (suc n) s e calm v = elim (Bool-cases s.pool.is_closed) [
  | inl shut ↦ simp (e, shut) (omega arith, record { fits = v.fits; panics = λ _. shut })
  | inr open_yet ↦
      let (counts, shorter, size) =
        in_pool-take_alive h probe dial s.pool.connections s.pool refl in
      simp (e, open_yet)
        (
          omega (arith, counts),
          record { fits = omega (arith, shorter, size, v.fits); panics = λ q. cc },
        )
]

sent_open :
    (probe : ℕ → Probe) (conn : ℕ) (s : State)
    → any (λ c. c == conn) s.putting ≡ true
    → is_connection_alive probe conn ≡ true
    → s.pool.is_closed ≡ false
    → sent probe conn s
      ≡ record s { pool = put probe conn s.pool; putting = without_one conn s.putting }
unfolding sent
sent_open probe conn s present alive open_yet = simp (present, alive, open_yet) refl

false_true {ℓ} : (b : Bool) (A : Type ℓ) → b ≡ false → b ≡ true → A
false_true b A h k = cc

sent-Moved :
    (h : ℕ) (probe : ℕ → Probe) (conn : ℕ) (s : State)
    → s.has_panicked ≡ false
    → Sound s
    → Moved h s (sent probe conn s, none) none
unfolding sent shut_down count
sent-Moved h probe conn s calm v = elim (Bool-cases (any (λ c. c == conn) s.putting)) [
  | inr absent ↦ simp absent (omega arith, v)
  | inl present ↦
      let fewer = count-without_one h conn s.putting present in
      elim (Bool-cases (is_connection_alive probe conn)) [
        | inr dead ↦
            simp (present, dead) (omega (arith, fewer), record { fits = v.fits; panics = v.panics })
        | inl alive ↦ elim (Bool-cases s.pool.is_closed) [
          | inl shut ↦
              simp (present, alive, shut)
                (omega arith, record { fits = v.fits; panics = λ _. shut })
          | inr open_yet ↦
              let (counts, fits) = in_pool-put h probe conn s.pool v.fits in
              subst (λ t. Moved h s (t, none) none)
                (sym (sent_open probe conn s present alive open_yet))
                (
                  omega (arith, counts, fewer),
                  record { fits = fits; panics = λ q. false_true _ _ calm q },
                )
        ]
      ]
]

act-Moved :
    (h : ℕ) (e : Step) (s : State)
    → s.has_panicked ≡ false
    → Sound s
    → Moved h s (act e s) (brought e s)
unfolding act shut_down count
act-Moved h enters_get s calm v = elim (Bool-cases s.pool.is_closed) [
  | inl shut ↦ simp shut (omega arith, v)
  | inr open_yet ↦ simp open_yet (omega arith, record { fits = v.fits; panics = λ q. cc })
]
act-Moved h (receives probe dial) s calm v = received-Moved h probe dial s.getting s refl calm v
act-Moved h (enters_put none) s calm v = (omega arith, v)
act-Moved h (enters_put (some conn)) s calm v = elim (Bool-cases s.pool.is_closed) [
  | inl shut ↦ simp shut (omega arith, record { fits = v.fits; panics = λ _. refl })
  | inr open_yet ↦ simp open_yet (omega arith, record { fits = v.fits; panics = λ q. cc })
]
act-Moved h (sends probe conn) s calm v = sent-Moved h probe conn s calm v
act-Moved h closes s calm v =
    let (counts, fits) = in_pool-close h s.pool v.fits in
    (omega (arith, counts), record { fits = fits; panics = λ q. cc })

step-Moved :
    (h : ℕ) (s : State) (e : Step)
    → Sound s
    → Moved h s (step s e) (if s.has_panicked then none else brought e s)
unfolding step
step-Moved h s e v = elim (Bool-cases s.has_panicked) [
  | inl over ↦ simp over (omega arith, v)
  | inr calm ↦ simp calm (act-Moved h e s calm v)
]

run-Accounted_from :
    (h : ℕ) (s : State) (es : List Step)
    → Sound s
    → (held h (run s es) + handed_out h s es ≡ held h s + came_in h s es) × Sound (run s es)
unfolding run handed_out came_in
run-Accounted_from h s [] v = (omega arith, v)
run-Accounted_from h s (e ∷ es) v =
    let now = step-Moved h s e v in
    let rest = run-Accounted_from h (step s e).0 es now.1 in (omega (arith, now.0, rest.0), rest.1)

-- After any steps of Gets, Puts and Closes on a new pool, in any order: every connection that was put
-- in, or dialled for a Get that has entered and found the pool open and its first connection missing
-- or dead, is in the pool, was closed, is with a Put that has entered and has not sent it, or was the
-- result of a Get, as many times as it was put in or dialled; the pool holds at most its size; and a
-- panic comes only when the pool was closed.
pub run-Accounted :
    (h max_size : ℕ) (es : List Step)
    → (held h (run (start max_size) es) + handed_out h (start max_size) es
        ≡ came_in h (start max_size) es)
      × Sound (run (start max_size) es)
unfolding start new_connection_pool count
run-Accounted h max_size es =
    let all =
      run-Accounted_from h (start max_size) es (record { fits = omega arith; panics = λ q. cc }) in
    (omega (arith, all.0), all.1)
