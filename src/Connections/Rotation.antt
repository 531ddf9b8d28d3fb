-- ===== src/Connections/Rotation.antt =====
-- TunnelConnectionPool.GetConnection of internal/tunnel/connection_manager.go: round robin.
use native.Mathlib.Nat.{
  mod-lt, mod-eq_of_lt, mod-add-mod, add-mod-mod, add-mod_right, mod-eq-sub-mod,
}
use native.Mathlib.Decide.{dec_lt}
use giraffecloud.Base.{
  ℕ, zero, suc, ◌+◌, ◌-◌, ◌%◌, ◌<◌, ◌≤◌, ◌≡◌, sym, ap, ◌∙◌, ◌≢◌, none, some, All, All-get_elem?,
  length, get_elem?, get_elem?_total, arith,
}
use giraffecloud.Connections.Pool.{
  TunnelConnection, TunnelConnectionPool, u64_mod, get_connection, hand_out, next_index,
}

-- The pool after `k` calls.
unfoldable pub turns : ℕ → TunnelConnectionPool → TunnelConnectionPool
turns zero p = p
turns (suc k) p = turns k (get_connection p).0

get_connection_next :
    (p : TunnelConnectionPool)
    → 0 < length p.connections
    → (get_connection p).0 ≡ record p { round_robin = (p.round_robin + 1) % u64_mod }
unfolding get_connection
get_connection_next p h = ground arith

turns_lem :
    (k : ℕ) (p : TunnelConnectionPool)
    → 0 < length p.connections
    → p.round_robin + k < u64_mod
    → turns k p ≡ record p { round_robin = p.round_robin + k }
unfolding turns
turns_lem zero p h b = ground arith
turns_lem (suc k) p h b = rw (get_connection_next p h) (
    turns_lem k (record p { round_robin = (p.round_robin + 1) % u64_mod }) h (omega arith)
    ∙ ap (λ (r : ℕ). record p { round_robin = r }) (omega arith))

-- A live socket in every slot.
abbrev pub HasSocket : TunnelConnection → Type 0
HasSocket tc = tc.conn ≢ none

mod_shift : (r n i : ℕ) → i < n → (k : ℕ) × (k < n) × ((r + k) % n ≡ i)
mod_shift r n i h = ((i + n - r % n) % n, mod-lt _ (omega arith), lands)
  where
    gap : ℕ
    gap = i + n - r % n

    lands : (r + gap % n) % n ≡ i
    lands =
        add-mod-mod r gap n
        ∙ sym (mod-add-mod r n gap)
        ∙ ap (λ (t : ℕ). t % n) (omega (arith, mod-lt r {m = n} (omega arith)))
        ∙ add-mod_right i n
        ∙ mod-eq_of_lt h

hand_out_live : (tc : TunnelConnection) → HasSocket tc → (hand_out (some tc)).0 ≡ some tc
unfolding hand_out
hand_out_live tc s = ground arith

get_connection_at :
    (p : TunnelConnectionPool) (k : ℕ) (tc : TunnelConnection)
    → 0 < length p.connections
    → p.round_robin + k + 1 < u64_mod
    → get_elem? p.connections ((p.round_robin + k + 1) % length p.connections) ≡ some tc
    → HasSocket tc
    → (get_connection (turns k p)).1 ≡ some tc
unfolding get_connection next_index
get_connection_at p k tc h b e s =
    rw (turns_lem k p h (omega arith)) (rw (mod-eq_of_lt b, e) (ground (arith, hand_out_live tc s)))

-- While the 64-bit counter does not wrap and every slot has a socket, `n` calls in a row on a pool
-- of `n` connections hand out each of them: for each slot there is a turn among the `n` that gives
-- the connection in it.
pub turns-fair :
    (p : TunnelConnectionPool) (i : ℕ)
    → p.round_robin + length p.connections < u64_mod
    → All HasSocket p.connections
    → i < length p.connections
    → (k : ℕ) × (k < length p.connections)
      × ((get_connection (turns k p)).1 ≡ get_elem? p.connections i)
turns-fair p i b live h =
    let n = length p.connections in
    let (k, below, lands) = mod_shift (p.round_robin + 1) n i h in
    let (tc, found) = get_elem?_total p.connections i h in
    (
      k,
      below,
      get_connection_at p k tc (omega arith) (omega arith)
            (ap (get_elem? p.connections) (ap (λ (t : ℕ). t % n) (omega arith) ∙ lands) ∙ found)
            (All-get_elem? HasSocket p.connections i live found)
          ∙ sym found,
    )

mod_apart : (a d n : ℕ) → 0 < d → d < n → (a + d) % n ≢ a % n
mod_apart a d n pos small e =
    let r = a % n in
    let below = mod-lt a {m = n} (omega arith) in
    let same : (r + d) % n ≡ r = mod-add-mod a n d ∙ e in
    elim (dec_lt (r + d) n) [
      | yes h ↦ absurd (omega (arith, same, mod-eq_of_lt h))
      | no h ↦
          let over : n ≤ r + d = omega arith in
          absurd (
            omega (
              arith,
              same,
              below,
              mod-eq-sub-mod over,
              mod-eq_of_lt {n = r + d - n} {m = n} (omega (arith, below)),
            ))
    ]

-- Turns that are fewer than `n` apart hand out different slots: the call after `k` turns reads slot
-- `(round_robin + k + 1) % n`, and no two of `n` turns in a row read the same one.
pub next_index-turns :
    (p : TunnelConnectionPool) (j k : ℕ)
    → p.round_robin + k < u64_mod - 1
    → j < k
    → k < j + length p.connections
    → next_index (turns j p) ≢ next_index (turns k p)
unfolding next_index
next_index-turns p j k b jk kn =
    rw (turns_lem j p (omega arith) (omega arith), turns_lem k p (omega arith) (omega arith))
      (rw
        (
          mod-eq_of_lt {n = p.round_robin + j + 1} {m = u64_mod} (omega arith),
          mod-eq_of_lt {n = p.round_robin + k + 1} {m = u64_mod} (omega arith),
        )
        λ e.
          mod_apart (p.round_robin + j + 1) (k - j) (length p.connections) (omega arith)
            (omega arith) (ap (λ (t : ℕ). t % length p.connections) (omega arith) ∙ sym e))
