-- ===== src/Connections/Serving.antt =====
-- When a pool of internal/tunnel/connection_manager.go is in order: each connection serves the
-- pool's domain and port, and no address stands twice.
use giraffecloud.Base.{
  ℕ, suc, ◌≤◌, ◌<◌, ◌≡◌, refl, ◌∙◌, Option, none, some, List, [], ◌∷◌, ◌++◌, Bytes, ◌==◌, nat_eq,
  arith, length, Bool-cases, inl, inr,
}
use giraffecloud.Connections.Pool
use giraffecloud.Connections.Pool.{
  TunnelConnection, TunnelConnectionPool, World, Probe, sweep, remove_closing, remove_keeping,
  close_all, close_socket, close_handle, size, new_pool,
}
use giraffecloud.Connections.Census.{find_at}

-- Addresses rise along the list, from `lo` and below `next`.
abbrev pub Serves : Bytes → ℕ → ℕ → ℕ → List TunnelConnection → Type 0
Serves k port lo next [] = lo ≤ next
Serves k port lo next (tc ∷ tcs) =
    (tc.domain ≡ k)
    × (tc.target_port ≡ port)
    × (lo ≤ tc.address)
    × Serves k port (suc tc.address) next tcs

module _ (k : Bytes) (port : ℕ) where
  pub Serves-mono :
      (lo lo' next next' : ℕ) (tcs : List TunnelConnection)
      → lo' ≤ lo
      → next ≤ next'
      → Serves k port lo next tcs
      → Serves k port lo' next' tcs
  Serves-mono lo lo' next next' [] h n s = omega arith
  Serves-mono lo lo' next next' (tc ∷ tcs) h n (d, p, l, s) = (
    d,
    p,
    omega arith,
    Serves-mono (suc tc.address) (suc tc.address) next next' tcs (omega arith) n s,
  )

  pub Serves-le :
      (lo next : ℕ) (tcs : List TunnelConnection) → Serves k port lo next tcs → lo ≤ next
  Serves-le lo next [] s = s
  Serves-le lo next (tc ∷ tcs) (d, p, l, s) = omega (arith, Serves-le (suc tc.address) next tcs s)

  pub Serves-add :
      (lo next : ℕ) (tc : TunnelConnection) (tcs : List TunnelConnection)
      → tc.domain ≡ k
      → tc.target_port ≡ port
      → tc.address ≡ next
      → Serves k port lo next tcs
      → Serves k port lo (suc next) (tcs ++ tc ∷ [])
  Serves-add lo next tc [] d p a s = (d, p, omega arith, omega arith)
  Serves-add lo next tc (x ∷ tcs) d p a (xd, xp, xl, s) =
      (xd, xp, xl, Serves-add (suc x.address) next tc tcs d p a s)

  pub Serves-remove_keeping :
      (a lo next : ℕ) (tcs : List TunnelConnection)
      → Serves k port lo next tcs
      → Serves k port lo next (remove_keeping a tcs)
  unfolding remove_keeping
  Serves-remove_keeping a lo next [] s = s
  Serves-remove_keeping a lo next (tc ∷ tcs) (d, p, l, s) = ground (
    arith,
    Serves-mono (suc tc.address) lo next next tcs (omega arith) (omega arith) s,
    Serves-remove_keeping a (suc tc.address) next tcs s,
  )

  pub Serves-sweep :
      (probe : ℕ → Probe) (w : World) (lo next : ℕ) (tcs : List TunnelConnection)
      → Serves k port lo next tcs
      → Serves k port lo next (sweep probe w tcs).1
  unfolding sweep
  Serves-sweep probe w lo next [] s = s
  Serves-sweep probe w lo next (tc ∷ tcs) (d, p, l, s) = ground (
    arith,
    Serves-sweep probe w (suc tc.address) next tcs s,
    Serves-sweep probe (close_socket tc.conn w) (suc tc.address) next tcs s,
    Serves-mono (suc tc.address) lo next next (sweep probe (close_socket tc.conn w) tcs).1,
  )

  find_below :
      (a lo next : ℕ) (tcs : List TunnelConnection)
      → Serves k port lo next tcs
      → a < lo
      → find_at a tcs ≡ []
  unfolding find_at
  find_below a lo next [] s h = refl
  find_below a lo next (tc ∷ tcs) (d, p, l, s) h =
      ground (arith, find_below a (suc tc.address) next tcs s)

  -- After a removal the address is gone.
  pub find-remove_keeping :
      (a lo next : ℕ) (tcs : List TunnelConnection)
      → Serves k port lo next tcs
      → find_at a (remove_keeping a tcs) ≡ []
  unfolding remove_keeping find_at
  find-remove_keeping a lo next [] s = refl
  find-remove_keeping a lo next (tc ∷ tcs) (d, p, l, s) = ground (
    arith,
    find_below a (suc tc.address) next tcs s,
    find-remove_keeping a (suc tc.address) next tcs s,
  )

-- The closing removal leaves the same connections.
pub remove_closing_keeping :
    (a : ℕ) (w : World) (tcs : List TunnelConnection)
    → (remove_closing a w tcs).1 ≡ remove_keeping a tcs
unfolding remove_closing remove_keeping
remove_closing_keeping a w [] = refl
remove_closing_keeping a w (tc ∷ tcs) = ground (arith, remove_closing_keeping a w tcs)

close_socket-next : (s : Option ℕ) (w : World) → (close_socket s w).next_address ≡ w.next_address
unfolding close_socket
close_socket-next none w = refl
close_socket-next (some h) w = refl

pub remove_closing-next :
    (a : ℕ) (w : World) (tcs : List TunnelConnection)
    → (remove_closing a w tcs).0.next_address ≡ w.next_address
unfolding remove_closing
remove_closing-next a w [] = refl
remove_closing-next a w (tc ∷ tcs) =
    ground (arith, remove_closing-next a w tcs, close_socket-next tc.conn w)

pub sweep-next :
    (probe : ℕ → Probe) (w : World) (tcs : List TunnelConnection)
    → (sweep probe w tcs).0.next_address ≡ w.next_address
unfolding sweep
sweep-next probe w [] = refl
sweep-next probe w (tc ∷ tcs) = ground (
  arith,
  sweep-next probe w tcs,
  sweep-next probe (close_socket tc.conn w) tcs,
  close_socket-next tc.conn w,
)

pub close_all-next :
    (w : World) (tcs : List TunnelConnection) → (close_all w tcs).next_address ≡ w.next_address
unfolding close_all
close_all-next w [] = refl
close_all-next w (tc ∷ tcs) =
    close_all-next (close_socket tc.conn w) tcs ∙ close_socket-next tc.conn w

-- A pool that serves a domain at a port.
pub record PoolServes (k : Bytes) (port next : ℕ) (p : TunnelConnectionPool) : Type 0 where
  pub domain : p.domain ≡ k
  pub target_port : p.target_port ≡ port
  pub connections : Serves k port 0 next p.connections

module _ {k : Bytes} {port next : ℕ} where
  pub PoolServes-mono :
      (next' : ℕ) {p : TunnelConnectionPool}
      → next ≤ next'
      → PoolServes k port next p
      → PoolServes k port next' p
  PoolServes-mono next' {p} h s = record {
    domain = s.domain;
    target_port = s.target_port;
    connections = Serves-mono k port 0 0 next next' p.connections (omega arith) h s.connections;
  }

  pub new_pool-PoolServes : PoolServes k port next (new_pool k port)
  unfolding new_pool
  new_pool-PoolServes = record { domain = refl; target_port = refl; connections = omega arith }

  pub add-PoolServes :
      (w : World) {p : TunnelConnectionPool} (conn : Option ℕ)
      → w.next_address ≡ next
      → PoolServes k port next p
      → PoolServes k port (suc next) (Pool.add_connection w p conn).1
  unfolding Pool.add_connection Pool.new_tunnel_connection
  add-PoolServes w {p} conn e s = record {
    domain = s.domain;
    target_port = s.target_port;
    connections =
        Serves-add k port 0 next (Pool.new_tunnel_connection w p.domain conn p.target_port)
          p.connections s.domain s.target_port e s.connections;
  }

  pub get_connection-PoolServes :
      (p : TunnelConnectionPool)
      → PoolServes k port next p
      → PoolServes k port next (Pool.get_connection p).0
  unfolding Pool.get_connection
  get_connection-PoolServes p s = elim (Bool-cases (length p.connections == 0)) [
    | inl none_left ↦ rw none_left s
    | inr some_left ↦
        rw some_left
          (record { domain = s.domain; target_port = s.target_port; connections = s.connections })
  ]

  pub keeping-PoolServes :
      (a : ℕ) (p : TunnelConnectionPool)
      → PoolServes k port next p
      → PoolServes k port next (record p { connections = remove_keeping a p.connections })
  keeping-PoolServes a p s = record {
    domain = s.domain;
    target_port = s.target_port;
    connections = Serves-remove_keeping k port a 0 next p.connections s.connections;
  }

pub size-get_connection : (p : TunnelConnectionPool) → size (Pool.get_connection p).0 ≡ size p
unfolding Pool.get_connection size
size-get_connection p = ground arith

pub length-remove_keeping-le :
    (a : ℕ) (tcs : List TunnelConnection) → length (remove_keeping a tcs) ≤ length tcs
unfolding remove_keeping
length-remove_keeping-le a [] = omega arith
length-remove_keeping-le a (tc ∷ tcs) = ground (arith, length-remove_keeping-le a tcs)
