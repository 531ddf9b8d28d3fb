-- ===== src/Client/LocalPool.antt =====
-- ConnectionPool of internal/tunnel/connection_pool.go: connections to the local service in a
-- channel. A connection is a number; the probe and the dialler are parameters. Get and Put check the
-- flag under the lock and use the channel after they have released it, which are two steps; Close
-- is one.
use giraffecloud.Base.{
  ℕ, zero, suc, any, Bool, true, false, not, Option, none, some, List, [], ◌∷◌, ◌++◌, ◌==◌, nat_eq,
  ltb, length, if◌then◌else◌,
}
use giraffecloud.Connections.Pool.{Probe, is_timeout}

-- `shut` lists the connections that were closed, the last one first.
pub record ConnectionPool : Type 0 where
  pub max_size : ℕ
  pub connections : List ℕ
  pub is_closed : Bool
  pub shut : List ℕ

-- A size of 0 stands for the sizes that are not positive.
unfoldable pub new_connection_pool : ℕ → ConnectionPool
new_connection_pool max_size = record {
  max_size = if max_size == 0 then 10 else max_size;
  connections = [];
  is_closed = false;
  shut = [];
}

unfoldable pub shut_down : ℕ → ConnectionPool → ConnectionPool
shut_down conn p = record p { shut = conn ∷ p.shut }

-- The loop of Close over the channel.
unfoldable pub shut_all : List ℕ → List ℕ → List ℕ
shut_all [] shut = shut
shut_all (conn ∷ rest) shut = shut_all rest (conn ∷ shut)

abbrev pub or_dialled : Option ℕ → Option ℕ → Option ℕ
or_dialled (some conn) dial = some conn
or_dialled none dial = dial

module _ (probe : ℕ → Probe) where
  unfoldable pub is_connection_alive : ℕ → Bool
  unfolding is_timeout
  is_connection_alive conn = is_timeout (probe conn)

  -- The receive of Get: a connection of the pool that is alive; a dead one is closed.
  unfoldable pub take_alive : List ℕ → ConnectionPool → ConnectionPool × Option ℕ
  unfolding is_connection_alive shut_down
  take_alive [] p = (p, none)
  take_alive (conn ∷ rest) p =
      if is_connection_alive conn
      then (record p { connections = rest }, some conn)
      else (shut_down conn (record p { connections = rest }), none)

  -- Get on an open pool; `dial` is what createConnection gives when the pool has none that is alive.
  unfoldable pub get : Option ℕ → ConnectionPool → ConnectionPool × Option ℕ
  unfolding take_alive
  get dial p = let (p', found) = take_alive p.connections p in (p', or_dialled found dial)

  -- The send of Put on an open pool.
  unfoldable pub put : ℕ → ConnectionPool → ConnectionPool
  unfolding shut_down
  put conn p =
      if ltb (length p.connections) p.max_size
      then record p { connections = p.connections ++ conn ∷ [] }
      else shut_down conn p

unfoldable pub close : ConnectionPool → ConnectionPool
unfolding shut_all
close p =
    if p.is_closed
    then p
    else record p { is_closed = true; connections = []; shut = shut_all p.connections p.shut }

-- The pool with the calls that have checked its flag and have not used the channel yet: the number of
-- Gets, and the connections of the Puts. A panic ends the client.
pub record State : Type 0 where
  pub pool : ConnectionPool
  pub getting : ℕ
  pub putting : List ℕ
  pub has_panicked : Bool

unfoldable pub start : ℕ → State
unfolding new_connection_pool
start max_size = record {
  pool = new_connection_pool max_size;
  getting = 0;
  putting = [];
  has_panicked = false;
}

-- A step: a Get or a Put checks the flag; it uses the channel, with what the probe and the dialler
-- give; or the pool is closed.
pub data Step : Type 0 where
  enters_get closes : Step
  receives : (ℕ → Probe) → Option ℕ → Step
  enters_put : Option ℕ → Step
  sends : (ℕ → Probe) → ℕ → Step

unfoldable pub without_one : ℕ → List ℕ → List ℕ
without_one c [] = []
without_one c (d ∷ ds) = if d == c then ds else d ∷ without_one c ds

-- The receive of a Get that has entered, and its result; from a closed channel it gets a nil
-- connection, and the probe of that panics.
unfoldable pub received : (ℕ → Probe) → Option ℕ → ℕ → State → State × Option ℕ
unfolding get
received probe dial zero s = (s, none)
received probe dial (suc others) s =
    let (p, found) = get probe dial s.pool in
    if s.pool.is_closed
    then (record s { has_panicked = true }, none)
    else (record s { pool = p; getting = others }, found)

-- A Put that has entered: a dead connection is closed; a send on a closed channel panics.
unfoldable pub sent : (ℕ → Probe) → ℕ → State → State
unfolding is_connection_alive shut_down put without_one
sent probe conn s =
    if not (any (λ c. c == conn) s.putting)
    then s
    else if not (is_connection_alive probe conn)
    then record s { pool = shut_down conn s.pool; putting = without_one conn s.putting }
    else if s.pool.is_closed
    then record s { has_panicked = true }
    else record s { pool = put probe conn s.pool; putting = without_one conn s.putting }

-- The state after a step, and the result of a Get.
unfoldable pub act : Step → State → State × Option ℕ
unfolding received sent shut_down close
act enters_get s = (if s.pool.is_closed then s else record s { getting = suc s.getting }, none)
act (receives probe dial) s = received probe dial s.getting s
act (enters_put none) s = (s, none)
act (enters_put (some conn)) s = (
  if s.pool.is_closed
      then record s { pool = shut_down conn s.pool }
      else record s { putting = conn ∷ s.putting },
  none,
)
act (sends probe conn) s = (sent probe conn s, none)
act closes s = (record s { pool = close s.pool }, none)

unfoldable pub step : State → Step → State × Option ℕ
unfolding act
step s e = if s.has_panicked then (s, none) else act e s

unfoldable pub run : State → List Step → State
unfolding step
run s [] = s
run s (e ∷ es) = run (step s e).0 es
