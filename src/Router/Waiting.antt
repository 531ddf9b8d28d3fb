-- ===== src/Router/Waiting.antt =====
-- How HybridTunnelRouter (internal/tunnel/hybrid_router.go) lets WebSocket requests wait for a TCP
-- tunnel. Every critical section, every receive and every timeout is one step; handlers and
-- callbacks take their steps in any order.
pub mod Entries
pub mod Maps
pub mod Kept
pub mod Others
pub mod Woken
use giraffecloud.Base.{
  ℕ, suc, ◌+◌, Bool, true, false, not, ◌&&◌, ◌||◌, Option, none, some, List, [], ◌∷◌, ◌++◌, Bytes,
  ◌==◌, nat_eq, bytes_eq, any, length, if◌then◌else◌,
}
use giraffecloud.Base.Map.{lookup, insert, delete}

-- PendingWebSocketConnection. A channel of one place is a number; the rest of the request stays
-- with the handler.
pub record Pending : Type 0 where
  pub domain : Bytes
  pub request_id : Bytes
  pub done_chan : ℕ

-- Where a handler stands in waitForTCPTunnelEstablishment: its entry is added; the flag is checked,
-- and it waits; it has received, or timed out.
pub data Phase : Type 0 where
  added waiting : Phase
  done : Bool → Phase

pub record Handler : Type 0 where
  pub pending : Pending
  pub phase : Phase

pub record Result : Type 0 where
  pub domain : Bytes
  pub request_id : Bytes
  pub success : Bool

pub record State : Type 0 where
  pub pending_connections : List (Bytes × List Pending)
  pub establishment_in_progress : List (Bytes × Bool)
  -- the channels that hold a value, and the next new channel
  pub full : List ℕ
  pub next_chan : ℕ
  pub handlers : List Handler
  pub results : List Result
  -- the requests for a tunnel that were started
  pub requests : List (Bytes × Bytes)

-- r.pendingConnections[domain], which is empty for a domain that is not there.
abbrev pub entries : Option (List Pending) → List Pending
entries none = []
entries (some connections) = connections

unfoldable pub pending_of : Bytes → List (Bytes × List Pending) → List Pending
unfolding lookup
pending_of domain m = entries (lookup domain m)

unfoldable pub add_pending : Pending → List (Bytes × List Pending) → List (Bytes × List Pending)
unfolding pending_of
add_pending p m = insert p.domain (pending_of p.domain m ++ p ∷ []) m

-- The loop of removePendingConnection.
unfoldable pub remove_first : Bytes → List Pending → List Pending
remove_first request_id [] = []
remove_first request_id (p ∷ ps) =
    if p.request_id == request_id then ps else p ∷ remove_first request_id ps

abbrev pub has_id : Bytes → Pending → Bool
has_id request_id p = p.request_id == request_id

abbrev pub is_nil : List Pending → Bool
is_nil [] = true
is_nil (_ ∷ _) = false

-- Forgets a domain without entries.
unfoldable pub drop_empty : Bytes → List (Bytes × List Pending) → List (Bytes × List Pending)
unfolding pending_of
drop_empty domain m = if is_nil (pending_of domain m) then delete domain m else m

unfoldable pub remove_pending_connection :
    Bytes → Bytes → List (Bytes × List Pending) → List (Bytes × List Pending)
unfolding drop_empty remove_first
remove_pending_connection domain request_id m =
    let connections = pending_of domain m in
    drop_empty domain (
      if any (has_id request_id) connections
      then insert domain (remove_first request_id connections) m
      else m)

abbrev pub in_progress : Option Bool → Bool
in_progress none = false
in_progress (some b) = b

-- A send that does not block, on a channel of one place.
unfoldable pub notify : ℕ → List ℕ → List ℕ
notify c full = if any (λ d. d == c) full then full else c ∷ full

-- The loop of OnTCPTunnelEstablished.
unfoldable pub notify_all : List Pending → List ℕ → List ℕ
unfolding notify
notify_all [] full = full
notify_all (p ∷ ps) full = notify_all ps (notify p.done_chan full)

-- A receive takes the value out of the channel.
unfoldable pub received : ℕ → List ℕ → List ℕ
received c [] = []
received c (d ∷ full) = if d == c then full else d ∷ received c full

unfoldable pub clear_flag : Bytes → State → State
clear_flag domain s = record s {
  establishment_in_progress = delete domain s.establishment_in_progress;
}

-- The new entry of a handler, and the handler itself.
unfoldable pub join : Bytes → Bytes → State → State
unfolding add_pending
join domain request_id s =
    let p : Pending = record {
      domain = domain;
      request_id = request_id;
      done_chan = s.next_chan;
    } in
    record s {
      pending_connections = add_pending p s.pending_connections;
      next_chan = suc s.next_chan;
      handlers = s.handlers ++ record { pending = p; phase = added } ∷ [];
    }

-- The check of the flag: the first handler of a domain starts the request for a tunnel.
unfoldable pub check : Pending → State → State
check p s = if in_progress (lookup p.domain s.establishment_in_progress) then s else record s {
  establishment_in_progress = insert p.domain true s.establishment_in_progress;
  requests = (p.domain, p.request_id) ∷ s.requests;
}

-- The handler's phase changes, the handler being known by its channel.
unfoldable pub set_phase : ℕ → Phase → List Handler → List Handler
set_phase c phase [] = []
set_phase c phase (h ∷ hs) =
    if h.pending.done_chan == c then record h { phase = phase } ∷ hs else h ∷ set_phase c phase hs

unfoldable pub move : ℕ → Phase → State → State
unfolding set_phase
move c phase s = record s { handlers = set_phase c phase s.handlers }

unfoldable pub find_handler : ℕ → List Handler → Option Handler
find_handler c [] = none
find_handler c (h ∷ hs) = if h.pending.done_chan == c then some h else find_handler c hs

unfoldable pub remove_handler : ℕ → List Handler → List Handler
remove_handler c [] = []
remove_handler c (h ∷ hs) = if h.pending.done_chan == c then hs else h ∷ remove_handler c hs

-- The handler removes its entry and returns.
unfoldable pub leave : Pending → Bool → State → State
unfolding remove_handler remove_pending_connection
leave p success s = record s {
  pending_connections = remove_pending_connection p.domain p.request_id s.pending_connections;
  handlers = remove_handler p.done_chan s.handlers;
  results = record { domain = p.domain; request_id = p.request_id; success = success } ∷ s.results;
}

-- The receive of a channel, if it holds a value.
unfoldable pub receive : ℕ → State → State
unfolding move received
receive c s =
    if any (λ d. d == c) s.full
    then record (move c (done true) s) { full = received c s.full }
    else s

pub data Event : Type 0 where
  -- a request comes in for a domain, with its id
  joins : Bytes → Bytes → Event
  -- the handler with the channel checks the flag, receives, times out, or leaves
  checks receives expires leaves : ℕ → Event
  -- the two critical sections of OnTCPTunnelEstablished
  clears wakes : Bytes → Event
  -- the callback for a failure that the client reports
  fails : Bytes → Event

-- A step of a handler, which its phase must allow.
unfoldable pub act : Event → Phase → Pending → State → State
unfolding check move receive clear_flag leave
act (checks c) added p s = move c waiting (check p s)
act (receives c) waiting p s = receive c s
act (expires c) waiting p s = move c (done false) (clear_flag p.domain s)
act (leaves c) (done success) p s = leave p success s
act _ _ p s = s

unfoldable pub acting : Event → Option Handler → State → State
unfolding act
acting e none s = s
acting e (some h) s = act e h.phase h.pending s

unfoldable pub step : State → Event → State
unfolding acting join clear_flag notify_all
step s (joins domain request_id) = join domain request_id s
step s (clears domain) = clear_flag domain s
step s (wakes domain) = record s {
  full = notify_all (pending_of domain s.pending_connections) s.full;
}
step s (fails domain) = clear_flag domain s
step s (checks c) = acting (checks c) (find_handler c s.handlers) s
step s (receives c) = acting (receives c) (find_handler c s.handlers) s
step s (expires c) = acting (expires c) (find_handler c s.handlers) s
step s (leaves c) = acting (leaves c) (find_handler c s.handlers) s

unfoldable pub run : State → List Event → State
unfolding step
run s [] = s
run s (e ∷ es) = run (step s e) es

unfoldable pub start : State
start = record {
  pending_connections = [];
  establishment_in_progress = [];
  full = [];
  next_chan = 0;
  handlers = [];
  results = [];
  requests = [];
}

-- What requestTCPTunnelEstablishment does: when the domain has a WebSocket tunnel by now, it goes
-- through OnTCPTunnelEstablished; otherwise the client is asked, which changes nothing here.
unfoldable pub request_tcp_tunnel_establishment : Bool → Bytes → List Event
request_tcp_tunnel_establishment has_tunnel domain =
    if has_tunnel then clears domain ∷ wakes domain ∷ [] else []
