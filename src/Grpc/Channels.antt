-- ===== src/Grpc/Channels.antt =====
-- What is well formed in the streams of internal/tunnel/grpc_service_helpers.go, and that changing one
-- channel keeps it.
use giraffecloud.Base.{
  ℕ, ◌≤◌, ◌≡◌, refl, sym, ◌∙◌, subst, inl, inr, false, Option, none, some, List, Bytes, ◌==◌,
  nat_eq, bytes_eq, nat_beq_iff, if◌then◌else◌, Bool-cases, Option-cases, All, ap,
}
use giraffecloud.Base.Map.{lookup, lookup-insert, All-insert, All-lookup}
use giraffecloud.Grpc.Streams.{
  Progress, received, Channel, Phase, idle, answering, forwarding, failing, finishing, TunnelStream,
  change, closed,
}

abbrev pub owner : Option Channel → Option Bytes
owner none = none
owner (some c) = some c.request_id

abbrev pub Got : Bytes → Progress → Type 0
Got id (received (some m)) = m.request_id ≡ id
Got id _ = Unit

-- What a channel holds, and what its request received, carries the id of the request.
abbrev pub Fits : Channel → Type 0
Fits c = All (λ m. m.request_id ≡ c.request_id) c.buffer × Got c.request_id c.progress

abbrev pub Held : List (ℕ × Channel) → Phase → Type 0
Held channels idle = Unit
Held channels (answering n m) = owner (lookup n channels) ≡ some m.request_id
Held channels (forwarding n m) = owner (lookup n channels) ≡ some m.request_id
Held channels (failing n m) = owner (lookup n channels) ≡ some m.request_id
Held channels (finishing n m) = owner (lookup n channels) ≡ some m.request_id

pub record Inv (s : TunnelStream) : Type 0 where
  -- an id leads to an open channel that was registered under it
  pub registered :
      (id : Bytes) (n : ℕ)
      → lookup id s.pending_requests ≡ some n
      → (owner (lookup n s.channels) ≡ some id) × (closed (lookup n s.channels) ≡ false)
  pub fresh : (n : ℕ) → s.next_channel ≤ n → lookup n s.channels ≡ none
  pub matched : All (λ e. Fits e.1) s.channels
  pub held : Held s.channels s.phase

abbrev pub applied : (Channel → Channel) → Option Channel → Option Channel
applied f none = none
applied f (some c) = some (f c)

pub lookup-change :
    (n k : ℕ) (f : Channel → Channel) (s : TunnelStream)
    → lookup k (change n f s).channels
      ≡ (if n == k then applied f (lookup n s.channels) else lookup k s.channels)
unfolding change
lookup-change n k f s = elim (Option-cases (lookup n s.channels)) [
  | inl absent ↦ rw absent (elim (Bool-cases (n == k)) [
    | inl same ↦ rw same (subst (λ i. lookup i s.channels ≡ none) ((nat_beq_iff n k).0 same) absent)
    | inr other ↦ rw other refl
  ])
  | inr (c, found) ↦ rw found (lookup-insert n k (f c) s.channels)
]

owner-applied :
    (f : Channel → Channel) (o : Option Channel)
    → ((c : Channel) → (f c).request_id ≡ c.request_id)
    → owner (applied f o) ≡ owner o
owner-applied f none same = refl
owner-applied f (some c) same = ap some (same c)

pub owner-change :
    (n k : ℕ) (f : Channel → Channel) (s : TunnelStream)
    → ((c : Channel) → (f c).request_id ≡ c.request_id)
    → owner (lookup k (change n f s).channels) ≡ owner (lookup k s.channels)
owner-change n k f s same = rw (lookup-change n k f s) (elim (Bool-cases (n == k)) [
  | inl eq ↦ rw eq (
      owner-applied f (lookup n s.channels) same
      ∙ ap (λ i. owner (lookup i s.channels)) ((nat_beq_iff n k).0 eq))
  | inr other ↦ rw other refl
])

-- What a change of one channel leaves alone.
pub change_rest :
    (n : ℕ) (f : Channel → Channel) (s : TunnelStream)
    → ((change n f s).pending_requests ≡ s.pending_requests)
      × ((change n f s).phase ≡ s.phase)
      × ((change n f s).next_channel ≡ s.next_channel)
unfolding change
change_rest n f s = elim (Option-cases (lookup n s.channels)) [
  | inl absent ↦ rw absent (refl, refl, refl)
  | inr (c, found) ↦ rw found (refl, refl, refl)
]

pub Held-same :
    (channels others : List (ℕ × Channel)) (phase : Phase)
    → ((k : ℕ) → owner (lookup k others) ≡ owner (lookup k channels))
    → Held channels phase
    → Held others phase
Held-same channels others idle same h = tt
Held-same channels others (answering n m) same h = same n ∙ h
Held-same channels others (forwarding n m) same h = same n ∙ h
Held-same channels others (failing n m) same h = same n ∙ h
Held-same channels others (finishing n m) same h = same n ∙ h

-- A change of a channel that keeps what the invariant says of the channel.
pub record Keeps (s : TunnelStream) (n : ℕ) (f : Channel → Channel) : Type 0 where
  pub same : (c : Channel) → (f c).request_id ≡ c.request_id
  pub fits : (c : Channel) → lookup n s.channels ≡ some c → Fits c → Fits (f c)
  pub stays :
      (id : Bytes)
      → lookup id s.pending_requests ≡ some n
      → (c : Channel) → (f c).is_closed ≡ c.is_closed

pub closed-applied :
    (f : Channel → Channel) (o : Option Channel)
    → ((c : Channel) → (f c).is_closed ≡ c.is_closed)
    → closed (applied f o) ≡ closed o
closed-applied f none same = refl
closed-applied f (some c) same = same c

fresh-applied : (f : Channel → Channel) (o : Option Channel) → o ≡ none → applied f o ≡ none
fresh-applied f none e = refl
fresh-applied f (some c) e = cc

module _ (s : TunnelStream) (n : ℕ) (f : Channel → Channel) (i : Inv s) (keeps : Keeps s n f) where
  closed-change :
      (id : Bytes) (k : ℕ)
      → lookup id s.pending_requests ≡ some k
      → closed (lookup k (change n f s).channels) ≡ false
  closed-change id k found = rw (lookup-change n k f s) (elim (Bool-cases (n == k)) [
    | inl eq ↦
        let to_n : lookup id s.pending_requests ≡ some n =
          found ∙ ap some (sym ((nat_beq_iff n k).0 eq)) in
        rw eq (
          closed-applied f (lookup n s.channels) (keeps.stays id to_n) ∙ (i.registered id n to_n).1)
    | inr other ↦ rw other (i.registered id k found).1
  ])

  fresh-change : (k : ℕ) → s.next_channel ≤ k → lookup k (change n f s).channels ≡ none
  fresh-change k far = rw (lookup-change n k f s) (elim (Bool-cases (n == k)) [
    | inl eq ↦ rw eq (
        fresh-applied f (lookup n s.channels)
          (ap (λ j. lookup j s.channels) ((nat_beq_iff n k).0 eq) ∙ i.fresh k far))
    | inr other ↦ rw other (i.fresh k far)
  ])

  matched-change : All (λ e. Fits e.1) (change n f s).channels
  unfolding change
  matched-change = elim (Option-cases (lookup n s.channels)) [
    | inl absent ↦ rw absent i.matched
    | inr (c, found) ↦ rw found (
        All-insert (λ e. Fits e.1) n (f c) s.channels
          (keeps.fits c found (All-lookup (λ e. Fits e.1) n s.channels i.matched found)) i.matched)
  ]

  pub Inv-change : Inv (change n f s)
  Inv-change =
      let rest = change_rest n f s in
      record {
        registered = λ id k found.
            let at : lookup id s.pending_requests ≡ some k = rw rest.0 at found in
            (owner-change n k f s keeps.same ∙ (i.registered id k at).0, closed-change id k at);
        fresh = λ k far. fresh-change k (rw rest.2 at far);
        matched = matched-change;
        held = rw rest.1 (
            Held-same s.channels (change n f s).channels s.phase
              (λ k. owner-change n k f s keeps.same) i.held);
      }
