-- ===== src/Grpc/Registered.antt =====
-- A channel that is registered (internal/tunnel/grpc_service_helpers.go).
use giraffecloud.Base.{
  ℕ, suc, ◌≤◌, ◌≡◌, refl, ap, ◌∙◌, inl, inr, false, none, some, List, Bytes, ◌==◌, nat_eq, bytes_eq,
  nat_beq_iff, bytes_beq_iff, arith, Bool-cases,
}
use mathlib.Core.Option.{some-injective}
use giraffecloud.Base.Map.{lookup, lookup-insert, All-insert}
use giraffecloud.Grpc.Streams.{
  Progress, Channel, Phase, idle, answering, forwarding, failing, finishing, TunnelStream, closed,
  register,
}
use giraffecloud.Grpc.Channels.{owner, Got, Fits, Held, Inv}

Held-more :
    (channels others : List (ℕ × Channel)) (phase : Phase)
    → ((k : ℕ) (id : Bytes)
        → owner (lookup k channels) ≡ some id
        → owner (lookup k others) ≡ some id)
    → Held channels phase
    → Held others phase
Held-more channels others idle more h = tt
Held-more channels others (answering n m) more h = more n m.request_id h
Held-more channels others (forwarding n m) more h = more n m.request_id h
Held-more channels others (failing n m) more h = more n m.request_id h
Held-more channels others (finishing n m) more h = more n m.request_id h

module _ (id : Bytes) (capacity : ℕ) (progress : Progress) (s : TunnelStream) (i : Inv s)
    (none_got : Got id progress) where
  old_channel :
      (k : ℕ) (j : Bytes)
      → owner (lookup k s.channels) ≡ some j
      → lookup k (register id capacity progress s).channels ≡ lookup k s.channels
  unfolding register
  old_channel k j own = elim (Bool-cases (s.next_channel == k)) [
    | inl same ↦
        let absent = i.fresh k (omega (arith, (nat_beq_iff s.next_channel k).0 same)) in
        let is_some = rw absent at own in cc
    | inr other ↦ rw (lookup-insert s.next_channel k _ s.channels, other) refl
  ]

  registered-register :
      (j : Bytes) (n : ℕ)
      → lookup j (register id capacity progress s).pending_requests ≡ some n
      → (owner (lookup n (register id capacity progress s).channels) ≡ some j)
        × (closed (lookup n (register id capacity progress s).channels) ≡ false)
  unfolding register
  registered-register j n found = elim (Bool-cases (id == j)) [
    | inl same ↦
        let at_next : s.next_channel ≡ n =
          some-injective _ _
            (rw (lookup-insert id j s.next_channel s.pending_requests, same) at found) in
        rw (lookup-insert s.next_channel n _ s.channels, (nat_beq_iff s.next_channel n).1 at_next)
          (ap some ((bytes_beq_iff id j).0 same), refl)
    | inr other ↦
        let was : lookup j s.pending_requests ≡ some n =
          rw (lookup-insert id j s.next_channel s.pending_requests, other) at found in
        let before = i.registered j n was in
        let at = old_channel n j before.0 in (ap owner at ∙ before.0, ap closed at ∙ before.1)
  ]

  fresh-register :
      (k : ℕ) → suc s.next_channel ≤ k → lookup k (register id capacity progress s).channels ≡ none
  unfolding register
  fresh-register k far = elim (Bool-cases (s.next_channel == k)) [
    | inl same ↦
        let far_too : suc s.next_channel ≤ k = far in
        ground (arith, far_too, (nat_beq_iff s.next_channel k).0 same)
    | inr other ↦ rw (lookup-insert s.next_channel k _ s.channels, other) (i.fresh k (omega arith))
  ]

  pub Inv-register : Inv (register id capacity progress s)
  unfolding register
  Inv-register = record {
    registered = registered-register;
    fresh = fresh-register;
    matched = All-insert (λ e. Fits e.1) s.next_channel _ s.channels (tt, none_got) i.matched;
    held = Held-more s.channels _ s.phase (λ k j own. ap owner (old_channel k j own) ∙ own) i.held;
  }
