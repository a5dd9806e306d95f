-- ===== src/Session/Recovery.antt =====
-- What `#recoverFromSnapshot` does with the memory store: a snapshot that arrives and decodes is
-- filed under its key and acked, and anything else is an error that leaves all as it was.
use synclog.Prelude.{ℕ, ◌≡◌, refl, ap, ◌∙◌, Option, none, some, ◌∷◌, inl, inr, if◌then◌else◌}
use synclog.Io.{Error, no_compatible_snapshot, Outcome, ok, err, running, Outcome-cases, and_then}
use synclog.Protocol.Gateway.{GatewaySnapshot, GatewayAckResponse, GatewayGetLatestSnapshotResponse}
use synclog.Target.{TargetBindingKey}
use synclog.Store.{DecodedGatewaySnapshot}
use synclog.Memory.{get_record, apply_snapshot, snapshot_record}
use synclog.Memory.Views.{same_key, get_record-apply_snapshot}
use synclog.Transport.{SyncGatewayTransport}
use synclog.Client.{SyncClient, SyncBinding, SyncProjection, ack, ack_request, key_of}
use synclog.Client.Sync.{snapshot_request, decoded_snapshot, use_snapshot, recover_from_snapshot}
use synclog.Session.{World, client_over, stored}

-- What the gateway's reply comes to: a snapshot with its decoded value, or an error.
abbrev pub offered :
    {TSnapshot TEvent : Type 0}
    → SyncProjection TSnapshot TEvent
    → Option GatewaySnapshot
    → Outcome (GatewaySnapshot × TSnapshot)
offered projection none = err no_compatible_snapshot
offered projection (some s) =
    and_then (projection.decode_snapshot s.payload s.payload_version) λ value. ok (s, value)

-- The seq of the snapshot, once the gateway has answered its ack.
abbrev pub recovered : ℕ → Outcome GatewayAckResponse → Outcome ℕ
recovered seq (ok response) = ok seq
recovered seq (err e) = err e
recovered seq running = running

module _ {N TSnapshot TEvent : Type 0} (gateway : SyncGatewayTransport N)
    (client : SyncClient (World N TSnapshot TEvent))
    (binding : SyncBinding (World N TSnapshot TEvent) TSnapshot TEvent)
    (w : World N TSnapshot TEvent) where
  abbrev pub reply : Outcome GatewayGetLatestSnapshotResponse × N
  reply =
      gateway.get_latest_snapshot (snapshot_request (client_over gateway client) (stored binding))
        w.net

  abbrev pub snapshot_key : GatewaySnapshot → TargetBindingKey
  snapshot_key s = key_of (client_over gateway client) (stored binding) (some s.binding_key)

  abbrev pub offer : Outcome (GatewaySnapshot × TSnapshot)
  offer = and_then reply.0 λ response. offered binding.projection response.snapshot

  abbrev pub taken : GatewaySnapshot → TSnapshot → DecodedGatewaySnapshot TSnapshot
  taken s value = decoded_snapshot (client_over gateway client) (stored binding) s value

  abbrev pub answer : GatewaySnapshot → Outcome GatewayAckResponse × N
  answer s = gateway.ack (ack_request (snapshot_key s) s.seq client.subscriber_id) reply.1

  abbrev pub filed : GatewaySnapshot → TSnapshot → Outcome ℕ × World N TSnapshot TEvent
  filed s value = (
    recovered s.seq (answer s).0,
    record w {
      store = apply_snapshot (snapshot_key s) (taken s value) w.store;
      net = (answer s).1;
      acks = ack_request (snapshot_key s) s.seq client.subscriber_id ∷ w.acks;
    },
  )

  use_snapshot_run :
      (s : GatewaySnapshot) (value : TSnapshot)
      → binding.projection.decode_snapshot s.payload s.payload_version ≡ ok value
      → use_snapshot
          (client_over gateway client)
          (stored binding)
          (some s)
          (record w { net = reply.1 })
        ≡ filed s value
  unfolding use_snapshot ack
  use_snapshot_run s value e = elim (Outcome-cases (answer s).0) [
    | inl (a, f) ↦ rw (e, f) refl
    | inr (inl (x, f)) ↦ rw (e, f) refl
    | inr (inr f) ↦ rw (e, f) refl
  ]

  abbrev after_reply : Option GatewaySnapshot → Outcome ℕ × World N TSnapshot TEvent
  after_reply o =
      use_snapshot (client_over gateway client) (stored binding) o (record w { net = reply.1 })

  decoded_run :
      (t s : GatewaySnapshot) (value : TSnapshot) (r : Outcome TSnapshot)
      → binding.projection.decode_snapshot t.payload t.payload_version ≡ r
      → and_then {B = GatewaySnapshot × TSnapshot} r (λ v. ok (t, v)) ≡ ok (s, value)
      → after_reply (some t) ≡ filed s value
  decoded_run t s value (ok v) e h =
      let pair : Path (GatewaySnapshot × TSnapshot) (t, v) (s, value) = cc h in
      use_snapshot_run t v e ∙ ap (λ p. filed p.0 p.1) pair
  decoded_run t s value (err x) e h = cc
  decoded_run t s value running e h = cc

  offered_run :
      (o : Option GatewaySnapshot) (s : GatewaySnapshot) (value : TSnapshot)
      → offered binding.projection o ≡ ok (s, value)
      → after_reply o ≡ filed s value
  offered_run none s value h = cc
  offered_run (some t) s value h = decoded_run t s value _ refl h

  pub recover_run :
      (s : GatewaySnapshot) (value : TSnapshot) (r : Outcome GatewayGetLatestSnapshotResponse)
      → reply.0 ≡ r
      → and_then r (λ response. offered binding.projection response.snapshot) ≡ ok (s, value)
      → recover_from_snapshot (client_over gateway client) (stored binding) w ≡ filed s value
  unfolding recover_from_snapshot
  recover_run s value (ok response) e h = rw e (offered_run response.snapshot s value h)
  recover_run s value (err x) e h = cc
  recover_run s value running e h = cc

  -- The world where a recovery fails, after the gateway's reply.
  abbrev failed : Error → Outcome ℕ × World N TSnapshot TEvent
  failed x = (err x, record w { net = reply.1 })

  refused_run :
      (o : Option GatewaySnapshot) (x : Error)
      → offered binding.projection o ≡ err x
      → after_reply o ≡ failed x
  unfolding use_snapshot
  refused_run none x h = cc
  refused_run (some t) x h =
      elim (Outcome-cases (binding.projection.decode_snapshot t.payload t.payload_version)) [
        | inl (v, f) ↦ cc
        | inr (inl (y, f)) ↦ rw f (cc)
        | inr (inr f) ↦ cc
      ]

  recover_fails :
      (x : Error) (r : Outcome GatewayGetLatestSnapshotResponse)
      → reply.0 ≡ r
      → and_then r (λ response. offered binding.projection response.snapshot) ≡ err x
      → recover_from_snapshot (client_over gateway client) (stored binding) w ≡ failed x
  unfolding recover_from_snapshot
  recover_fails x (ok response) e h = rw e (refused_run response.snapshot x h)
  recover_fails x (err y) e h = rw e (cc)
  recover_fails x running e h = cc

  -- Where the gateway offers a snapshot that decodes, the record of its key becomes what
  -- `applySnapshot` makes of it, every other record stays, one ack of the snapshot's seq is sent,
  -- and the result is that seq if the gateway takes the ack and the gateway's error if not.
  pub recover_from_snapshot_lem :
      (s : GatewaySnapshot) (value : TSnapshot) (j : TargetBindingKey)
      → offer ≡ ok (s, value)
      → (get_record j
            (recover_from_snapshot (client_over gateway client) (stored binding) w).1.store
          ≡ (if same_key (snapshot_key s) j
              then snapshot_record (some (get_record (snapshot_key s) w.store)) (taken s value)
              else get_record j w.store))
        × ((recover_from_snapshot (client_over gateway client) (stored binding) w).1.acks
            ≡ ack_request (snapshot_key s) s.seq client.subscriber_id ∷ w.acks)
        × ((recover_from_snapshot (client_over gateway client) (stored binding) w).0
            ≡ recovered s.seq (answer s).0)
  recover_from_snapshot_lem s value j h =
      rw (recover_run s value _ refl h)
        (get_record-apply_snapshot (snapshot_key s) j w.store (taken s value), refl, refl)

  -- Where the gateway throws, has no snapshot, or its snapshot does not decode, the recovery throws
  -- that error, "no compatible snapshot" where there is none, and changes neither the store nor the
  -- acks.
  pub recover_from_snapshot-fails :
      (x : Error)
      → offer ≡ err x
      → ((recover_from_snapshot (client_over gateway client) (stored binding) w).0 ≡ err x)
        × ((recover_from_snapshot (client_over gateway client) (stored binding) w).1.store
            ≡ w.store)
        × ((recover_from_snapshot (client_over gateway client) (stored binding) w).1.acks ≡ w.acks)
  recover_from_snapshot-fails x h = rw (recover_fails x _ refl h) (refl, refl, refl)
