-- ===== src/Session/Head.antt =====
-- A gateway that serves a log, as pkg/synclog/engine.go and pkg/gateway/engine.go do for one binding
-- of a target: it answers from the cursor that acks move, up to its head.
pub mod Fresh
pub mod Steps
pub mod Rounds
pub mod Reaches
pub mod Live
pub mod Frames
pub mod Subscription
use synclog.Prelude.{
  ℕ, ◌+◌, ◌≤◌, ◌<◌, ◌≡◌, ◌⊎◌, Bool, true, false, List, [], ◌∷◌, Option, none, some, is_empty,
  length,
}
use synclog.Io.{ok}
use synclog.Protocol.Service.{CatchUpStatus}
use synclog.Protocol.Gateway.{
  GatewayEvent, GatewayBatch, GatewaySnapshot, GatewayCatchUpResult, GatewayAckResponse,
  GatewayGetLatestSnapshotResponse,
}
use synclog.Target.{TargetBindingKey}
use synclog.Transport.{SyncGatewayTransport}
use synclog.Client.{SyncClient, SyncBinding, ack_request, key_of, select_result}
use synclog.Client.Sync.{catch_up_request, snapshot_request}
use synclog.Session.{World, client_over, stored}

-- The seqs of a batch are start + 1, start + 2 and so on.
abbrev pub Consecutive : ℕ → List GatewayEvent → Type 0
Consecutive start [] = Unit
Consecutive start (e ∷ es) = (e.seq ≡ start + 1) × Consecutive (start + 1) es

-- No batch, or one without events.
abbrev pub NoEvents : Option GatewayBatch → Type 0
NoEvents none = Unit
NoEvents (some batch) = is_empty batch.events ≡ true

module _ {N TSnapshot TEvent : Type 0} (gateway : SyncGatewayTransport N)
    (client : SyncClient (World N TSnapshot TEvent))
    (binding : SyncBinding (World N TSnapshot TEvent) TSnapshot TEvent) (key : TargetBindingKey)
    (cursor head : N → ℕ) where
  -- The answer to a catch-up in the state `n`: nothing at the head of the log; behind it the next
  -- events, `final` only where they reach the head; or TOO_LONG, and then a snapshot is there that
  -- is ahead of the cursor and decodes.
  pub data Served (n : N) (result : GatewayCatchUpResult) : Type 0 where
    at_head :
        head n ≤ cursor n
        → result.status ≡ CatchUpStatus.ok
        → NoEvents result.batch
        → Served n result
    behind :
        (batch : GatewayBatch)
        → result.status ≡ CatchUpStatus.ok
        → result.batch ≡ some batch
        → is_empty batch.events ≡ false
        → Consecutive (cursor n) batch.events
        → cursor n + length batch.events ≤ head n
        → (batch.final ≡ true → cursor n + length batch.events ≡ head n)
        → key_of (client_over gateway client) (stored binding) (some batch.binding_key) ≡ key
        → Served n result
    too_long :
        (response : GatewayGetLatestSnapshotResponse) (snapshot : GatewaySnapshot)
        (value : TSnapshot) (later : N)
        → result.status ≡ CatchUpStatus.too_long
        → gateway.get_latest_snapshot
            (snapshot_request (client_over gateway client) (stored binding))
            n
          ≡ (ok response, later)
        → response.snapshot ≡ some snapshot
        → binding.projection.decode_snapshot snapshot.payload snapshot.payload_version ≡ ok value
        → cursor n < snapshot.seq
        → snapshot.seq ≤ head n
        → cursor later ≡ cursor n
        → head later ≡ head n
        → key_of (client_over gateway client) (stored binding) (some snapshot.binding_key) ≡ key
        → Served n result

  pub record ServesLog : Type 0 where
    -- A catch-up has one result, which is that of the binding, and moves neither cursor nor head.
    pub catch_up :
        (n : N)
        → (result : GatewayCatchUpResult) × (later : N) × (gateway.catch_up
              (catch_up_request (client_over gateway client) (stored binding))
              n
            ≡ (ok (record { results = result ∷ [] }), later))
          × (select_result (result ∷ []) binding.binding_key ≡ ok (some result))
          × (cursor later ≡ cursor n)
          × (head later ≡ head n)
          × Served later result
    -- An ack between the cursor and the head moves the cursor there.
    pub ack :
        (n : N) (seq : ℕ)
        → cursor n ≤ seq
        → seq ≤ head n
        → (response : GatewayAckResponse) × (later : N) × (gateway.ack
              (ack_request key seq client.subscriber_id)
              n
            ≡ (ok response, later))
          × (cursor later ≡ seq)
          × (head later ≡ head n)
