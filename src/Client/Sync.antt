-- ===== src/Client/Sync.antt =====
-- ts/synclog/src/client.ts: a batch, a snapshot and the loop of `catchUp`. The loop takes `fuel`,
-- a bound on its rounds, since a gateway can keep it busy for ever.
pub mod Keeps
pub mod Ends
use synclog.Prelude.{
  ℕ, zero, suc, ◌+◌, String, Bool, true, false, List, [], ◌∷◌, Option, none, some, ltb, coalesce,
  filter, length, if◌then◌else◌, is_empty,
}
use synclog.Io.{
  Error, no_compatible_snapshot, Outcome, ok, err, running, Io, pure, throw, lift, and_then, ◌>>=◌,
  ◌>>◌,
}
use synclog.Protocol.Service.{CatchUpStatus}
use synclog.Protocol.Gateway.{
  GatewayEvent, GatewayBatch, GatewaySnapshot, GatewayCatchUpRequest, GatewayCatchUpResult,
  GatewayGetLatestSnapshotRequest,
}
use synclog.Target.{TargetBindingKey}
use synclog.Store.{DecodedGatewayEvent, DecodedGatewaySnapshot, ProjectionStore}
use synclog.Transport.{SyncGatewayTransport}
use synclog.Client.{
  SyncProjection, SyncBinding, SyncClient, SyncCatchUpSummary, max_seq, select_result, ack, key_of,
}

-- What a round of a loop decides: to go round again, or to return.
pub data Round (A : Type 0) : Type 0 where
  again stop : A → Round A

pub record AppliedBatch : Type 0 where
  pub count : ℕ
  pub seq : ℕ

-- What the `map` over a batch's events makes of one.
abbrev pub decoded_event : {TEvent : Type 0} → GatewayEvent → TEvent → DecodedGatewayEvent TEvent
decoded_event event value = record {
  seq = event.seq;
  payload_type = event.payload_type;
  payload_version = event.payload_version;
  raw = event;
  value = value;
}

module _ {TSnapshot TEvent : Type 0} where
  -- The `map` over a batch's events, up to the first that does not decode.
  unfoldable pub decode_events :
      SyncProjection TSnapshot TEvent
      → List GatewayEvent
      → Outcome (List (DecodedGatewayEvent TEvent))
  decode_events projection [] = ok []
  decode_events projection (event ∷ events) =
      let rest = decode_events projection events in
      and_then (projection.decode_event event)
        λ value. and_then rest λ decoded. ok (decoded_event event value ∷ decoded)

-- The summary that `catchUp` starts from.
abbrev pub no_progress : SyncCatchUpSummary
no_progress = record { applied_events = 0; applied_snapshots = 0; acked_seq = 0 }

module _ {W TSnapshot TEvent : Type 0} (client : SyncClient W)
    (binding : SyncBinding W TSnapshot TEvent) where
  unfoldable pub snapshot_request : GatewayGetLatestSnapshotRequest
  snapshot_request = record {
    subscriber_id = client.subscriber_id;
    target = some binding.target;
    payload_type = binding.projection.snapshot_type;
    max_payload_version = coalesce binding.projection.max_snapshot_version 0;
    binding_key = coalesce binding.binding_key "";
  }

  unfoldable pub decoded_snapshot : GatewaySnapshot → TSnapshot → DecodedGatewaySnapshot TSnapshot
  decoded_snapshot snapshot value = record {
    seq = snapshot.seq;
    payload_type = snapshot.payload_type;
    payload_version = snapshot.payload_version;
    raw = snapshot;
    value = value;
  }

  -- `#recoverFromSnapshot` once the gateway has answered.
  unfoldable pub use_snapshot : Option GatewaySnapshot → Io W ℕ
  unfolding decoded_snapshot
  use_snapshot none = throw no_compatible_snapshot
  use_snapshot (some snapshot) = do
    let key = key_of client binding (some snapshot.binding_key)
    value ← lift (binding.projection.decode_snapshot snapshot.payload snapshot.payload_version)
    binding.store.apply_snapshot key (decoded_snapshot snapshot value)
    ack client key snapshot.seq
    pure snapshot.seq

  unfoldable pub recover_from_snapshot : Io W ℕ
  unfolding use_snapshot snapshot_request
  recover_from_snapshot = do
    response ← client.transport.get_latest_snapshot snapshot_request
    use_snapshot response.snapshot

  -- The guarded call of `applyEvents`.
  apply_if_any : TargetBindingKey → List (DecodedGatewayEvent TEvent) → Io W (Unit {0})
  apply_if_any key [] = pure tt
  apply_if_any key (e ∷ es) = binding.store.apply_events key (e ∷ es)

  -- The end of `#applyBatch`. The seq that is acked is the one that the store reached, never that
  -- of the batch.
  unfoldable pub ack_reached : TargetBindingKey → ℕ → Io W AppliedBatch
  ack_reached key count = do
    acked_seq ← binding.store.get_applied_seq key
    ack client key acked_seq
    pure (record { count = count; seq = acked_seq })

  -- `#applyBatch` from the decoded events on.
  unfoldable pub apply_decoded :
      TargetBindingKey → List (DecodedGatewayEvent TEvent) → Io W AppliedBatch
  unfolding apply_if_any
  apply_decoded key events = do apply_if_any key events; ack_reached key (length events)

  unfoldable pub apply_batch : GatewayBatch → Io W AppliedBatch
  apply_batch batch = do
    let key = key_of client binding (some batch.binding_key)
    applied_seq ← binding.store.get_applied_seq key
    events ← lift (
        decode_events binding.projection (filter (λ event. ltb applied_seq event.seq) batch.events))
    apply_decoded key events

  unfoldable pub catch_up_request : GatewayCatchUpRequest
  catch_up_request = record {
    subscriber_id = client.subscriber_id;
    targets = binding.target ∷ [];
    limit_per_target = coalesce binding.limit_per_target client.batch_limit_per_target;
    total_limit_per_target = coalesce binding.total_limit_per_target 0;
  }

  unfoldable pub with_batch : SyncCatchUpSummary → AppliedBatch → SyncCatchUpSummary
  with_batch summary applied = record summary {
    applied_events = summary.applied_events + applied.count;
    acked_seq = max_seq summary.acked_seq applied.seq;
  }

  unfoldable pub with_snapshot : SyncCatchUpSummary → ℕ → SyncCatchUpSummary
  with_snapshot summary seq = record summary {
    applied_snapshots = summary.applied_snapshots + 1;
    acked_seq = max_seq summary.acked_seq seq;
  }

  -- The rest of a round whose status is OK.
  unfoldable pub on_batch :
      SyncCatchUpSummary → Option GatewayBatch → Io W (Round SyncCatchUpSummary)
  unfolding with_batch
  on_batch summary none = pure (stop summary)
  on_batch summary (some batch) = if is_empty batch.events then pure (stop summary) else do
    applied ← apply_batch batch
    pure (
        if batch.final
        then stop (with_batch summary applied)
        else again (with_batch summary applied))

  unfoldable pub on_status :
      SyncCatchUpSummary → CatchUpStatus → Option GatewayBatch → Io W (Round SyncCatchUpSummary)
  unfolding on_batch with_snapshot
  on_status summary CatchUpStatus.too_long batch = do
    seq ← recover_from_snapshot
    pure (again (with_snapshot summary seq))
  on_status summary CatchUpStatus.ok batch = on_batch summary batch
  on_status summary CatchUpStatus.none batch = pure (stop summary)

  unfoldable pub on_result :
      SyncCatchUpSummary → Option GatewayCatchUpResult → Io W (Round SyncCatchUpSummary)
  unfolding on_status
  on_result summary none = pure (stop summary)
  on_result summary (some result) = on_status summary result.status result.batch

  -- One round of the loop of `catchUp`.
  unfoldable pub catch_up_round : SyncCatchUpSummary → Io W (Round SyncCatchUpSummary)
  unfolding on_result catch_up_request
  catch_up_round summary = do
    response ← client.transport.catch_up catch_up_request
    result ← lift (select_result response.results binding.binding_key)
    on_result summary result

  unfoldable pub catch_up_loop : ℕ → SyncCatchUpSummary → Io W SyncCatchUpSummary
  catch_up_loop zero summary w = (running, w)
  catch_up_loop (suc fuel) summary w =
      (catch_up_round summary >>= λ r. elim r [
        | stop result ↦ pure result
        | again next ↦ catch_up_loop fuel next
      ])
        w

  unfoldable pub catch_up : ℕ → Io W SyncCatchUpSummary
  unfolding catch_up_loop
  catch_up fuel = catch_up_loop fuel no_progress
