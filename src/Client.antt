-- ===== src/Client.antt =====
-- ts/synclog/src/client.ts: the client's options and requests, and the choice of a binding. The
-- steps of a sync are in the modules below.
pub mod Sync
pub mod Contract
pub mod Choice
pub mod Backoff
pub mod Subscribe
use synclog.Prelude.{
  ℕ, String, Bool, true, false, List, [], ◌∷◌, Option, none, some, ltb, leb, coalesce, truthy, find,
  length, ◌==◌, if◌then◌else◌,
}
use synclog.Io.{
  Error, subscriber_id_required, subscription_id_required, binding_key_required, Outcome, ok, err,
  Io, pure, throw, ◌>>=◌, ◌>>◌,
}
use synclog.Protocol.Gateway.{
  SyncTarget, GatewayEvent, GatewayCatchUpResult, GatewayAckRequest, ModifySubscriptionResponse,
}
use synclog.Target.{TargetBindingKey, normalize_binding_key}
use synclog.Store.{ProjectionStore}
use synclog.Transport
use synclog.Transport.{SyncGatewayTransport}

-- The product's decoders, which may throw.
pub record SyncProjection (TSnapshot TEvent : Type 0) : Type 0 where
  pub snapshot_type : String
  pub max_snapshot_version : Option ℕ
  pub decode_snapshot : List ℕ → ℕ → Outcome TSnapshot
  pub decode_event : GatewayEvent → Outcome TEvent

pub record SyncBinding (W TSnapshot TEvent : Type 0) : Type 0 where
  pub target : SyncTarget
  pub binding_key : Option String
  pub projection : SyncProjection TSnapshot TEvent
  pub store : ProjectionStore W TSnapshot TEvent
  pub limit_per_target : Option ℕ
  pub total_limit_per_target : Option ℕ
  pub subscription_id : Option String

pub record SyncClientOptions (W : Type 0) : Type 0 where
  pub subscriber_id : String
  pub transport : SyncGatewayTransport W
  pub batch_limit_per_target : Option ℕ
  pub max_in_flight_per_target : Option ℕ
  pub retry_base_delay_ms : Option ℕ
  pub retry_max_delay_ms : Option ℕ

pub record SyncClient (W : Type 0) : Type 0 where
  pub subscriber_id : String
  pub transport : SyncGatewayTransport W
  pub batch_limit_per_target : ℕ
  pub max_in_flight_per_target : ℕ
  pub retry_base_delay_ms : ℕ
  pub retry_max_delay_ms : ℕ

pub record SyncCatchUpSummary : Type 0 where
  pub applied_events : ℕ
  pub applied_snapshots : ℕ
  pub acked_seq : ℕ

-- `changes` of `modifySubscription`.
pub record Changes : Type 0 where
  pub add_targets : Option (List SyncTarget)
  pub remove_targets : Option (List SyncTarget)

unfoldable pub max_seq : ℕ → ℕ → ℕ
max_seq a b = if ltb b a then a else b

unfoldable pub matches_binding : String → Option String → Bool
matches_binding response_binding_key none = true
matches_binding response_binding_key (some requested) =
    if truthy requested then response_binding_key == requested else true

-- The part of `selectResult` for a request that names no binding.
only_result : List GatewayCatchUpResult → Outcome (Option GatewayCatchUpResult)
only_result [] = ok none
only_result (r ∷ []) = ok (some r)
only_result (r ∷ s ∷ rest) = err binding_key_required

unfoldable pub select_result :
    List GatewayCatchUpResult → Option String → Outcome (Option GatewayCatchUpResult)
unfolding only_result
select_result results none = only_result results
select_result results (some requested) =
    if truthy requested
    then ok (find (λ result. result.binding_key == requested) results)
    else only_result results

-- The request of `#ack`.
abbrev pub ack_request : TargetBindingKey → ℕ → String → GatewayAckRequest
ack_request key seq subscriber_id = record {
  subscriber_id = subscriber_id;
  target = some key.target;
  seq = seq;
  metadata = "";
  binding_key = key.binding_key;
}

module _ {W : Type 0} where
  -- The constructor.
  unfoldable pub new_sync_client : SyncClientOptions W → Outcome (SyncClient W)
  new_sync_client options =
      if truthy options.subscriber_id
      then ok (record {
        subscriber_id = options.subscriber_id;
        transport = options.transport;
        batch_limit_per_target = coalesce options.batch_limit_per_target 100;
        max_in_flight_per_target = coalesce options.max_in_flight_per_target 1000;
        retry_base_delay_ms = coalesce options.retry_base_delay_ms 500;
        retry_max_delay_ms = coalesce options.retry_max_delay_ms 30_000;
      })
      else err subscriber_id_required

  unfoldable pub open_targets : SyncClient W → List SyncTarget → Io W (Unit {0})
  open_targets client targets = do
    client.transport.«open» (record { subscriber_id = client.subscriber_id; targets = targets })
    pure tt

  unfoldable pub modify_subscription :
      SyncClient W → String → Changes → Io W ModifySubscriptionResponse
  modify_subscription client subscription_id changes =
      if truthy subscription_id
      then client.transport.modify_subscription (record {
        subscriber_id = client.subscriber_id;
        subscription_id = subscription_id;
        add_targets = coalesce changes.add_targets [];
        remove_targets = coalesce changes.remove_targets [];
      })
      else throw subscription_id_required

  unfoldable pub ack : SyncClient W → TargetBindingKey → ℕ → Io W (Unit {0})
  ack client key seq = do client.transport.ack (ack_request key seq client.subscriber_id); pure tt

-- `a ?? b` of two optional strings.
abbrev or_else : Option String → Option String → Option String
or_else none b = b
or_else (some a) b = some a

-- `#key`
unfoldable pub key_of :
    {W TSnapshot TEvent : Type 0}
    → SyncClient W
    → SyncBinding W TSnapshot TEvent
    → Option String
    → TargetBindingKey
key_of client binding response_binding_key = record {
  subscriber_id = client.subscriber_id;
  target = binding.target;
  binding_key = normalize_binding_key (or_else binding.binding_key response_binding_key);
}
