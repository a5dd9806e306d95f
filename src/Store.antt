-- ===== src/Store.antt =====
-- ts/synclog/src/store.ts: what a product's projection store is given, and what it offers.
use synclog.Prelude.{ℕ, String, List, Option}
use synclog.Protocol.Gateway.{SyncTarget, GatewayEvent, GatewaySnapshot}
use synclog.Target.{TargetBindingKey}
use synclog.Io.{Io}

pub record DecodedGatewayEvent {ℓ} (TEvent : Type ℓ) : Type ℓ where
  pub seq : ℕ
  pub payload_type : String
  pub payload_version : ℕ
  pub raw : GatewayEvent
  pub value : TEvent

pub record DecodedGatewaySnapshot {ℓ} (TSnapshot : Type ℓ) : Type ℓ where
  pub seq : ℕ
  pub payload_type : String
  pub payload_version : ℕ
  pub raw : GatewaySnapshot
  pub value : TSnapshot

-- The methods of the interface, each on the world `W` that holds the store.
pub record ProjectionStore (W TSnapshot TEvent : Type 0) : Type 0 where
  pub get_applied_seq : TargetBindingKey → Io W ℕ
  pub apply_snapshot : TargetBindingKey → DecodedGatewaySnapshot TSnapshot → Io W (Unit {0})
  pub apply_events : TargetBindingKey → List (DecodedGatewayEvent TEvent) → Io W (Unit {0})
  pub clear_target : Option (SyncTarget → Io W (Unit {0}))
