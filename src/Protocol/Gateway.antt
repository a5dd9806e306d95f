-- ===== src/Protocol/Gateway.antt =====
-- ts/synclog/src/proto/synclog/v1/gateway_pb.ts: the messages of the public gateway surface, the one that the SDK speaks.
use synclog.Prelude.{Bool, List, Option, String, ℕ}
use synclog.Prelude.Int.{ℤ}
use synclog.Protocol.Service.{CatchUpStatus}
use synclog.Protocol.Snapshot.{SnapshotCompression}

pub record SyncTarget : Type 0 where
  pub namespace : String
  pub id : String
  pub view : String

pub record TargetBindingState : Type 0 where
  pub binding_key : String
  pub cursor_seq : ℕ
  pub head_seq : ℕ
  pub retained_seq_start : ℕ

pub record TargetState : Type 0 where
  pub target : Option SyncTarget
  pub cursor_seq : ℕ
  pub head_seq : ℕ
  pub retained_seq_start : ℕ
  pub bindings : List TargetBindingState

pub record GatewayEvent : Type 0 where
  pub target : Option SyncTarget
  pub seq : ℕ
  pub payload : List ℕ
  pub payload_type : String
  pub payload_version : ℕ
  pub created_at_unix_ms : ℤ
  pub binding_key : String

pub record GatewayBatch : Type 0 where
  pub target : Option SyncTarget
  pub events : List GatewayEvent
  pub seq_start : ℕ
  pub seq : ℕ
  pub final : Bool
  pub binding_key : String

pub record GatewaySnapshot : Type 0 where
  pub target : Option SyncTarget
  pub seq : ℕ
  pub payload : List ℕ
  pub payload_type : String
  pub payload_version : ℕ
  pub compression : SnapshotCompression
  pub checksum : String
  pub binding_key : String

pub record OpenRequest : Type 0 where
  pub subscriber_id : String
  pub targets : List SyncTarget

pub record OpenResponse : Type 0 where
  pub targets : List TargetState

pub record GatewayCatchUpRequest : Type 0 where
  pub subscriber_id : String
  pub targets : List SyncTarget
  pub limit_per_target : ℕ
  pub total_limit_per_target : ℕ

pub record GatewayCatchUpResult : Type 0 where
  pub target : Option SyncTarget
  pub status : CatchUpStatus
  pub batch : Option GatewayBatch
  pub state : Option TargetState
  pub binding_key : String

pub record GatewayCatchUpResponse : Type 0 where
  pub results : List GatewayCatchUpResult

pub record GatewaySubscribeRequest : Type 0 where
  pub subscriber_id : String
  pub targets : List SyncTarget
  pub batch_limit_per_target : ℕ
  pub max_in_flight_per_target : ℕ
  pub subscription_id : String

pub record TargetRejection : Type 0 where
  pub target : Option SyncTarget
  pub code : String
  pub message : String

pub record ModifySubscriptionRequest : Type 0 where
  pub subscriber_id : String
  pub subscription_id : String
  pub add_targets : List SyncTarget
  pub remove_targets : List SyncTarget

pub record ModifySubscriptionResponse : Type 0 where
  pub added : List TargetState
  pub rejected : List TargetRejection

pub record GatewaySubscribeResponse : Type 0 where
  pub status : CatchUpStatus
  pub batch : Option GatewayBatch
  pub state : Option TargetState
  pub heartbeat : Bool
  pub server_time_unix_ms : ℤ
  pub binding_key : String

pub record GatewayAckRequest : Type 0 where
  pub subscriber_id : String
  pub target : Option SyncTarget
  pub seq : ℕ
  pub metadata : String
  pub binding_key : String

pub record GatewayAckResponse : Type 0 where
  pub state : Option TargetState

pub record GatewayGetLatestSnapshotRequest : Type 0 where
  pub subscriber_id : String
  pub target : Option SyncTarget
  pub payload_type : String
  pub max_payload_version : ℕ
  pub binding_key : String

pub record GatewayGetLatestSnapshotResponse : Type 0 where
  pub snapshot : Option GatewaySnapshot
  pub state : Option TargetState

pub data SyncGatewayMethod : Type 0 where
  «open» gateway_catch_up gateway_subscribe modify_subscription gateway_ack
        gateway_get_latest_snapshot :
      SyncGatewayMethod

abbrev pub SyncGatewayServiceInput : SyncGatewayMethod → Type 0
SyncGatewayServiceInput «open» = OpenRequest
SyncGatewayServiceInput gateway_catch_up = GatewayCatchUpRequest
SyncGatewayServiceInput gateway_subscribe = GatewaySubscribeRequest
SyncGatewayServiceInput modify_subscription = ModifySubscriptionRequest
SyncGatewayServiceInput gateway_ack = GatewayAckRequest
SyncGatewayServiceInput gateway_get_latest_snapshot = GatewayGetLatestSnapshotRequest

abbrev pub SyncGatewayServiceOutput : SyncGatewayMethod → Type 0
SyncGatewayServiceOutput «open» = OpenResponse
SyncGatewayServiceOutput gateway_catch_up = GatewayCatchUpResponse
SyncGatewayServiceOutput gateway_subscribe = GatewaySubscribeResponse
SyncGatewayServiceOutput modify_subscription = ModifySubscriptionResponse
SyncGatewayServiceOutput gateway_ack = GatewayAckResponse
SyncGatewayServiceOutput gateway_get_latest_snapshot = GatewayGetLatestSnapshotResponse
