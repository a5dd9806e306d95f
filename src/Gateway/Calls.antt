-- ===== src/Gateway/Calls.antt =====
-- pkg/gateway/engine.go: the calls about one target, GatewayAck and GatewayGetLatestSnapshot.
use synclog.Prelude.{String, List, Option, none, some, ◌==◌, if◌then◌else◌}
use synclog.Protocol.Snapshot.{Snapshot, SnapshotRef, GetLatestSnapshotResponse}
use synclog.Protocol.Gateway.{
  SyncTarget, GatewayAckRequest, GatewayAckResponse, GatewayGetLatestSnapshotRequest,
  GatewayGetLatestSnapshotResponse, GatewaySnapshot,
}
use synclog.Log.Result.{Op, return, invalid, not_nil, from_result, ◌>>=◌, ◌>>◌}
use synclog.Log.Storage.{SnapshotStore}
use synclog.Log.Engine as Log
use synclog.Gateway.Types.{StreamBinding, Operation}
use synclog.Gateway.Bindings.{
  validate_target, resolve_bindings, select_binding, require_allowed_type,
}
use synclog.Gateway.State.{target_state}
use synclog.Gateway.Batch.{Asking, auth_request}
use synclog.Gateway.Engine.{Engine, resolve_subscriber}

unfoldable pub gateway_snapshot :
    SyncTarget → StreamBinding → SnapshotRef → Snapshot → GatewaySnapshot
gateway_snapshot target binding ref snapshot = record {
  target = some target;
  seq = ref.seq;
  payload = snapshot.payload;
  payload_type = ref.payload_type;
  payload_version = ref.payload_version;
  compression = ref.compression;
  checksum = ref.checksum;
  binding_key = binding.binding_key;
}

abbrev pub ref_of : Option Snapshot → Option SnapshotRef
ref_of none = none
ref_of (some snapshot) = snapshot.ref

module _ {S Actor : Type 0} (e : Engine S Actor) where
  -- The subscriber, the target checked, its bindings, the authorization, and only then the binding.
  unfoldable pub selected :
      Asking Actor → String → String → Op S (List StreamBinding × StreamBinding)
  unfolding resolve_bindings select_binding
  selected ask payload_type binding_key =
      resolve_bindings e.hooks ask.actor ask.target >>= λ bindings.
      (e.hooks.authorize (auth_request ask payload_type)
        >> (from_result (select_binding bindings binding_key) >>= λ binding.
            return (bindings, binding)))

  -- GatewayAck once the binding is known.
  unfoldable pub ack_binding :
      Asking Actor
      → GatewayAckRequest
      → List StreamBinding × StreamBinding
      → Op S GatewayAckResponse
  unfolding target_state Log.ack
  ack_binding ask req (bindings, binding) =
      Log.ack e.core (record {
        subscriber_id = ask.subscriber_id;
        stream_id = binding.stream_id;
        seq = req.seq;
        metadata = req.metadata;
      })
      >> (target_state e.core ask.subscriber_id ask.target bindings >>= λ state.
          return (record { state = some state }))

  unfoldable pub gateway_ack : Actor → Option GatewayAckRequest → Op S GatewayAckResponse
  unfolding resolve_subscriber validate_target selected ack_binding
  gateway_ack actor request = not_nil "ack request is required" request λ req.
      resolve_subscriber e actor req.subscriber_id >>= λ subscriber_id.
      not_nil "target is required" req.target λ target.
        let ask : Asking Actor = record {
          actor = actor;
          operation = Operation.ack;
          target = target;
          subscriber_id = subscriber_id;
        } in
        validate_target target >> (selected ask "" req.binding_key >>= ack_binding ask req)

  -- The answer made of what the snapshot store found.
  unfoldable pub snapshot_answer :
      Asking Actor
      → List StreamBinding × StreamBinding
      → GetLatestSnapshotResponse
      → Op S GatewayGetLatestSnapshotResponse
  unfolding target_state gateway_snapshot
  snapshot_answer ask (bindings, binding) found =
      not_nil "snapshot ref is required" (ref_of found.snapshot) λ ref.
        not_nil "snapshot ref is required" found.snapshot λ snapshot.
          if e.hooks.can_decode ref.payload_type ref.payload_version
          then (target_state e.core ask.subscriber_id ask.target bindings >>= λ state.
              return (record {
                snapshot = some (gateway_snapshot ask.target binding ref snapshot);
                state = some state;
              }))
          else invalid "no codec for snapshot type"

  -- GatewayGetLatestSnapshot once the binding is known.
  unfoldable pub snapshot_of_binding :
      SnapshotStore S
      → Asking Actor
      → GatewayGetLatestSnapshotRequest
      → List StreamBinding × StreamBinding
      → Op S GatewayGetLatestSnapshotResponse
  unfolding require_allowed_type snapshot_answer
  snapshot_of_binding snapshots ask req (bindings, binding) =
      require_allowed_type binding.snapshot_types req.payload_type "snapshot"
      >> (e.hooks.allow_snapshot ask.actor ask.target req.payload_type
          >> (snapshots.get_latest_snapshot (
                some (record {
                  stream_id = binding.stream_id;
                  payload_type = req.payload_type;
                  max_payload_version = req.max_payload_version;
                }))
              >>= snapshot_answer ask (bindings, binding)))

  unfoldable pub gateway_get_latest_snapshot :
      Actor → Option GatewayGetLatestSnapshotRequest → Op S GatewayGetLatestSnapshotResponse
  unfolding resolve_subscriber validate_target selected snapshot_of_binding
  gateway_get_latest_snapshot actor request =
      not_nil "get latest snapshot request is required" request λ req.
        not_nil "snapshot store is required" e.snapshots λ snapshots.
          resolve_subscriber e actor req.subscriber_id >>= λ subscriber_id.
          not_nil "target is required" req.target λ target.
            let ask : Asking Actor = record {
              actor = actor;
              operation = Operation.get_snapshot;
              target = target;
              subscriber_id = subscriber_id;
            } in
            validate_target target
            >> (if req.payload_type == ""
                then invalid "payload type is required"
                else selected ask req.payload_type req.binding_key
                  >>= snapshot_of_binding snapshots ask req)
