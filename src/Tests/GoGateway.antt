-- ===== src/Tests/GoGateway.antt =====
-- The gateway of pkg/gateway on sample data: two bindings of one target, and hooks that allow
-- everything or refuse everything.
use synclog.Prelude.{◌≡◌, refl, String, true, List, [], ◌∷◌, map, some, none, All}
use synclog.GoMap.{get, set, make}
use synclog.Protocol.Gateway.{
  SyncTarget, GatewayBatch, GatewayAckRequest, TargetState, TargetRejection,
}
use synclog.Log.Types.{EventBatch}
use synclog.Log.Result.{done, failed, Failure, return, fail, err_access_denied}
use synclog.Storage.{Store}
use synclog.Storage.Backend.{engine}
use synclog.Gateway.Types.{StreamBinding, Operation, Hooks}
use synclog.Gateway.Bindings.{
  keyed, cons_binding, check_bindings, checked_bindings, select_binding, require_allowed_type,
  is_allowed,
}
use synclog.Gateway.Selecting.{Named, select_binding-checked}
use synclog.Gateway.Batch.{Asking, gateway_batch, gateway_events, gateway_event, check_event}
use synclog.Gateway.Passing.{Permitted, gateway_batch-Permitted}
use synclog.Gateway.Engine.{Engine, resolve_subscriber, resolve_subscribe_targets}
use synclog.Gateway.Calls.{gateway_ack}
use synclog.Gateway.Answers.{gateway_ack-refused}
use synclog.Gateway.Adding.{Answered, resolve_subscribe_targets-Answered}
use synclog.Tests.GoSamples.{now, two_events, sample_store, subscriber}

abbrev draft : StreamBinding
draft = record { binding_key = "draft"; stream_id = "d"; payload_types = []; snapshot_types = [] }

abbrev live : StreamBinding
live = record {
  binding_key = "live";
  stream_id = "s";
  payload_types = "note" ∷ [];
  snapshot_types = [];
}

abbrev both : List StreamBinding
both = draft ∷ live ∷ []

both_checked : checked_bindings both ≡ done both
unfolding checked_bindings check_bindings keyed cons_binding get set make
both_checked = refl

select_binding-checked_example :
    All (λ b. Named b × (select_binding both b.binding_key ≡ done b)) both
select_binding-checked_example = select_binding-checked both both both_checked

abbrev pub target : SyncTarget
target = record { namespace = "notes"; id = "1"; view = "" }

-- Everything is allowed, and every target has both bindings.
abbrev open_hooks : Hooks Store String
open_hooks = record {
  resolve_subscriber = λ actor requested. return requested;
  resolve_target = λ actor t. return (record { target = some t; bindings = both });
  authorize = λ r. return tt;
  allow_payload = λ actor t type. return tt;
  allow_snapshot = λ actor t type. return tt;
  can_decode = λ type version. true;
}

abbrev asking : Asking String
asking = record {
  actor = "a";
  operation = Operation.catch_up;
  target = target;
  subscriber_id = "reader";
}

abbrev log_batch : EventBatch
log_batch = record { events = two_events; seq_start = 1; seq = 2; final = true }

abbrev sent_batch : GatewayBatch
sent_batch = record {
  target = some target;
  events = map (gateway_event target live) two_events;
  seq_start = 1;
  seq = 2;
  final = true;
  binding_key = "live";
}

batch_sent :
    gateway_batch open_hooks asking live log_batch sample_store ≡ (done sent_batch, sample_store)
unfolding gateway_batch gateway_events check_event require_allowed_type is_allowed
batch_sent = refl

gateway_batch-Permitted_example :
    (sent_batch.events ≡ map (gateway_event target live) two_events)
    × (sent_batch.seq_start ≡ 1)
    × (sent_batch.seq ≡ 2)
    × (sent_batch.final ≡ true)
    × (sent_batch.binding_key ≡ live.binding_key)
    × All (Permitted open_hooks asking live) sent_batch.events
gateway_batch-Permitted_example =
    gateway_batch-Permitted open_hooks asking live log_batch sample_store sample_store sent_batch
      batch_sent

abbrev pub open_gateway : Engine Store String
open_gateway = record { core = engine now; snapshots = none; hooks = open_hooks }

abbrev pub actor : String
actor = "a"

subscriber_resolved :
    resolve_subscriber open_gateway actor subscriber sample_store ≡ (done subscriber, sample_store)
unfolding resolve_subscriber
subscriber_resolved = refl

-- A target without a namespace, behind one that resolves.
abbrev nameless : SyncTarget
nameless = record { namespace = ""; id = "1"; view = "" }

resolve_subscribe_targets-Answered_example :
    (states : List TargetState) × (rejections : List TargetRejection) × (s' : Store)
    × (resolve_subscribe_targets open_gateway actor subscriber (target ∷ nameless ∷ []) sample_store
        ≡ (done (states, rejections), s'))
    × Answered open_gateway actor subscriber sample_store
        (target ∷ nameless ∷ [])
        states
        rejections
        s'
resolve_subscribe_targets-Answered_example =
    resolve_subscribe_targets-Answered open_gateway actor subscriber subscriber
      (target ∷ nameless ∷ []) sample_store sample_store subscriber_resolved

abbrev closed_gateway : Engine Store String
closed_gateway = record {
  core = engine now;
  snapshots = none;
  hooks = record open_hooks { authorize = λ r. fail err_access_denied };
}

abbrev ack_live : GatewayAckRequest
ack_live = record {
  subscriber_id = "reader";
  target = some target;
  seq = 2;
  metadata = "";
  binding_key = "live";
}

abbrev wrong_key : String
wrong_key = "unknown"

gateway_ack-refused_example :
    (gateway_ack closed_gateway actor (some ack_live) sample_store
      ≡ gateway_ack closed_gateway actor
          (some (record ack_live { binding_key = wrong_key }))
          sample_store)
    × ((e : Failure) × ((gateway_ack closed_gateway actor (some ack_live) sample_store).0
          ≡ failed e))
gateway_ack-refused_example =
    gateway_ack-refused closed_gateway actor ack_live wrong_key sample_store
      (λ r s. (err_access_denied, s, refl))
