-- ===== src/Gateway/Batch.antt =====
-- pkg/gateway/engine.go: what of a batch of events leaves the gateway.
use synclog.Prelude.{String, List, [], ◌∷◌, some, if◌then◌else◌}
use synclog.Protocol.Gateway.{SyncTarget, GatewayBatch, GatewayEvent}
use synclog.Log.Types.{Event, EventBatch}
use synclog.Log.Result.{Op, return, invalid, ◌>>=◌, ◌>>◌}
use synclog.Gateway.Types.{StreamBinding, Operation, AuthRequest, Hooks}
use synclog.Gateway.Bindings.{require_allowed_type}

unfoldable pub gateway_event : SyncTarget → StreamBinding → Event → GatewayEvent
gateway_event target binding event = record {
  target = some target;
  seq = event.seq;
  payload = event.payload;
  payload_type = event.payload_type;
  payload_version = event.payload_version;
  created_at_unix_ms = event.created_at_unix_ms;
  binding_key = binding.binding_key;
}

-- A call of the gateway for a target on behalf of a subscriber.
pub record Asking (Actor : Type 0) : Type 0 where
  pub actor : Actor
  pub operation : Operation
  pub target : SyncTarget
  pub subscriber_id : String

abbrev pub auth_request : {Actor : Type 0} → Asking Actor → String → AuthRequest Actor
auth_request ask payload_type = record {
  actor = ask.actor;
  operation = ask.operation;
  target = ask.target;
  payload_type = payload_type;
  subscriber_id = ask.subscriber_id;
}

module _ {S Actor : Type 0} (hooks : Hooks S Actor) where
  -- The checks of one event, in their order.
  unfoldable pub check_event : Asking Actor → StreamBinding → Event → Op S (Unit {0})
  unfolding require_allowed_type
  check_event ask binding event =
      require_allowed_type binding.payload_types event.payload_type "payload"
      >> (hooks.authorize (auth_request ask event.payload_type)
          >> (hooks.allow_payload ask.actor ask.target event.payload_type
              >> (if hooks.can_decode event.payload_type event.payload_version
                  then return tt
                  else invalid "no codec for payload type")))

  -- The loop of gatewayBatch.
  unfoldable pub gateway_events :
      Asking Actor → StreamBinding → List Event → Op S (List GatewayEvent)
  unfolding check_event gateway_event
  gateway_events ask binding [] = return []
  gateway_events ask binding (event ∷ events) =
      let rest = gateway_events ask binding events in
      check_event ask binding event
      >> (rest >>= λ more. return (gateway_event ask.target binding event ∷ more))

  unfoldable pub gateway_batch : Asking Actor → StreamBinding → EventBatch → Op S GatewayBatch
  unfolding gateway_events
  gateway_batch ask binding batch = gateway_events ask binding batch.events >>= λ events.
      return (record {
        target = some ask.target;
        events = events;
        seq_start = batch.seq_start;
        seq = batch.seq;
        final = batch.final;
        binding_key = binding.binding_key;
      })
