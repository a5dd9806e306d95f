-- ===== src/Tests/Samples.antt =====
-- A product whose snapshots and events are their payloads: an empty payload does not decode.
use synclog.Prelude.{ℕ, true, String, List, [], ◌∷◌, Option, none, some}
use synclog.Prelude.Int.{pos}
use synclog.Io.{Outcome, ok, err, thrown}
use synclog.Protocol.Service.{CatchUpStatus}
use synclog.Protocol.Snapshot.{SnapshotCompression}
use synclog.Protocol.Gateway.{
  SyncTarget, GatewayEvent, GatewayBatch, GatewaySnapshot, GatewayCatchUpResult,
  GatewayCatchUpResponse, GatewayGetLatestSnapshotResponse,
}
use synclog.Target.{TargetBindingKey}
use synclog.Store.{DecodedGatewayEvent, DecodedGatewaySnapshot}
use synclog.Memory.{empty_store}
use synclog.Transport.{SyncGatewayTransport}
use synclog.Client.{SyncProjection, SyncBinding, SyncClient}
use synclog.Fake.{FakeState, fake_transport}
use synclog.Session.{World, memory_store, transport_over}

abbrev pub Payload : Type 0
Payload = List ℕ

abbrev pub tasks : SyncTarget
tasks = record { namespace = "project_tasks"; id = "777"; view = "default" }

abbrev pub other_tasks : SyncTarget
other_tasks = record { namespace = "project_tasks"; id = "77"; view = "default" }

abbrev pub key_for : SyncTarget → String → TargetBindingKey
key_for target binding_key = record {
  subscriber_id = "sub:1";
  target = target;
  binding_key = binding_key;
}

abbrev pub decode : List ℕ → Outcome Payload
decode [] = err (thrown "empty payload")
decode (b ∷ bytes) = ok (b ∷ bytes)

abbrev pub payloads : SyncProjection Payload Payload
payloads = record {
  snapshot_type = "project_tasks.snapshot";
  max_snapshot_version = none;
  decode_snapshot = λ bytes version. decode bytes;
  decode_event = λ event. decode event.payload;
}

abbrev pub event_of : ℕ → List ℕ → GatewayEvent
event_of seq payload = record {
  target = some tasks;
  seq = seq;
  payload = payload;
  payload_type = "project_tasks.event";
  payload_version = 1;
  created_at_unix_ms = pos 0;
  binding_key = "default";
}

abbrev pub batch_of : List GatewayEvent → ℕ → GatewayBatch
batch_of events seq = record {
  target = some tasks;
  events = events;
  seq_start = 1;
  seq = seq;
  final = true;
  binding_key = "default";
}

abbrev pub snapshot_of : ℕ → List ℕ → GatewaySnapshot
snapshot_of seq payload = record {
  target = some tasks;
  seq = seq;
  payload = payload;
  payload_type = "project_tasks.snapshot";
  payload_version = 1;
  compression = SnapshotCompression.none;
  checksum = "sha256:test";
  binding_key = "default";
}

abbrev pub decoded_event_of : ℕ → List ℕ → DecodedGatewayEvent Payload
decoded_event_of seq payload = record {
  seq = seq;
  payload_type = "project_tasks.event";
  payload_version = 1;
  raw = event_of seq payload;
  value = payload;
}

abbrev pub decoded_snapshot_of : ℕ → List ℕ → DecodedGatewaySnapshot Payload
decoded_snapshot_of seq payload = record {
  seq = seq;
  payload_type = "project_tasks.snapshot";
  payload_version = 1;
  raw = snapshot_of seq payload;
  value = payload;
}

abbrev pub result_of : String → CatchUpStatus → Option GatewayBatch → GatewayCatchUpResult
result_of binding_key status batch = record {
  target = some tasks;
  status = status;
  batch = batch;
  state = none;
  binding_key = binding_key;
}

abbrev pub answer_of : CatchUpStatus → Option GatewayBatch → GatewayCatchUpResponse
answer_of status batch = record { results = result_of "default" status batch ∷ [] }

abbrev pub offer_of : ℕ → List ℕ → GatewayGetLatestSnapshotResponse
offer_of seq payload = record { snapshot = some (snapshot_of seq payload); state = none }

-- The test's gateway: no answer, the two events of the first test, and the overrun of the second.
abbrev pub quiet : FakeState
quiet = record { catch_ups = []; snapshot = none }

abbrev pub two_events : FakeState
two_events = record {
  catch_ups =
      answer_of CatchUpStatus.ok
        (some (batch_of (event_of 1 (10 ∷ []) ∷ event_of 2 (20 ∷ []) ∷ []) 2))
      ∷ [];
  snapshot = none;
}

abbrev pub overrun : FakeState
overrun = record {
  catch_ups =
      answer_of CatchUpStatus.too_long none
      ∷ answer_of CatchUpStatus.ok (some (batch_of (event_of 4 (40 ∷ []) ∷ []) 4))
      ∷ [];
  snapshot = some (offer_of 3 (30 ∷ []));
}

abbrev pub world_of : {N : Type 0} → N → World N Payload Payload
world_of net = record { store = empty_store; net = net; acks = []; listeners = []; functions = 0 }

abbrev pub client_of : {W : Type 0} → SyncGatewayTransport W → SyncClient W
client_of transport = record {
  subscriber_id = "sub:1";
  transport = transport;
  batch_limit_per_target = 100;
  max_in_flight_per_target = 1_000;
  retry_base_delay_ms = 500;
  retry_max_delay_ms = 30_000;
}

abbrev pub binding_of :
    {N : Type 0} → Option String → SyncBinding (World N Payload Payload) Payload Payload
binding_of binding_key = record {
  target = tasks;
  binding_key = binding_key;
  projection = payloads;
  store = memory_store;
  limit_per_target = none;
  total_limit_per_target = none;
  subscription_id = none;
}

-- The client of the tests.
abbrev pub fake_client : SyncClient (World FakeState Payload Payload)
fake_client = client_of (transport_over fake_transport)
