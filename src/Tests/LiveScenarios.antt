-- ===== src/Tests/LiveScenarios.antt =====
-- The two live tests of ts/synclog/test/memory-sync.test.ts, run.
use synclog.Prelude.{
  ℕ, ◌≡◌, refl, Bool, true, false, String, List, [], ◌∷◌, Option, none, some, map,
}
use synclog.Prelude.Int.{pos}
use synclog.Io.{Outcome, ok, err, running}
use synclog.JsMap
use synclog.Protocol.Service.{CatchUpStatus}
use synclog.Protocol.Gateway.{GatewaySubscribeResponse, ModifySubscriptionRequest}
use synclog.Target.{target_binding_key, normalize_binding_key}
use synclog.Memory.{get_record, get_applied_seq, record_at, apply_events}
use synclog.Client.{
  SyncClient, SyncBinding, select_result, matches_binding, ack, key_of, modify_subscription,
}
use synclog.Client.Sync.{
  catch_up, catch_up_round, apply_batch, decode_events, apply_decoded, ack_reached,
}
use synclog.Client.Subscribe.{
  subscribe, subscribe_loop, run_subscription, stream_loop, handle_subscribe_response,
  unless_aborted, caught, listened,
}
use synclog.Fake.{LiveState, live_transport}
use synclog.Session.{World, runtime_over, transport_over}
use synclog.Tests.Samples.{
  Payload, tasks, other_tasks, key_for, batch_of, event_of, binding_of, client_of, world_of,
}

abbrev live_batch : GatewaySubscribeResponse
live_batch = record {
  status = CatchUpStatus.ok;
  batch = some (batch_of (event_of 1 (10 ∷ []) ∷ []) 1);
  state = none;
  heartbeat = false;
  server_time_unix_ms = pos 0;
  binding_key = "default";
}

abbrev sending : List GatewaySubscribeResponse → LiveState
sending responses = record {
  responses = responses;
  acks = [];
  modifies = [];
  last_subscribe_req = none;
  subscribe_aborted = false;
}

abbrev LiveWorld : Type 0
LiveWorld = World LiveState Payload Payload

abbrev live_client : SyncClient LiveWorld
live_client = client_of (transport_over live_transport)

-- The binding, with the subscription id of the second test.
abbrev addressed : SyncBinding LiveWorld Payload Payload
addressed = record (binding_of none) { subscription_id = some "live:1" }

-- What `done` comes to, the record's applied seq and values, the seqs that were acked, the id that
-- the stream was opened with, and whether the stop reached the stream.
abbrev Report : Type 0
Report = Outcome (Unit {0}) × ℕ × List Payload × List ℕ × Option String × Bool

report : LiveState → Report
unfolding subscribe subscribe_loop run_subscription stream_loop handle_subscribe_response
    unless_aborted caught listened catch_up catch_up_round select_result matches_binding apply_batch
    decode_events apply_decoded ack_reached ack key_of get_applied_seq record_at apply_events
    get_record target_binding_key normalize_binding_key JsMap.get JsMap.set JsMap.empty
report net =
    let (result, w) =
      subscribe (runtime_over (λ n. n.subscribe_aborted) (λ ms n. n)) live_client addressed 5
        (world_of net) in
    let r = get_record (key_for tasks "default") w.store in
    (
      result,
      r.applied_seq,
      map (λ e. e.value) r.events,
      map (λ a. a.seq) w.net.acks,
      elim w.net.last_subscribe_req [ none ↦ none | some q ↦ some q.subscription_id ],
      w.net.subscribe_aborted,
    )

live_events_applied_and_stopped :
    report (sending (live_batch ∷ [])) ≡ (ok tt, 1, (10 ∷ []) ∷ [], 1 ∷ [], some "live:1", true)
unfolding report
live_events_applied_and_stopped = refl

-- The requests that `modifySubscription` forwards, and its result.
forwarded : String → Bool × List ModifySubscriptionRequest
unfolding modify_subscription
forwarded id =
    let (result, w) =
      modify_subscription live_client id
        (record { add_targets = some (other_tasks ∷ []); remove_targets = none })
        (world_of (sending [])) in
    (elim result [ ok r ↦ true | err e ↦ false | running ↦ false ], w.net.modifies)

targets_forwarded : forwarded "live:1" ≡ (
  true,
  record {
    subscriber_id = "sub:1";
    subscription_id = "live:1";
    add_targets = other_tasks ∷ [];
    remove_targets = [];
  }
      ∷ [],
)
unfolding forwarded
targets_forwarded = refl

empty_id_refused : forwarded "" ≡ (false, [])
unfolding forwarded
empty_id_refused = refl
