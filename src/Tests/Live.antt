-- ===== src/Tests/Live.antt =====
-- A live subscription on sample frames: its first stream breaks after an event, the second brings
-- the next event and ends.
use synclog.Prelude.{
  arith, ℕ, ◌≡◌, refl, Bool, false, List, [], ◌∷◌, Option, none, some, map, ◌≢◌, ◌↔◌, ap, ◌<◌,
}
use synclog.Prelude.Int.{pos}
use synclog.Io.{Outcome, ok, err, running, thrown, Io}
use synclog.Protocol.Service.{CatchUpStatus}
use synclog.Protocol.Gateway.{GatewayBatch, GatewaySubscribeResponse}
use synclog.JsMap
use synclog.Target.{target_binding_key, normalize_binding_key}
use synclog.Memory.{get_record, get_applied_seq, record_at, apply_events}
use synclog.Memory.Growth.{AllValid-empty, AllValid, Grows}
use synclog.Transport.{Milliseconds, Runtime, SyncGatewayTransport}
use synclog.Client.{SyncClient, SyncBinding, select_result, matches_binding, ack, key_of}
use synclog.Client.Sync.{
  catch_up, catch_up_round, apply_batch, decode_events, apply_decoded, ack_reached,
}
use synclog.Client.Subscribe.{
  subscribe, subscribe_loop, run_subscription, stream_loop, handle_subscribe_response,
  unless_aborted, caught, listened,
}
use synclog.Client.Subscribe.Ends.{Lives, subscribe_iff-Lives, subscribe-ne-err}
use synclog.Session.{World, AcksApplied, client_over, stored, runtime_over, transport_over}
use synclog.Session.Safety.{subscribe-AcksApplied, subscribe-AllValid, subscribe-Grows}
use synclog.Session.Listeners.{subscribe-listeners}
use synclog.Tests.Samples.{
  Payload, tasks, key_for, batch_of, event_of, binding_of, client_of, world_of,
}

-- What the gateway sends: frames, and a break of the connection.
data Sent : Type 0 where
  frame : GatewaySubscribeResponse → Sent
  broken : Sent

abbrev next_frame : Io (List Sent) (Option GatewaySubscribeResponse)
next_frame [] = (ok none, [])
next_frame (frame r ∷ rest) = (ok (some r), rest)
next_frame (broken ∷ rest) = (err (thrown "broken"), rest)

abbrev live_transport : SyncGatewayTransport (List Sent)
live_transport = record {
  «open» = λ r s. (ok (record { targets = [] }), s);
  catch_up = λ r s. (ok (record { results = [] }), s);
  ack = λ r s. (ok (record { state = none }), s);
  get_latest_snapshot = λ r s. (ok (record { snapshot = none; state = none }), s);
  modify_subscription = λ r s. (err (thrown "no subscription"), s);
  subscribe = λ r s. (ok (record { next = next_frame; close = λ t. t }), s);
}

abbrev frame_of : GatewayBatch → Sent
frame_of batch = frame (record {
  status = CatchUpStatus.ok;
  batch = some batch;
  state = none;
  heartbeat = false;
  server_time_unix_ms = pos 0;
  binding_key = "default";
})

abbrev sent : List Sent
sent =
    frame_of (batch_of (event_of 1 (10 ∷ []) ∷ []) 1)
    ∷ broken
    ∷ frame_of (batch_of (event_of 1 (10 ∷ []) ∷ event_of 2 (20 ∷ []) ∷ []) 2)
    ∷ []

abbrev Live : Type 0
Live = World (List Sent) Payload Payload

-- The signal is never aborted, and a wait takes no notice of its delay.
abbrev never : List Sent → Bool
never s = false

abbrev no_wait : Milliseconds → List Sent → List Sent
no_wait ms s = s

abbrev runtime : Runtime Live
runtime = runtime_over never no_wait

abbrev live_client : SyncClient Live
live_client = client_over live_transport (client_of (transport_over live_transport))

abbrev live_binding : SyncBinding Live Payload Payload
live_binding = stored (binding_of (some "default"))

abbrev start : Live
start = world_of sent

abbrev run : Outcome (Unit {0}) × Live
run = subscribe runtime live_client live_binding 5 start

-- Both events are in the record, and each was acked, the last one first.
retried_after_break :
    Path
      (Outcome (Unit {0}) × List Payload × List ℕ)
      (
        run.0,
        map (λ e. e.value) (get_record (key_for tasks "default") run.1.store).events,
        map (λ a. a.seq) run.1.acks,
      )
      (ok tt, (10 ∷ []) ∷ (20 ∷ []) ∷ [], 2 ∷ 1 ∷ [])
unfolding subscribe subscribe_loop run_subscription stream_loop handle_subscribe_response
    unless_aborted caught listened catch_up catch_up_round select_result matches_binding apply_batch
    decode_events apply_decoded ack_reached ack key_of get_applied_seq record_at apply_events
    get_record target_binding_key normalize_binding_key JsMap.get JsMap.set JsMap.empty
retried_after_break = refl

run_ends : run.0 ≢ running
run_ends = cc (ap (λ t. t.0) retried_after_break)

subscribe-AcksApplied_example : AcksApplied run.1
subscribe-AcksApplied_example =
    subscribe-AcksApplied live_transport live_client live_binding 5 never no_wait start tt

subscribe-AllValid_example : AllValid run.1.store
subscribe-AllValid_example =
    subscribe-AllValid live_transport live_client live_binding 5 never no_wait start tt
      AllValid-empty

subscribe-Grows_example : Grows start.store run.1.store
subscribe-Grows_example =
    subscribe-Grows live_transport live_client live_binding 5 never no_wait start tt

-- The page has a listener of its own on the signal.
abbrev heard : Live
heard = record start { listeners = 7 ∷ []; functions = 9 }

abbrev heard_run : Outcome (Unit {0}) × Live
heard_run = subscribe runtime live_client live_binding 5 heard

heard_run_ok : heard_run.0 ≡ ok tt
unfolding subscribe subscribe_loop run_subscription stream_loop handle_subscribe_response
    unless_aborted caught listened catch_up catch_up_round select_result matches_binding apply_batch
    decode_events apply_decoded ack_reached ack key_of get_applied_seq record_at apply_events
    get_record target_binding_key normalize_binding_key JsMap.get JsMap.set JsMap.empty
heard_run_ok = refl

subscribe-listeners_example : heard_run.1.listeners ≡ 7 ∷ []
subscribe-listeners_example =
    subscribe-listeners live_transport live_client live_binding never no_wait 5 heard
      (omega arith, tt) (cc heard_run_ok)

subscribe_iff-Lives_example :
    (run ≡ (ok tt, run.1))
    ↔ ((n : ℕ) × (n < 5) × Lives runtime live_client live_binding 5 0 start run.1 n)
subscribe_iff-Lives_example = subscribe_iff-Lives runtime live_client live_binding 5 start run.1

subscribe-ne-err_example : run.0 ≢ err (thrown "broken")
subscribe-ne-err_example =
    subscribe-ne-err runtime live_client live_binding 5 start (thrown "broken")
