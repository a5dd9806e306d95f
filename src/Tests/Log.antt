-- ===== src/Tests/Log.antt =====
-- A gateway with a log whose first event is gone: it serves the others one by one, and a snapshot
-- at 1 to a cursor that is before it.
use synclog.Prelude.{
  ℕ, ◌+◌, ◌≡◌, refl, Bool, true, false, [], ◌∷◌, none, some, arith, ltb, leb, Bool-cases, inl, inr,
  if◌then◌else◌, max,
}
use synclog.Io.{ok, err, thrown}
use synclog.Protocol.Service.{CatchUpStatus}
use synclog.Protocol.Gateway.{GatewayBatch, GatewayCatchUpResult, GatewaySubscribeResponse}
use synclog.Target.{TargetBindingKey, normalize_binding_key}
use synclog.JsMap
use synclog.Memory.{get_record}
use synclog.Memory.Coverage.{Covers, Covers-empty}
use synclog.Transport.{Milliseconds, AsyncIterator, SyncGatewayTransport}
use synclog.Client.{
  SyncClient, SyncBinding, SyncProjection, SyncCatchUpSummary, key_of, select_result,
}
use synclog.Client.Sync.{catch_up}
use synclog.Session.{World, client_over, stored, transport_over, runtime_over}
use synclog.Session.Head.{ServesLog, Served, at_head, behind, too_long}
use synclog.Session.Head.Steps.{Ready}
use synclog.Session.Head.Live.{ServesFrames, news}
use synclog.Session.Head.Subscription.{ServesStreams, subscribe-Ready}
use synclog.Client.Subscribe.{subscribe}
use synclog.Prelude.Int.{pos}
use synclog.Session.Head.Reaches.{catch_up-reaches-head}
use synclog.Tests.Samples.{
  Payload, tasks, key_for, payloads, batch_of, event_of, result_of, snapshot_of, binding_of,
  client_of, world_of,
}

record Log : Type 0 where
  seq : ℕ
  top : ℕ

abbrev next_batch : Log → GatewayBatch
next_batch n = record (batch_of (event_of (n.seq + 1) (7 ∷ []) ∷ []) (n.seq + 1)) {
  final = leb n.top (n.seq + 1);
}

abbrev answer_at : Log → GatewayCatchUpResult
answer_at n =
    if ltb n.seq n.top
    then if ltb 0 n.seq
      then result_of "default" CatchUpStatus.ok (some (next_batch n))
      else result_of "default" CatchUpStatus.too_long none
    else result_of "default" CatchUpStatus.ok none

-- While a frame is awaited an event is appended, and the next one that the client wants is sent.
abbrev appended : Log → Log
appended n = record n { top = max n.top n.seq + 1 }

abbrev frame_at : Log → GatewaySubscribeResponse
frame_at n = record {
  status = CatchUpStatus.ok;
  batch = some (next_batch n);
  state = none;
  heartbeat = false;
  server_time_unix_ms = pos 0;
  binding_key = "default";
}

-- The stream ends when the log has five events.
abbrev log_stream : AsyncIterator Log
log_stream = record {
  next = λ n. if ltb n.top 5 then (ok (some (frame_at n)), appended n) else (ok none, n);
  close = λ n. n;
}

abbrev log_transport : SyncGatewayTransport Log
log_transport = record {
  «open» = λ r n. (ok (record { targets = [] }), n);
  catch_up = λ r n. (ok (record { results = answer_at n ∷ [] }), n);
  ack = λ r n. (ok (record { state = none }), record n { seq = r.seq });
  get_latest_snapshot =
      λ r n. (ok (record { snapshot = some (snapshot_of 1 (7 ∷ [])); state = none }), n);
  modify_subscription = λ r n. (err (thrown "no subscription"), n);
  subscribe = λ r n. (ok log_stream, n);
}

-- A decoder that takes every event.
abbrev raw_events : SyncProjection Payload Payload
raw_events = record payloads { decode_event = λ event. ok event.payload }

abbrev log_binding : SyncBinding (World Log Payload Payload) Payload Payload
log_binding = record (binding_of none) { projection = raw_events }

abbrev log_client : SyncClient (World Log Payload Payload)
log_client = client_of (transport_over log_transport)

abbrev key : TargetBindingKey
key = key_for tasks "default"

abbrev IsServed : Log → GatewayCatchUpResult → Type 0
IsServed = Served log_transport log_client log_binding key (λ n. n.seq) (λ n. n.top)

serves_next :
    (n : Log) (b : Bool)
    → ltb n.seq n.top ≡ true
    → ltb 0 n.seq ≡ b
    → IsServed n (
        if b
        then result_of "default" CatchUpStatus.ok (some (next_batch n))
        else result_of "default" CatchUpStatus.too_long none)
unfolding key_of normalize_binding_key
serves_next n true h k =
    behind (next_batch n) refl refl refl (refl, tt) (ground arith) (λ f. ground arith) refl
serves_next n false h k =
    too_long (record { snapshot = some (snapshot_of 1 (7 ∷ [])); state = none })
      (snapshot_of 1 (7 ∷ [])) (7 ∷ []) n refl refl refl refl (ground arith) (ground arith) refl
      refl refl

serves_answer : (n : Log) → IsServed n (answer_at n)
serves_answer n = elim (Bool-cases (ltb n.seq n.top)) [
  | inl more ↦ rw more (serves_next n (ltb 0 n.seq) more refl)
  | inr done ↦ rw done (at_head (ground arith) refl tt)
]

log-ServesLog : ServesLog log_transport log_client log_binding key (λ n. n.seq) (λ n. n.top)
unfolding select_result
log-ServesLog = record {
  catch_up = λ n. (answer_at n, n, refl, refl, refl, refl, serves_answer n);
  ack = λ n seq low high. (record { state = none }, record n { seq = seq }, refl, refl, refl);
}

-- A fresh store, and three events in the log.
abbrev start : World Log Payload Payload
start = world_of (record { seq = 0; top = 3 })

start-Ready : Ready (λ n. n.seq) (λ n. n.top) key start
unfolding get_record JsMap.get JsMap.empty
start-Ready = record {
  behind = omega arith;
  within = omega arith;
  snapshot = omega arith;
  covers = Covers-empty;
}

catch_up-reaches-head_example :
    (summary : SyncCatchUpSummary) × (v : World Log Payload Payload) × (catch_up
        (client_over log_transport log_client)
        (stored log_binding)
        4
        start
      ≡ (ok summary, v))
    × ((get_record key v.store).applied_seq ≡ 3)
    × Covers (get_record key v.store)
    × (v.net.seq ≡ 3)
    × (v.net.top ≡ 3)
catch_up-reaches-head_example =
    catch_up-reaches-head log_transport log_client log_binding key (λ n. n.seq) (λ n. n.top)
      (λ event. (event.payload, refl)) log-ServesLog 4 start start-Ready (omega arith)

abbrev never : Log → Bool
never n = false

abbrev no_wait : Milliseconds → Log → Log
no_wait ms n = n

log_stream-ServesFrames :
    ServesFrames log_transport log_client log_binding key (λ n. n.seq) (λ n. n.top) log_stream
unfolding key_of normalize_binding_key
log_stream-ServesFrames = record {
  next = λ n. elim (Bool-cases (ltb n.top 5)) [
    | inl more ↦ rw more (
      (refl, omega arith),
      news (next_batch n) n.seq refl refl (omega arith) (refl, tt) (omega arith) refl,
    )
    | inr done ↦ rw done ((refl, omega arith), tt)
  ];
}

log-ServesStreams :
    ServesStreams log_transport log_client log_binding key (λ n. n.seq) (λ n. n.top) never no_wait
log-ServesStreams = record {
  subscribe = λ fuel n. ((refl, omega arith), log_stream-ServesFrames);
  waits = λ ms n. (refl, omega arith);
}

subscribe-Ready_example :
    Ready
      (λ n. n.seq)
      (λ n. n.top)
      key
      (subscribe
        (runtime_over never no_wait)
        (client_over log_transport log_client)
        (stored log_binding)
        9
        start).1
subscribe-Ready_example =
    subscribe-Ready log_transport log_client log_binding key (λ n. n.seq) (λ n. n.top) never no_wait
      (λ event. (event.payload, refl)) log-ServesLog log-ServesStreams 9 start start-Ready
