-- ===== src/Tests/Sync.antt =====
-- Batches, snapshots and catch-ups on sample data.
use synclog.Prelude.{ℕ, ◌≡◌, refl, List, [], ◌∷◌, none, some, if◌then◌else◌}
use synclog.Io.{Outcome, ok, err, thrown}
use synclog.JsMap
use synclog.Protocol.Service.{CatchUpStatus}
use synclog.Protocol.Gateway.{GatewayBatch, GatewayCatchUpResult}
use synclog.Target.{TargetBindingKey}
use synclog.Memory.{MemorySyncRecord, empty_store, get_record, push_events, snapshot_record}
use synclog.Store.{DecodedGatewayEvent}
use synclog.Memory.Views.{same_key}
use synclog.Client.{SyncBinding, SyncClient, ack_request, key_of, select_result}
use synclog.Client.Sync.{
  AppliedBatch, apply_batch, recover_from_snapshot, decode_events, catch_up, no_progress,
}
use synclog.Fake.{FakeState, fake_transport}
use synclog.Session.{World, AcksApplied, client_over, stored}
use synclog.Session.Safety.{catch_up-AcksApplied}
use synclog.Session.Batch.{fresh, apply_batch_lem, apply_batch_undecodable}
use synclog.Session.Misfiling.{on_results, empty_key-misfiles}
use synclog.Session.Recovery.{taken, recover_from_snapshot_lem, recover_from_snapshot-fails}
use synclog.Tests.Samples.{
  Payload, event_of, batch_of, decoded_event_of, binding_of, quiet, overrun, snapshot_of, world_of,
  tasks, key_for, result_of, fake_client,
}

abbrev Fake : Type 0
Fake = World FakeState Payload Payload

abbrev client : SyncClient Fake
client = client_over fake_transport fake_client

abbrev binding : SyncBinding Fake Payload Payload
binding = stored (binding_of none)

abbrev two : GatewayBatch
two = batch_of (event_of 1 (10 ∷ []) ∷ event_of 2 (20 ∷ []) ∷ []) 2

-- The second event of this batch does not decode.
abbrev bad : GatewayBatch
bad = batch_of (event_of 1 (10 ∷ []) ∷ event_of 2 [] ∷ []) 2

catch_up-AcksApplied_example : AcksApplied (catch_up client binding 5 (world_of overrun)).1
catch_up-AcksApplied_example =
    catch_up-AcksApplied fake_transport fake_client (binding_of none) 5 (world_of overrun) tt

two_decode :
    fresh fake_transport fake_client (binding_of none) two (world_of quiet)
    ≡ ok (decoded_event_of 1 (10 ∷ []) ∷ decoded_event_of 2 (20 ∷ []) ∷ [])
unfolding decode_events get_record JsMap.get JsMap.empty
two_decode = refl

bad_fails :
    fresh fake_transport fake_client (binding_of none) bad (world_of quiet)
    ≡ err (thrown "empty payload")
unfolding decode_events get_record JsMap.get JsMap.empty
bad_fails = refl

abbrev events : List (DecodedGatewayEvent Payload)
events = decoded_event_of 1 (10 ∷ []) ∷ decoded_event_of 2 (20 ∷ []) ∷ []

abbrev after_two : Outcome AppliedBatch × Fake
after_two = apply_batch client binding two (world_of quiet)

abbrev key : TargetBindingKey
key = key_of client binding (some "default")

abbrev pushed : MemorySyncRecord Payload Payload
pushed = push_events (get_record key empty_store) events

apply_batch_lem_example :
    (get_record key after_two.1.store
      ≡ (if same_key key key then pushed else get_record key empty_store))
    × (after_two.1.acks ≡ ack_request key pushed.applied_seq "sub:1" ∷ [])
    × (after_two.0 ≡ ok (record { count = 2; seq = pushed.applied_seq }))
apply_batch_lem_example =
    apply_batch_lem fake_transport fake_client (binding_of none) two (world_of quiet) events key
      two_decode

-- A batch of the binding "live" for a binding whose key is empty.
abbrev live_two : GatewayBatch
live_two = record two { binding_key = "live" }

abbrev blank : SyncBinding Fake Payload Payload
blank = binding_of (some "")

live_two_decode : fresh fake_transport fake_client blank live_two (world_of quiet) ≡ ok events
unfolding decode_events get_record JsMap.get JsMap.empty
live_two_decode = refl

abbrev live_result : GatewayCatchUpResult
live_result = result_of "live" CatchUpStatus.ok (some live_two)

abbrev after_live : Fake
after_live =
    on_results fake_transport fake_client blank live_two (world_of quiet) events (live_result ∷ [])
      no_progress

abbrev filed : MemorySyncRecord Payload Payload
filed = push_events (get_record (key_for tasks "default") empty_store) events

empty_key-misfiles_example :
    (select_result (live_result ∷ []) (some "") ≡ ok (some live_result))
    × (get_record (key_for tasks "default") after_live.store ≡ filed)
    × (get_record (key_for tasks "live") after_live.store
        ≡ get_record (key_for tasks "live") empty_store)
    × (after_live.acks ≡ ack_request (key_for tasks "default") filed.applied_seq "sub:1" ∷ [])
empty_key-misfiles_example =
    empty_key-misfiles fake_transport fake_client blank live_two (world_of quiet) events live_result
      no_progress refl refl refl refl (cc) live_two_decode

abbrev after_bad : Outcome AppliedBatch × Fake
after_bad = apply_batch client binding bad (world_of quiet)

apply_batch_undecodable_example :
    (after_bad.0 ≡ err (thrown "empty payload"))
    × (get_record key after_bad.1.store ≡ get_record key empty_store)
    × (after_bad.1.acks ≡ [])
apply_batch_undecodable_example =
    apply_batch_undecodable fake_transport fake_client (binding_of none) bad (world_of quiet)
      (thrown "empty payload") key bad_fails

-- A recovery with the snapshot of `overrun`, and one where the gateway has none.
abbrev after_overrun : Outcome ℕ × Fake
after_overrun = recover_from_snapshot client binding (world_of overrun)

recover_from_snapshot_lem_example :
    (get_record key after_overrun.1.store ≡ (
      if same_key key key
      then snapshot_record (some (get_record key empty_store)) (
          taken fake_transport fake_client
            (binding_of none)
            (world_of overrun)
            (snapshot_of 3 (30 ∷ []))
            (30 ∷ []))
      else get_record key empty_store))
    × (after_overrun.1.acks ≡ ack_request key 3 "sub:1" ∷ [])
    × (after_overrun.0 ≡ ok 3)
recover_from_snapshot_lem_example =
    recover_from_snapshot_lem fake_transport fake_client (binding_of none) (world_of overrun)
      (snapshot_of 3 (30 ∷ [])) (30 ∷ []) key refl

abbrev after_quiet : Outcome ℕ × Fake
after_quiet = recover_from_snapshot client binding (world_of quiet)

recover_from_snapshot-fails_example :
    (after_quiet.0 ≡ err (thrown "unexpected getLatestSnapshot call"))
    × (after_quiet.1.store ≡ empty_store)
    × (after_quiet.1.acks ≡ [])
recover_from_snapshot-fails_example =
    recover_from_snapshot-fails fake_transport fake_client (binding_of none) (world_of quiet)
      (thrown "unexpected getLatestSnapshot call") refl
