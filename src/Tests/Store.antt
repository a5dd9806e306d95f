-- ===== src/Tests/Store.antt =====
-- The memory store and the names of its records on sample data.
use synclog.Prelude.{◌≡◌, ◌≢◌, ◌⊎◌, refl, arith, List, [], ◌∷◌, some}
use synclog.Prelude.Text.{lacks}
use synclog.Target.{TargetBindingKey}
use synclog.Target.Keys.{IsPlain, IsPlainKey}
use synclog.Target.Injective.{target_binding_key-injective}
use synclog.Memory.{
  MemorySyncRecord, MemorySyncStore, empty_record, empty_store, get_record, apply_events,
  clear_target, snapshot_record,
}
use synclog.Memory.Records.{IsValid}
use synclog.Memory.Coverage.{Covers, stale_snapshot-not-Covers}
use synclog.Memory.Clearing.{clear_target-exact}
use synclog.Memory.Redelivery.{apply_events_idem}
use synclog.Memory.Feed.{Fed, Fed-whole, created, events}
use synclog.Store.{DecodedGatewayEvent}
use synclog.Tests.Samples.{
  Payload, tasks, other_tasks, key_for, decoded_event_of, decoded_snapshot_of,
}

abbrev key : TargetBindingKey
key = key_for tasks "default"

abbrev Kept : Type 0
Kept = MemorySyncStore Payload Payload

abbrev two : List (DecodedGatewayEvent Payload)
two = decoded_event_of 1 (10 ∷ []) ∷ decoded_event_of 2 (20 ∷ []) ∷ []

abbrev fed : Kept
fed = apply_events key two empty_store

fed-Fed : Fed fed
fed-Fed = events key 0 two (refl, (refl, tt)) (omega arith) created

Fed-whole_example : IsValid (get_record key fed) × Covers (get_record key fed)
Fed-whole_example = Fed-whole key fed-Fed

apply_events_idem_example : apply_events key two fed ≡ fed
apply_events_idem_example = apply_events_idem key two empty_store

tasks-IsPlain : IsPlain tasks
unfolding lacks
tasks-IsPlain = record { namespace = refl; id = refl; view = refl }

other_tasks-IsPlain : IsPlain other_tasks
unfolding lacks
other_tasks-IsPlain = record { namespace = refl; id = refl; view = refl }

key-IsPlainKey : IsPlainKey key
unfolding lacks
key-IsPlainKey = record { target = tasks-IsPlain; subscriber = refl; binding = refl }

-- Target "77" is not target "777".
clear_target-exact_example :
    ((other_tasks ≡ tasks) × (get_record key (clear_target other_tasks fed) ≡ empty_record))
    ⊎ ((other_tasks ≢ tasks) × (get_record key (clear_target other_tasks fed) ≡ get_record key fed))
clear_target-exact_example =
    clear_target-exact other_tasks key fed other_tasks-IsPlain key-IsPlainKey

target_binding_key-injective_example : key ≡ key
target_binding_key-injective_example =
    target_binding_key-injective key key key-IsPlainKey key-IsPlainKey refl

-- A record with a snapshot at 5 and an event at 6.
abbrev ahead : MemorySyncRecord Payload Payload
ahead = record {
  applied_seq = 6;
  snapshot = some (decoded_snapshot_of 5 (50 ∷ []));
  events = decoded_event_of 6 (60 ∷ []) ∷ [];
}

stale_snapshot-not-Covers_example :
    ¬ Covers (snapshot_record (some ahead) (decoded_snapshot_of 3 (30 ∷ [])))
stale_snapshot-not-Covers_example =
    stale_snapshot-not-Covers ahead (decoded_snapshot_of 3 (30 ∷ []))
      (record { ordered = (omega arith, omega arith); snapshot = omega arith })
      (omega arith, omega arith) (omega arith)
