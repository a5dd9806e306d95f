-- ===== src/Tests/GoWatchers.antt =====
-- A wait for a stream of internal/storage/memory/store.go, and the append that wakes it.
use synclog.Prelude.{arith, some, ◌≡◌, refl, List, [], ◌∷◌}
use mathlib.Core.List.{Memᴰ}
use synclog.Prelude.Int.{pos}
use synclog.GoMap.{get, set, make, string_key}
use synclog.Log.Result.{done}
use synclog.Storage.{Store, StreamState, new_store}
use synclog.Storage.Stream.{new_stream}
use synclog.Storage.Events.{append}
use synclog.Storage.Waiting.{waits_on, wait_for_stream}
use synclog.Storage.Calls.{Call, runs, run}
use synclog.Storage.Wakeups.Woken.{wait_for_stream-woken}
use synclog.Tests.GoSamples.{now, stream, sample_append, sample_ack}

abbrev later : List Call
later = Call.acks sample_ack ∷ Call.appends now sample_append ∷ []

abbrev waiting : Store
waiting = (wait_for_stream stream 0 (runs [] new_store)).1

begun : (wait_for_stream stream 0 (runs [] new_store)).0 ≡ done (waits_on 0)
unfolding wait_for_stream runs new_store get make
begun = refl

abbrev one_event : StreamState
one_event = record {
  head = 1;
  retained_seq_start = 1;
  events =
      record {
        stream_id = "s";
        seq = 1;
        payload = 9 ∷ [];
        payload_type = "note";
        payload_version = 1;
        idempotency_key = "k2";
        created_at_unix_ms = pos 7;
      }
      ∷ [];
  idempotency = set "k2" 1 make;
}

there : get stream (runs later waiting).streams ≡ some one_event
unfolding runs run append new_store new_stream get make set wait_for_stream
there = refl

wait_for_stream-woken_example : Memᴰ 0 (runs later waiting).closed
wait_for_stream-woken_example =
    wait_for_stream-woken [] later stream 0 0 one_event begun (refl, (refl, tt)) there (omega arith)
