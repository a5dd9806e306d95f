-- ===== src/Tests/GoStorage.antt =====
-- The storage of internal/storage/memory/store.go and the engine of pkg/synclog/engine.go on sample
-- data.
use synclog.Prelude.{
  ◌+◌, ltb, ◌≤◌, ◌≡◌, ◌⊎◌, ap, true, false, List, [], ◌∷◌, some, arith, length, if◌then◌else◌, All,
}
use synclog.Prelude.Int.{pos}
use synclog.GoMap.{get, get_made, string_key}
use synclog.Protocol.Snapshot.{
  PutSnapshotRequest, SnapshotCompression, GetLatestSnapshotRequest, Snapshot,
}
use synclog.Log.Types.{CatchUpStatus}
use synclog.Log.Result.{done, failed, err_too_long, err_not_found}
use synclog.Log.Engine.{catch_up, ack, without_batch, normalize_limit}
use synclog.Log.Serving.{is_too_long}
use synclog.Storage.{Store, new_store, SnapshotKey, snapshot_key}
use synclog.Storage.Stream.{normalize_limit as read_limit}
use synclog.Storage.Events.{append, read, head_of, or_new}
use synclog.Storage.Snapshots.{
  put_snapshot, get_snapshot, get_latest_snapshot, is_same_snapshot, put_key, ref_of,
}
use synclog.Storage.Snapshots.Loop.{Entry}
use synclog.Storage.Snapshots.Latest.{
  Asked, NotAfter, look_up, put_snapshot-get_snapshot, get_latest_snapshot-Latest,
}
use synclog.Storage.Backend.{engine, backend, found_cursor, found_head, CursorsNamed}
use synclog.Storage.Serving.{catch_up-refines, ack-within_head}
use synclog.Storage.Calls.{Call, runs}
use synclog.Storage.History.{StoreHolds}
use synclog.Storage.History.Reading.{read_of}
use synclog.Storage.History.Appending.{AppendRefines, append-refines, read-refines}
use synclog.Storage.History.Leaving.{Histories}
use synclog.Storage.History.Runs.{Evolves, runs-refines}
use synclog.Tests.GoSamples.{
  now, sample_store, histories, sample_store-StoreHolds, stream, subscriber, stream-named,
  subscriber-named, snapshot_type-named, sample_append, sample_ack, sample_catch_up,
  no_cursors-CursorsNamed,
}

abbrev some_calls : List Call
some_calls =
    Call.appends now sample_append
    ∷ Call.truncates (some (record { stream_id = "s"; before_seq = 2 }))
    ∷ Call.appends now sample_append
    ∷ []

runs-refines_example :
    (h : Histories) × Evolves some_calls (λ id. []) h × StoreHolds h (runs some_calls new_store)
runs-refines_example = runs-refines some_calls (omega arith)

append-refines_example :
    AppendRefines sample_append histories
      (or_new (get stream sample_store.streams)).events
      (append now sample_append sample_store)
append-refines_example =
    append-refines now sample_append histories sample_store sample_store-StoreHolds stream-named
      (omega arith)

read-refines_example : read stream 1 (pos 5) sample_store ≡ (
  (if ltb (1 + 1) (head_of stream (get stream sample_store.streams)).retained_seq_start
      then failed err_too_long
      else done (
        read_of 1 (read_limit (pos 5)) (histories stream),
        head_of stream (get stream sample_store.streams),
      )),
  sample_store,
)
read-refines_example =
    read-refines stream 1 (pos 5) histories sample_store sample_store-StoreHolds stream-named

catch_up-refines_example : catch_up (engine now) sample_catch_up sample_store ≡ (
  done (
      if is_too_long (engine now) (backend now) sample_catch_up sample_store
      then without_batch CatchUpStatus.too_long
          (found_cursor subscriber stream sample_store)
          (found_head stream sample_store)
      else record {
        status = CatchUpStatus.ok;
        batch =
            read_of
              (found_cursor subscriber stream sample_store).cursor.seq
              (normalize_limit (pos 0))
              (histories stream);
        cursor = (found_cursor subscriber stream sample_store).cursor;
        head = found_head stream sample_store;
        retained_seq_start = (found_head stream sample_store).retained_seq_start;
      }),
  sample_store,
)
catch_up-refines_example =
    catch_up-refines now histories sample_store sample_store-StoreHolds sample_catch_up
      subscriber-named stream-named

ack-within_head_example :
    StoreHolds histories (ack (engine now) sample_ack sample_store).1
    × CursorsNamed (ack (engine now) sample_ack sample_store).1
    × ((found_cursor subscriber stream sample_store).cursor.seq
        ≤ (found_cursor subscriber stream (ack (engine now) sample_ack sample_store).1).cursor.seq)
    × ((found_cursor subscriber stream sample_store).cursor.seq ≤ length (histories stream)
        → (found_cursor subscriber stream (ack (engine now) sample_ack sample_store).1).cursor.seq
          ≤ length (histories stream))
ack-within_head_example =
    ack-within_head now histories sample_store sample_store-StoreHolds sample_ack subscriber-named
      stream-named no_cursors-CursorsNamed

abbrev sample_put : PutSnapshotRequest
sample_put = record {
  stream_id = "s";
  seq = 2;
  payload = 1 ∷ 2 ∷ [];
  payload_type = "note_state";
  payload_version = 3;
  compression = SnapshotCompression.none;
  checksum = "c";
  producer_id = "p";
}

new_there : is_same_snapshot sample_put (get (put_key sample_put) new_store.snapshots) ≡ false
unfolding new_store is_same_snapshot
new_there = ap (is_same_snapshot sample_put) (get_made {V = Snapshot} (put_key sample_put))

put_snapshot-get_snapshot_example :
    (s' : Store) × (put_snapshot (some sample_put) new_store
      ≡ (done (record { snapshot = some (ref_of sample_put); deduplicated = false }), s'))
    × (get_snapshot (some (look_up sample_put)) s' ≡ (
      done (record {
        snapshot = some (record { ref = some (ref_of sample_put); payload = 1 ∷ 2 ∷ [] });
      }),
      s',
    ))
    × (put_snapshot (some sample_put) s'
        ≡ (done (record { snapshot = some (ref_of sample_put); deduplicated = true }), s'))
put_snapshot-get_snapshot_example =
    put_snapshot-get_snapshot sample_put new_store stream-named snapshot_type-named new_there

abbrev sample_latest : GetLatestSnapshotRequest
sample_latest = record { stream_id = "s"; payload_type = "note_state"; max_payload_version = 0 }

abbrev put_store : Store
put_store = (put_snapshot (some sample_put) new_store).1

get_latest_snapshot-Latest_example :
    ((k : SnapshotKey) × (latest : Snapshot) × Entry (k, latest) put_store.snapshots.entries
      × Asked sample_latest k
      × All (λ e. Asked sample_latest e.0 → NotAfter e.1 latest) put_store.snapshots.entries
      × (get_latest_snapshot (some sample_latest) put_store
          ≡ (done (record { snapshot = some latest }), put_store)))
    ⊎ (All (λ e. ¬ Asked sample_latest e.0) put_store.snapshots.entries
        × (get_latest_snapshot (some sample_latest) put_store ≡ (failed err_not_found, put_store)))
get_latest_snapshot-Latest_example =
    get_latest_snapshot-Latest sample_latest put_store stream-named snapshot_type-named
