-- ===== src/Storage/Calls.antt =====
-- The calls that change the storage of internal/storage/memory/store.go, and runs of them.
use synclog.Prelude.{ℕ, String, List, [], ◌∷◌, Option}
use synclog.Prelude.Int.{ℤ}
use synclog.Protocol.Admin.{
  CreateStreamRequest, DeleteStreamRequest, TruncateStreamRequest, CompactStreamRequest,
  SetStreamRetentionRequest, ResetCursorRequest,
}
use synclog.Protocol.Snapshot.{PutSnapshotRequest, DeleteSnapshotRequest}
use synclog.Log.Types.{AppendRequest, AckRequest}
use synclog.Storage.{Store}
use synclog.Storage.Events.{append, truncate_before}
use synclog.Storage.Waiting.{wait_for_stream, stop_waiting}
use synclog.Storage.Cursors.{ack, reset_cursor}
use synclog.Storage.Snapshots.{put_snapshot, delete_snapshot}
use synclog.Storage.Admin.{
  create_stream, delete_stream, truncate_stream, compact_stream, set_stream_retention,
}

-- The numbers beside `appends` and `sets_retention` are the time.
pub data Call : Type 0 where
  appends : ℤ → AppendRequest → Call
  acks : AckRequest → Call
  resets : Option ResetCursorRequest → Call
  creates : Option CreateStreamRequest → Call
  deletes : Option DeleteStreamRequest → Call
  truncates : Option TruncateStreamRequest → Call
  truncates_before : String → ℕ → Call
  compacts : Option CompactStreamRequest → Call
  sets_retention : ℤ → Option SetStreamRetentionRequest → Call
  puts_snapshot : Option PutSnapshotRequest → Call
  deletes_snapshot : Option DeleteSnapshotRequest → Call
  waits : String → ℕ → Call
  stops_waiting : String → ℕ → Call

unfoldable pub run : Call → Store → Store
unfolding append ack reset_cursor create_stream delete_stream truncate_stream truncate_before
    compact_stream set_stream_retention put_snapshot delete_snapshot wait_for_stream stop_waiting
run (appends now req) s = (append now req s).1
run (acks req) s = (ack req s).1
run (resets req) s = (reset_cursor req s).1
run (creates req) s = (create_stream req s).1
run (deletes req) s = (delete_stream req s).1
run (truncates req) s = (truncate_stream req s).1
run (truncates_before stream_id before) s = (truncate_before stream_id before s).1
run (compacts req) s = (compact_stream req s).1
run (sets_retention now req) s = (set_stream_retention now req s).1
run (puts_snapshot req) s = (put_snapshot req s).1
run (deletes_snapshot req) s = (delete_snapshot req s).1
run (waits stream_id after) s = (wait_for_stream stream_id after s).1
run (stops_waiting stream_id ch) s = stop_waiting stream_id ch s

unfoldable pub runs : List Call → Store → Store
unfolding run
runs [] s = s
runs (c ∷ cs) s = runs cs (run c s)
