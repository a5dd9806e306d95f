-- ===== src/Storage/Leaving.antt =====
-- The calls of internal/storage/memory/store.go that touch no watcher and add and delete no events:
-- what each leaves as it is, its guards and early returns included.
use synclog.Prelude.{
  ℕ, String, Bool, true, false, Option, none, some, ◌==◌, if◌then◌else◌, ltb, is_some,
}
use synclog.Prelude.Int.{ℤ}
use synclog.GoMap.{GoMap, get, set, string_key}
use synclog.Protocol.Admin.{
  CreateStreamRequest, TruncateStreamRequest, CompactStreamRequest, SetStreamRetentionRequest,
  ResetCursorRequest, StreamRetention,
}
use synclog.Protocol.Snapshot.{PutSnapshotRequest, DeleteSnapshotRequest, Snapshot}
use synclog.Log.Types.{AckRequest, SubscriberCursor}
use synclog.Log.Result.{Op, not_nil, Result, proceed, return, ◌>>=◌}
use synclog.Storage.{Store, CursorKey, SnapshotKey, snapshot_key}
use synclog.Storage.Stream.{next_seq}
use synclog.Storage.Events.{ensure_stream, apply_retention, truncate_before}
use synclog.Storage.Cursors.{ack, reset_cursor, put_cursor, cursor_before}
use synclog.Storage.Snapshots.{put_snapshot, delete_snapshot, put_key, delete_key, is_same_snapshot}
use synclog.Storage.Admin.{
  create_stream, truncate_stream, compact_stream, compact_below, compact_job, least_cursor,
  set_stream_retention,
}
use synclog.Storage.Calls.{Call, run}

-- The state behind the operation has the property.
record Leaves {A : Type 0} (P : Store → Type 0) (s : Store) (m : Op Store A) : Type 0 where
  left : P (m s).1

leaves : {A : Type 0} {P : Store → Type 0} {s : Store} {m : Op Store A} → P (m s).1 → Leaves P s m
leaves all = record { left = all }

either :
    {A : Type 0} {P : Store → Type 0} {s : Store} {m n : Op Store A} (b : Bool)
    → Leaves P s m
    → Leaves P s n
    → Leaves P s (if b then m else n)
either true p q = p
either false p q = q

-- A test that looks at the state.
either_in :
    {A : Type 0} {P : Store → Type 0} {s : Store} {m n : Op Store A} (b : Store → Bool)
    → Leaves P s m
    → Leaves P s n
    → Leaves P s (λ x. if b x then m x else n x)
either_in {A} {P} {s} {m} {n} b p q = leaves (chosen (b s))
  where
    chosen : (c : Bool) → P (if c then m s else n s).1
    chosen true = p.left
    chosen false = q.left

unless_nil :
    {A B : Type 0} {P : Store → Type 0} {s : Store} {f : B → Op Store A} (message : String)
    (o : Option B)
    → P s
    → ((b : B) → Leaves P s (f b))
    → Leaves P s (not_nil message o f)
unless_nil message none all k = leaves all
unless_nil message (some b) all k = k b

-- A second call that answers and changes nothing.
answered :
    {A B : Type 0} (P : Store → Type 0) (s : Store) (f : A → B) (r : Result A)
    → P s
    → P (proceed r (λ a. return (f a)) s).1
answered P s f (Result.done a) all = all
answered P s f (Result.failed e) all = all

then_answer :
    {A B : Type 0} {P : Store → Type 0} {s : Store} {m : Op Store A} (f : A → B)
    → Leaves P s m
    → Leaves P s (m >>= λ a. return (f a))
then_answer {P = P} {s = s} {m = m} f p = leaves (answered P (m s).1 f (m s).0 p.left)

-- A property of the store that the parts of these calls keep.
pub record Stable (P : Store → Type 0) : Type 0 where
  pub with_cursors :
      (m : GoMap CursorKey SubscriberCursor) (s : Store) → P s → P (record s { cursors = m })
  pub with_snapshots :
      (m : GoMap SnapshotKey Snapshot) (s : Store) → P s → P (record s { snapshots = m })
  pub with_retention :
      (m : GoMap String StreamRetention) (s : Store) → P s → P (record s { retention = m })
  pub ensured : (id : String) (s : Store) → P s → P (ensure_stream id s).1
  pub truncated : (id : String) (before : ℕ) (s : Store) → P s → P (truncate_before id before s).1
  pub applied : (now : ℤ) (id : String) (s : Store) → P s → P (apply_retention now id s)

module _ {P : Store → Type 0} (stable : Stable P) (s : Store) (all : P s) where
  compact_below-Leaves : (id : String) (least : Option ℕ) → Leaves P s (compact_below id least)
  unfolding compact_below
  compact_below-Leaves id none = leaves all
  compact_below-Leaves id (some least) =
      either (ltb 0 least)
        (then_answer (λ _. compact_job id) (leaves (stable.truncated id (next_seq least) s all)))
        (leaves all)

  ack-Leaves : (req : AckRequest) → Leaves P s (ack req)
  unfolding ack put_cursor
  ack-Leaves req = either (req.subscriber_id == "") (leaves all) (
      either (req.stream_id == "") (leaves all) (
        either_in (λ x. ltb (cursor_before req x).cursor.seq req.seq)
          (leaves (stable.with_cursors _ s all)) (leaves all)))

  reset_cursor-Leaves : (o : Option ResetCursorRequest) → Leaves P s (reset_cursor o)
  unfolding reset_cursor put_cursor
  reset_cursor-Leaves o = unless_nil "reset cursor request is required" o all λ req.
      either (req.subscriber_id == "") (leaves all)
        (either (req.stream_id == "") (leaves all) (leaves (stable.with_cursors _ s all)))

  create_stream-Leaves : (o : Option CreateStreamRequest) → Leaves P s (create_stream o)
  unfolding create_stream
  create_stream-Leaves o =
      unless_nil "create stream request is required" o all λ req.
        either (req.stream_id == "") (leaves all) (leaves (stable.ensured req.stream_id s all))

  truncate_stream-Leaves : (o : Option TruncateStreamRequest) → Leaves P s (truncate_stream o)
  unfolding truncate_stream
  truncate_stream-Leaves o = unless_nil "truncate stream request is required" o all λ req.
      then_answer (λ removed. record { removed = removed })
        (leaves (stable.truncated req.stream_id req.before_seq s all))

  compact_stream-Leaves : (o : Option CompactStreamRequest) → Leaves P s (compact_stream o)
  unfolding compact_stream
  compact_stream-Leaves o = unless_nil "compact stream request is required" o all λ req.
      either (req.stream_id == "") (leaves all) (
        leaves
          (compact_below-Leaves req.stream_id
            (least_cursor req.stream_id none s.cursors.entries)).left)

  set_stream_retention-Leaves :
      (now : ℤ) (o : Option SetStreamRetentionRequest) → Leaves P s (set_stream_retention now o)
  unfolding set_stream_retention
  set_stream_retention-Leaves now o = unless_nil "stream retention is required" o all λ req.
      unless_nil "stream retention is required" req.retention all λ retention.
        either (retention.stream_id == "") (leaves all) (
          leaves (
            stable.applied now retention.stream_id
              (record s { retention = set retention.stream_id retention s.retention })
              (stable.with_retention _ s all)))

  put_snapshot-Leaves : (o : Option PutSnapshotRequest) → Leaves P s (put_snapshot o)
  unfolding put_snapshot
  put_snapshot-Leaves o = unless_nil "put snapshot request is required" o all λ req.
      either (req.stream_id == "") (leaves all) (
        either (req.payload_type == "") (leaves all) (
          either_in (λ x. is_same_snapshot req (get (put_key req) x.snapshots)) (leaves all)
            (leaves (stable.with_snapshots _ s all))))

  delete_snapshot-Leaves : (o : Option DeleteSnapshotRequest) → Leaves P s (delete_snapshot o)
  unfolding delete_snapshot
  delete_snapshot-Leaves o = unless_nil "delete snapshot request is required" o all λ req.
      either (req.stream_id == "") (leaves all) (
        either (req.payload_type == "") (leaves all) (
          either_in (λ x. is_some (get (delete_key req) x.snapshots))
            (leaves (stable.with_snapshots _ s all)) (leaves all)))

-- The calls that touch no watcher and add and delete no events.
abbrev pub IsQuiet : Call → Type 0
IsQuiet (Call.appends now req) = ⊥
IsQuiet (Call.deletes o) = ⊥
IsQuiet (Call.waits id after) = ⊥
IsQuiet (Call.stops_waiting id ch) = ⊥
IsQuiet _ = Unit

pub run-Stable :
    {P : Store → Type 0} → Stable P → (c : Call) (s : Store) → IsQuiet c → P s → P (run c s)
unfolding run
run-Stable stable (Call.appends now req) s quiet all = absurd quiet
run-Stable stable (Call.acks req) s quiet all = (ack-Leaves stable s all req).left
run-Stable stable (Call.resets o) s quiet all = (reset_cursor-Leaves stable s all o).left
run-Stable stable (Call.creates o) s quiet all = (create_stream-Leaves stable s all o).left
run-Stable stable (Call.deletes o) s quiet all = absurd quiet
run-Stable stable (Call.truncates o) s quiet all = (truncate_stream-Leaves stable s all o).left
run-Stable stable (Call.truncates_before id before) s quiet all = stable.truncated id before s all
run-Stable stable (Call.compacts o) s quiet all = (compact_stream-Leaves stable s all o).left
run-Stable stable (Call.sets_retention now o) s quiet all =
    (set_stream_retention-Leaves stable s all now o).left
run-Stable stable (Call.puts_snapshot o) s quiet all = (put_snapshot-Leaves stable s all o).left
run-Stable stable (Call.deletes_snapshot o) s quiet all =
    (delete_snapshot-Leaves stable s all o).left
run-Stable stable (Call.waits id after) s quiet all = absurd quiet
run-Stable stable (Call.stops_waiting id ch) s quiet all = absurd quiet
