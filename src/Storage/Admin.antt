-- ===== src/Storage/Admin.antt =====
-- internal/storage/memory/store.go: the administration of streams.
use synclog.Prelude.{
  ℕ, zero, suc, ◌+◌, String, Bool, true, not, ◌&&◌, ◌||◌, List, [], ◌∷◌, Option, none, some, ◌==◌,
  ltb, if◌then◌else◌, length, is_some,
}
use synclog.Prelude.Int.{ℤ, pos}
use synclog.Prelude.Text.{begins_with, ◌+++◌}
use synclog.GoMap.{get, set, delete, filtered, string_key}
use synclog.Protocol.Event.{Stream}
use synclog.Protocol.Admin.{
  CreateStreamRequest, CreateStreamResponse, DeleteStreamRequest, DeleteStreamResponse,
  ListStreamsRequest, ListStreamsResponse, TruncateStreamRequest, TruncateStreamResponse,
  CompactStreamRequest, CompactStreamResponse, SetStreamRetentionRequest,
  SetStreamRetentionResponse, GetStreamStatsRequest, GetStreamStatsResponse, StreamStats, JobState,
}
use synclog.Log.Types.{Event, SubscriberCursor}
use synclog.Log.Result.{Op, return, invalid, not_nil, ◌>>=◌, ◌>>◌}
use synclog.Storage.{Store, StreamState, CursorKey, SnapshotKey}
use synclog.Storage.Stream.{next_seq}
use synclog.Storage.Events.{ensure_stream, apply_retention, truncate_before}
use synclog.Storage.Snapshots.{list_limit}

unfoldable pub create_stream : Option CreateStreamRequest → Op Store CreateStreamResponse
unfolding ensure_stream
create_stream request = not_nil "create stream request is required" request λ req.
    if req.stream_id == "" then invalid "stream id is required" else λ s.
    let (stream, s') = ensure_stream req.stream_id s in
    return (record { stream = some (record { id = req.stream_id }) }) s'

-- A stream, its retention, its cursors and its snapshots go; its watchers stay.
unfoldable pub without_stream : String → Store → Store
without_stream stream_id s = record s {
  streams = delete stream_id s.streams;
  retention = delete stream_id s.retention;
  cursors = filtered (λ (k : CursorKey) _. not (k.stream_id == stream_id)) s.cursors;
  snapshots = filtered (λ (k : SnapshotKey) _. not (k.stream_id == stream_id)) s.snapshots;
}

unfoldable pub delete_stream : Option DeleteStreamRequest → Op Store DeleteStreamResponse
unfolding without_stream
delete_stream request = not_nil "delete stream request is required" request λ req.
    if req.stream_id == "" then invalid "stream id is required" else λ s.
    return (record { deleted = is_some (get req.stream_id s.streams) })
      (without_stream req.stream_id s)

-- The test of ListStreams on a stream's name.
unfoldable pub has_prefix : String → String → Bool
unfolding begins_with
has_prefix prefix stream_id = prefix == "" || begins_with stream_id prefix

-- The loop of ListStreams, which ends when it has `room` more: `room` is not 0 at its start.
unfoldable pub streams_up_to : String → ℕ → List (String × StreamState) → List Stream
unfolding has_prefix
streams_up_to prefix room [] = []
streams_up_to prefix zero (entry ∷ m) = []
streams_up_to prefix (suc room) ((stream_id, stream) ∷ m) =
    let less = streams_up_to prefix room m in
    let rest = streams_up_to prefix (suc room) m in
    if has_prefix prefix stream_id then record { id = stream_id } ∷ less else rest

unfoldable pub list_streams : Option ListStreamsRequest → Op Store ListStreamsResponse
unfolding streams_up_to list_limit
list_streams request = not_nil "list streams request is required" request λ req. λ s.
    return
      (record {
        streams = streams_up_to req.prefix (list_limit req.limit) s.streams.entries;
        next_page_token = "";
      })
      s

unfoldable pub truncate_stream : Option TruncateStreamRequest → Op Store TruncateStreamResponse
unfolding truncate_before
truncate_stream request = not_nil "truncate stream request is required" request λ req.
    truncate_before req.stream_id req.before_seq >>= λ removed.
    return (record { removed = removed })

unfoldable pub is_lower : SubscriberCursor → Option ℕ → Bool
is_lower cursor none = true
is_lower cursor (some least) = ltb cursor.cursor.seq least

-- The loop of CompactStream, with the least seq found before.
unfoldable pub least_cursor : String → Option ℕ → List (CursorKey × SubscriberCursor) → Option ℕ
unfolding is_lower
least_cursor stream_id least [] = least
least_cursor stream_id least ((k, cursor) ∷ m) =
    least_cursor stream_id
      (if k.stream_id == stream_id && is_lower cursor least then some cursor.cursor.seq else least)
      m

unfoldable pub compact_job : String → CompactStreamResponse
compact_job stream_id = record {
  job = some (record { job_id = "memory-compact:" +++ stream_id; state = JobState.done });
}

-- CompactStream behind its loop, where the mutex is taken a second time.
unfoldable pub compact_below : String → Option ℕ → Op Store CompactStreamResponse
unfolding truncate_before next_seq compact_job
compact_below stream_id none = return (compact_job stream_id)
compact_below stream_id (some least) =
    if ltb 0 least
    then truncate_before stream_id (next_seq least) >> return (compact_job stream_id)
    else return (compact_job stream_id)

unfoldable pub compact_stream : Option CompactStreamRequest → Op Store CompactStreamResponse
unfolding least_cursor compact_below
compact_stream request = not_nil "compact stream request is required" request λ req.
    if req.stream_id == "" then invalid "stream id is required" else λ s.
    compact_below req.stream_id (least_cursor req.stream_id none s.cursors.entries) s

-- `now` is the time that `time.Now` tells, in nanoseconds.
unfoldable pub set_stream_retention :
    ℤ → Option SetStreamRetentionRequest → Op Store SetStreamRetentionResponse
unfolding apply_retention
set_stream_retention now request = not_nil "stream retention is required" request λ req.
    not_nil "stream retention is required" req.retention λ retention.
      if retention.stream_id == "" then invalid "stream id is required" else λ s.
      return (record { retention = some retention })
        (apply_retention now retention.stream_id
          (record s { retention = set retention.stream_id retention s.retention }))

unfoldable pub payload_bytes : List Event → ℕ
payload_bytes [] = 0
payload_bytes (e ∷ es) = length e.payload + payload_bytes es

unfoldable pub subscribers_on : String → List (CursorKey × SubscriberCursor) → ℕ
subscribers_on stream_id [] = 0
subscribers_on stream_id ((k, cursor) ∷ m) =
    let rest = subscribers_on stream_id m in if k.stream_id == stream_id then suc rest else rest

-- The statistics but for the subscribers.
unfoldable pub stats_of : String → ℕ → Option StreamState → StreamStats
unfolding payload_bytes
stats_of stream_id subscribers none = record {
  stream_id = stream_id;
  event_count = pos 0;
  head_seq = 0;
  size_bytes = pos 0;
  subscriber_count = pos subscribers;
}
stats_of stream_id subscribers (some stream) = record {
  stream_id = stream_id;
  event_count = pos (length stream.events);
  head_seq = stream.head;
  size_bytes = pos (payload_bytes stream.events);
  subscriber_count = pos subscribers;
}

unfoldable pub get_stream_stats : Option GetStreamStatsRequest → Op Store GetStreamStatsResponse
unfolding stats_of subscribers_on
get_stream_stats request = not_nil "get stream stats request is required" request λ req.
    if req.stream_id == "" then invalid "stream id is required" else λ s.
    return
      (record {
        stats = some (
            stats_of req.stream_id (subscribers_on req.stream_id s.cursors.entries)
              (get req.stream_id s.streams));
      })
      s
