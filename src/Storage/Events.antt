-- ===== src/Storage/Events.antt =====
-- internal/storage/memory/store.go: the event log's operations Append, GetHead, Read and
-- TruncateBefore, and the retention they apply.
use synclog.Prelude.{ℕ, String, true, false, [], ◌∷◌, Option, none, some, ◌==◌, if◌then◌else◌}
use synclog.Prelude.Int.{ℤ, pos}
use synclog.GoMap.{get, set, string_key}
use synclog.Protocol.Admin.{StreamRetention}
use synclog.Log.Types.{EventBatch, StreamHead, AppendRequest, AppendResult}
use synclog.Log.Result.{Op, Result, done, failed, return, invalid, from_result}
use synclog.Storage.{Store, StreamState}
use synclog.Storage.Stream.{
  new_stream, head_cursor, deduplicate, event_at, next_seq, push, normalize_limit, read_stream,
  keep_from, cut, retain,
}
use synclog.Storage.Waiting.{notify_stream}

unfoldable pub or_new : Option StreamState → StreamState
or_new none = new_stream
or_new (some stream) = stream

-- A stream changes in place.
unfoldable pub put_stream : String → StreamState → Store → Store
put_stream stream_id stream s = record s { streams = set stream_id stream s.streams }

unfoldable pub ensure_stream : String → Store → StreamState × Store
unfolding or_new put_stream
ensure_stream stream_id s =
    let stream = or_new (get stream_id s.streams) in (stream, put_stream stream_id stream s)

-- applyRetentionLocked's test of the stream and of its retention.
unfoldable pub retained : ℤ → Option StreamRetention → StreamState → StreamState
unfolding retain
retained now none stream = stream
retained now (some retention) stream = elim stream.events [
  | [] ↦ stream
  | e ∷ es ↦ retain now retention stream
]

unfoldable pub apply_retention : ℤ → String → Store → Store
unfolding retained put_stream
apply_retention now stream_id s = elim (get stream_id s.streams) [
  | none ↦ s
  | some stream ↦ put_stream stream_id (retained now (get stream_id s.retention) stream) s
]

-- Store.Append of a new event: the stream, the retention, and the watchers of the new head.
unfoldable pub append_new : ℤ → AppendRequest → StreamState → Op Store AppendResult
unfolding push put_stream apply_retention notify_stream event_at
append_new now req stream s =
    return (record { event = event_at (next_seq stream.head) req; deduplicated = false })
      (notify_stream req.stream_id (next_seq stream.head)
        (apply_retention now req.stream_id (put_stream req.stream_id (push req stream) s)))

-- `now` is the time that `time.Now` tells, in nanoseconds.
unfoldable pub append : ℤ → AppendRequest → Op Store AppendResult
unfolding ensure_stream deduplicate append_new
append now req = if req.stream_id == "" then invalid "stream id is required" else λ s.
    let (stream, s') = ensure_stream req.stream_id s in
    elim (deduplicate req stream) [
      | some result ↦ from_result result s'
      | none ↦ append_new now req stream s'
    ]

unfoldable pub no_head : String → StreamHead
no_head stream_id = record {
  cursor = record { stream_id = stream_id; seq = 0 };
  retained_seq_start = 0;
}

unfoldable pub head_of : String → Option StreamState → StreamHead
unfolding no_head head_cursor
head_of stream_id none = no_head stream_id
head_of stream_id (some stream) = head_cursor stream_id stream

unfoldable pub get_head : String → Op Store StreamHead
unfolding head_of
get_head stream_id = if stream_id == "" then invalid "stream id is required" else λ s.
    return (head_of stream_id (get stream_id s.streams)) s

unfoldable pub read_from : ℕ → ℕ → Option StreamState → Result EventBatch
unfolding read_stream
read_from after limit none = done (record { events = []; seq_start = 0; seq = 0; final = true })
read_from after limit (some stream) = read_stream after limit stream

unfoldable pub with_head : StreamHead → Result EventBatch → Result (EventBatch × StreamHead)
with_head head (done batch) = done (batch, head)
with_head head (failed e) = failed e

unfoldable pub read : String → ℕ → ℤ → Op Store (EventBatch × StreamHead)
unfolding head_of read_from with_head
read stream_id after limit = if stream_id == "" then invalid "stream id is required" else λ s.
    from_result
      (with_head (head_of stream_id (get stream_id s.streams))
        (read_from after (normalize_limit limit) (get stream_id s.streams)))
      s

unfoldable pub truncate_found : String → ℕ → Option StreamState → Op Store ℤ
unfolding put_stream cut keep_from
truncate_found stream_id before none = return (pos 0)
truncate_found stream_id before (some stream) =
    let removed = keep_from before stream.events in
    λ s. return (pos removed) (put_stream stream_id (cut removed stream) s)

unfoldable pub truncate_before : String → ℕ → Op Store ℤ
unfolding truncate_found
truncate_before stream_id before = if stream_id == "" then invalid "stream id is required" else λ s.
    truncate_found stream_id before (get stream_id s.streams) s
