-- ===== src/Storage/Stream.antt =====
-- internal/storage/memory/store.go: the state of one stream, and what the operations do with it.
use synclog.Prelude.{
  ℕ, suc, ◌+◌, ◌-◌, ◌*◌, ◌^◌, ◌%◌, String, true, ◌&&◌, ◌||◌, List, [], ◌∷◌, ◌++◌, Option, none,
  some, ◌==◌, ltb, leb, if◌then◌else◌, length, drop, take, nat_eq,
}
use synclog.Prelude.Int.{ℤ, pos, negsuc, ◌+ℤ◌, negate, scaled, ltz, int64}
use synclog.GoMap.{get, set, make, string_key}
use synclog.Protocol.Admin.{StreamRetention}
use synclog.Log.Types.{
  Event, EventBatch, StreamHead, AppendRequest, AppendResult, default_limit, max_limit, unix_ms,
}
use synclog.Log.Engine.{replay_too_old}
use synclog.Log.Result.{Result, done, failed, too_long, err_too_long}
use synclog.Storage.{StreamState}

-- A stream as `ensureStream` makes it.
unfoldable pub new_stream : StreamState
new_stream = record { head = 0; retained_seq_start = 0; events = []; idempotency = make }

unfoldable pub head_cursor : String → StreamState → StreamHead
head_cursor stream_id s = record {
  cursor = record { stream_id = stream_id; seq = s.head };
  retained_seq_start = s.retained_seq_start;
}

unfoldable pub event_by_seq : ℕ → List Event → Option Event
event_by_seq seq [] = none
event_by_seq seq (e ∷ es) =
    let rest = event_by_seq seq es in if nat_eq e.seq seq then some e else rest

unfoldable pub next_seq : ℕ → ℕ
next_seq seq = (seq + 1) % 2 ^ 64

-- The answer to an append whose key was seen before, `none` where it was not.
unfoldable pub deduplicate : AppendRequest → StreamState → Option (Result AppendResult)
unfolding event_by_seq
deduplicate req s =
    if req.idempotency_key == "" then none else elim (get req.idempotency_key s.idempotency) [
      | none ↦ none
      | some seq ↦ elim (event_by_seq seq s.events) [
        | none ↦ some (failed (too_long "synclog: replay too long: idempotent event was compacted"))
        | some event ↦ some (done (record { event = event; deduplicated = true }))
      ]
    ]

unfoldable pub event_at : ℕ → AppendRequest → Event
event_at seq req = record {
  stream_id = req.stream_id;
  seq = seq;
  payload = req.payload;
  payload_type = req.payload_type;
  payload_version = req.payload_version;
  idempotency_key = req.idempotency_key;
  created_at_unix_ms = req.created_at_unix_ms;
}

-- The stream behind a new event.
unfoldable pub push : AppendRequest → StreamState → StreamState
unfolding next_seq event_at
push req s = record {
  head = next_seq s.head;
  events = s.events ++ event_at (next_seq s.head) req ∷ [];
  retained_seq_start =
      if nat_eq s.retained_seq_start 0 || ltb (next_seq s.head) s.retained_seq_start
      then next_seq s.head
      else s.retained_seq_start;
  idempotency =
      if req.idempotency_key == ""
      then s.idempotency
      else set req.idempotency_key (next_seq s.head) s.idempotency;
}

unfoldable pub normalize_limit : ℤ → ℕ
normalize_limit (negsuc n) = default_limit
normalize_limit (pos n) =
    if leb n 0 then default_limit else if ltb max_limit n then max_limit else n

-- The place of the first event above `after`.
unfoldable pub start_of : ℕ → List Event → Option ℕ
start_of after [] = none
start_of after (e ∷ es) =
    let rest = start_of after es in
    if ltb after e.seq then some 0 else elim rest [ none ↦ none | some i ↦ some (suc i) ]

-- `events[0].Seq` and `events[len(events)-1].Seq`, of a list that is not empty.
unfoldable pub first_seq : List Event → ℕ
first_seq [] = 0
first_seq (e ∷ es) = e.seq

unfoldable pub last_seq : List Event → ℕ
last_seq [] = 0
last_seq (e ∷ []) = e.seq
last_seq (e ∷ f ∷ es) = last_seq (f ∷ es)

unfoldable pub batch_of : ℕ → List Event → EventBatch
unfolding first_seq last_seq
batch_of head events = record {
  events = events;
  seq_start = first_seq events;
  seq = last_seq events;
  final = nat_eq (last_seq events) head;
}

-- `events[start:end]`, with `end` cut to the length.
unfoldable pub slice : ℕ → ℕ → List Event → List Event
slice start limit events =
    let end = if ltb (length events) (start + limit) then length events else start + limit in
    take (end - start) (drop start events)

-- Store.Read behind the lookup of the stream.
unfoldable pub stream_batch : ℕ → ℕ → StreamState → EventBatch
unfolding start_of batch_of slice
stream_batch after limit s = elim (start_of after s.events) [
  | none ↦ record { events = []; seq_start = 0; seq = s.head; final = true }
  | some start ↦ batch_of s.head (slice start limit s.events)
]

unfoldable pub read_stream : ℕ → ℕ → StreamState → Result EventBatch
unfolding replay_too_old stream_batch
read_stream after limit s =
    if replay_too_old after s.retained_seq_start
    then failed err_too_long
    else done (stream_batch after limit s)

-- How many events at the front are below `before`.
unfoldable pub keep_from : ℕ → List Event → ℕ
keep_from before [] = 0
keep_from before (e ∷ es) =
    let rest = keep_from before es in if ltb e.seq before then suc rest else 0

-- The stream without its first `n` events.
unfoldable pub cut : ℕ → StreamState → StreamState
unfolding next_seq
cut n s = record s {
  events = drop n s.events;
  retained_seq_start = elim (drop n s.events) [
    | [] ↦ if ltb 0 s.head then next_seq s.head else s.retained_seq_start
    | e ∷ es ↦ e.seq
  ];
}

-- `time.Now().Add(-time.Duration(ttlDays) * 24 * time.Hour)` in milliseconds.
unfoldable pub cutoff_ms : ℤ → ℤ → ℤ
cutoff_ms now ttl_days =
    unix_ms (int64 (now +ℤ int64 (scaled (24 * 3600 * 10 ^ 9) (negate ttl_days))))

-- How many events at the front are older than the cutoff.
unfoldable pub expired : ℤ → List Event → ℕ
expired cutoff [] = 0
expired cutoff (e ∷ es) =
    let rest = expired cutoff es in
    if ltz (pos 0) e.created_at_unix_ms && ltz e.created_at_unix_ms cutoff then suc rest else 0

-- How many events are too many. Where it stops at 0, the source's `overflow` is not above `remove`.
unfoldable pub overflow : ℤ → List Event → ℕ
overflow (negsuc n) events = 0
overflow (pos max_events) events = if ltb 0 max_events then length events - max_events else 0

unfoldable pub to_remove : ℤ → StreamRetention → List Event → ℕ
unfolding cutoff_ms expired overflow
to_remove now retention events =
    let old =
      if ltz (pos 0) retention.ttl_days
      then expired (cutoff_ms now retention.ttl_days) events
      else 0 in
    let remove =
      if ltb old (overflow retention.max_events events)
      then overflow retention.max_events events
      else old in
    if ltb (length events) remove then length events else remove

-- applyRetentionLocked for a stream that has a retention.
unfoldable pub retain : ℤ → StreamRetention → StreamState → StreamState
unfolding to_remove cut
retain now retention s =
    if leb (to_remove now retention s.events) 0 then s else cut (to_remove now retention s.events) s
