-- ===== src/Log/Engine.antt =====
-- pkg/synclog/engine.go: the engine over an event log and a cursor store.
use synclog.Prelude.{
  ℕ, ◌-◌, String, Bool, true, false, ◌&&◌, ◌||◌, List, [], ◌∷◌, Option, none, some, ◌==◌, ltb, leb,
  if◌then◌else◌,
}
use synclog.Prelude.Int.{ℤ, pos, negsuc}
use synclog.Log.Types.{
  AppendRequest, AppendResult, StreamHead, EventBatch, SubscriberCursor, AckRequest, AckResult,
  CatchUpStatus, CatchUpRequest, CatchUpResult, default_limit, max_limit, no_batch, unix_ms,
}
use synclog.Log.Result.{
  Op, Result, done, failed, too_long, return, fail, invalid, handle, ◌>>=◌, invalid_error,
}
use synclog.Log.Storage.{EventLog, CursorStore}

-- `clock` is the time, in nanoseconds, that `e.clock()` tells during the call.
pub record Engine (S : Type 0) : Type 0 where
  pub log : EventLog S
  pub cursors : CursorStore S
  pub clock : ℤ

unfoldable pub normalize_limit : ℤ → ℕ
normalize_limit (negsuc n) = default_limit
normalize_limit (pos n) =
    if leb n 0 then default_limit else if ltb max_limit n then max_limit else n

unfoldable pub replay_too_old : ℕ → ℕ → Bool
replay_too_old cursor retained = ltb 0 retained && ltb cursor (retained - 1)

unfoldable pub replay_over_budget : ℕ → ℕ → ℤ → Bool
replay_over_budget cursor head (negsuc n) = false
replay_over_budget cursor head (pos total_limit) =
    if leb total_limit 0 || leb head cursor then false else ltb total_limit (head - cursor)

abbrev pub EngineOption : Type 0 → Type 0
EngineOption S = Engine S → Engine S

-- The result without a batch.
unfoldable pub without_batch : CatchUpStatus → SubscriberCursor → StreamHead → CatchUpResult
without_batch status cursor head = record {
  status = status;
  batch = no_batch;
  cursor = cursor.cursor;
  head = head;
  retained_seq_start = head.retained_seq_start;
}

is_negative : ℤ → Bool
is_negative (pos n) = false
is_negative (negsuc n) = true

module _ {S : Type 0} where
  -- WithClock; a nil clock changes nothing.
  unfoldable pub with_clock : Option ℤ → EngineOption S
  with_clock none = λ e. e
  with_clock (some clock) = λ e. record { log = e.log; cursors = e.cursors; clock = clock }

  abbrev pub apply_options : List (EngineOption S) → Engine S → Engine S
  apply_options [] e = e
  apply_options (opt ∷ opts) e = apply_options opts (opt e)

  -- NewEngine, with the time that `time.Now` tells.
  unfoldable pub new_engine :
      ℤ → Option (EventLog S) → Option (CursorStore S) → List (EngineOption S) → Result (Engine S)
  new_engine now none cursors opts = failed (invalid_error "event log is required")
  new_engine now (some log) none opts = failed (invalid_error "cursor store is required")
  new_engine now (some log) (some cursors) opts =
      done (apply_options opts (record { log = log; cursors = cursors; clock = now }))

  -- The request as Engine.Append passes it on.
  stamped : Engine S → AppendRequest → AppendRequest
  stamped e req = record {
    stream_id = req.stream_id;
    payload = req.payload;
    payload_type = req.payload_type;
    payload_version = req.payload_version;
    idempotency_key = req.idempotency_key;
    created_at_unix_ms = elim req.created_at_unix_ms [
      | pos n ↦ if leb n 0 then unix_ms e.clock else pos n
      | negsuc n ↦ negsuc n
    ];
  }

  unfoldable pub append : Engine S → AppendRequest → Op S AppendResult
  unfolding stamped is_negative
  append e req =
      if req.stream_id == ""
      then invalid "stream id is required"
      else if is_negative req.created_at_unix_ms
      then invalid "created_at must not be negative"
      else e.log.append (stamped e req)

  unfoldable pub get_head : Engine S → String → Op S StreamHead
  get_head e stream_id =
      if stream_id == "" then invalid "stream id is required" else e.log.get_head stream_id

  unfoldable pub get_cursor : Engine S → String → String → Op S SubscriberCursor
  get_cursor e subscriber_id stream_id =
      if subscriber_id == ""
      then invalid "subscriber id is required"
      else if stream_id == ""
      then invalid "stream id is required"
      else e.cursors.get_cursor subscriber_id stream_id

  -- What Engine.CatchUp makes of the answer of `Read`.
  unfoldable pub on_read :
      SubscriberCursor → StreamHead → Result (EventBatch × StreamHead) → Op S CatchUpResult
  unfolding without_batch
  on_read cursor head (failed (too_long message)) =
      return (without_batch CatchUpStatus.too_long cursor head)
  on_read cursor head (failed e) = fail e
  on_read cursor head (done (batch, head')) = return (record {
    status = CatchUpStatus.ok;
    batch = batch;
    cursor = cursor.cursor;
    head = head';
    retained_seq_start = head'.retained_seq_start;
  })

  -- Engine.CatchUp behind GetCursor and GetHead.
  unfoldable pub replay :
      Engine S → CatchUpRequest → SubscriberCursor → StreamHead → Op S CatchUpResult
  unfolding replay_too_old replay_over_budget without_batch on_read normalize_limit
  replay e req cursor head =
      if replay_too_old cursor.cursor.seq head.retained_seq_start
        || replay_over_budget cursor.cursor.seq head.cursor.seq req.total_limit
      then return (without_batch CatchUpStatus.too_long cursor head)
      else handle (e.log.read req.stream_id cursor.cursor.seq (pos (normalize_limit req.limit)))
          (on_read cursor head)

  unfoldable pub catch_up : Engine S → CatchUpRequest → Op S CatchUpResult
  unfolding replay
  catch_up e req =
      if req.subscriber_id == ""
      then invalid "subscriber id is required"
      else if req.stream_id == ""
      then invalid "stream id is required"
      else do
        cursor ← e.cursors.get_cursor req.subscriber_id req.stream_id
        head ← e.log.get_head req.stream_id
        replay e req cursor head

  -- Engine.Ack behind GetHead.
  unfoldable pub ack_below : Engine S → AckRequest → StreamHead → Op S AckResult
  ack_below e req head =
      if ltb head.cursor.seq req.seq
      then invalid "ack seq is above stream head"
      else e.cursors.ack req >>= λ cursor. return (record { cursor = cursor; head = head })

  unfoldable pub ack : Engine S → AckRequest → Op S AckResult
  unfolding ack_below
  ack e req =
      if req.subscriber_id == ""
      then invalid "subscriber id is required"
      else if req.stream_id == ""
      then invalid "stream id is required"
      else e.log.get_head req.stream_id >>= ack_below e req
