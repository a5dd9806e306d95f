-- ===== src/Log/Types.antt =====
-- pkg/synclog/types.go. Named strings (StreamID, SubscriberID) are texts and `Seq` is a number below
-- 2 ^ 64; `[]byte` is a list of bytes, and a copy of one is the list itself.
use synclog.Prelude.{ℕ, String, Bool, false, List, []}
use synclog.Prelude.Int.{ℤ, quot}

abbrev pub default_limit : ℕ
default_limit = 100

abbrev pub max_limit : ℕ
max_limit = 1000

pub record Event : Type 0 where
  pub stream_id : String
  pub seq : ℕ
  pub payload : List ℕ
  pub payload_type : String
  pub payload_version : ℕ
  pub idempotency_key : String
  pub created_at_unix_ms : ℤ

pub record Cursor : Type 0 where
  pub stream_id : String
  pub seq : ℕ

pub record SubscriberCursor : Type 0 where
  pub subscriber_id : String
  pub cursor : Cursor
  pub metadata : String
  pub updated_at_unix_ms : ℤ

pub record StreamHead : Type 0 where
  pub cursor : Cursor
  pub retained_seq_start : ℕ

pub record EventBatch : Type 0 where
  pub events : List Event
  pub seq_start : ℕ
  pub seq : ℕ
  pub final : Bool

-- The zero value of a batch.
abbrev pub no_batch : EventBatch
no_batch = record { events = []; seq_start = 0; seq = 0; final = false }

pub record AppendRequest : Type 0 where
  pub stream_id : String
  pub payload : List ℕ
  pub payload_type : String
  pub payload_version : ℕ
  pub idempotency_key : String
  pub created_at_unix_ms : ℤ

pub record AppendResult : Type 0 where
  pub event : Event
  pub deduplicated : Bool

pub data CatchUpStatus : Type 0 where
  none ok too_long : CatchUpStatus

pub record CatchUpRequest : Type 0 where
  pub subscriber_id : String
  pub stream_id : String
  pub limit : ℤ
  pub total_limit : ℤ

pub record CatchUpResult : Type 0 where
  pub status : CatchUpStatus
  pub batch : EventBatch
  pub cursor : Cursor
  pub head : StreamHead
  pub retained_seq_start : ℕ

pub record AckRequest : Type 0 where
  pub subscriber_id : String
  pub stream_id : String
  pub seq : ℕ
  pub metadata : String

pub record AckResult : Type 0 where
  pub cursor : SubscriberCursor
  pub head : StreamHead

-- A `time.Time` is its `UnixNano`.
unfoldable pub unix_ms : ℤ → ℤ
unix_ms t = quot t 1000000
