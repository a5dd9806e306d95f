-- ===== src/Protocol/Service.antt =====
-- ts/synclog/src/proto/synclog/v1/service_pb.ts: the messages of the core event-log service.
use synclog.Prelude.{Bool, List, Option, String, ℕ}
use synclog.Prelude.Int.{ℤ}
use synclog.Protocol.Event.{Cursor, EventBatch}

pub data CatchUpStatus : Type 0 where
  none ok too_long : CatchUpStatus

pub record AppendRequest : Type 0 where
  pub stream_id : String
  pub payload : List ℕ
  pub payload_type : String
  pub payload_version : ℕ
  pub idempotency_key : String

pub record AppendResponse : Type 0 where
  pub seq : ℕ
  pub deduplicated : Bool

pub record GetHeadRequest : Type 0 where
  pub stream_id : String

pub record GetHeadResponse : Type 0 where
  pub head : Option Cursor
  pub retained_seq_start : ℕ

pub record GetCursorRequest : Type 0 where
  pub subscriber_id : String
  pub stream_id : String

pub record GetCursorResponse : Type 0 where
  pub cursor : Option Cursor
  pub head : Option Cursor

pub record CatchUpRequest : Type 0 where
  pub subscriber_id : String
  pub stream_id : String
  pub limit : ℕ
  pub total_limit : ℕ

pub record CatchUpResponse : Type 0 where
  pub status : CatchUpStatus
  pub batch : Option EventBatch
  pub cursor : Option Cursor
  pub head : Option Cursor
  pub retained_seq_start : ℕ

pub record SubscribeRequest : Type 0 where
  pub subscriber_id : String
  pub stream_id : String
  pub batch_limit : ℕ
  pub max_in_flight : ℕ

pub record SubscribeResponse : Type 0 where
  pub status : CatchUpStatus
  pub batch : Option EventBatch
  pub cursor : Option Cursor
  pub head : Option Cursor
  pub retained_seq_start : ℕ
  pub heartbeat : Bool
  pub server_time_unix_ms : ℤ

pub record AckRequest : Type 0 where
  pub subscriber_id : String
  pub stream_id : String
  pub seq : ℕ
  pub metadata : String

pub record AckResponse : Type 0 where
  pub cursor : Option Cursor
  pub head : Option Cursor

pub data SyncLogMethod : Type 0 where
  append get_head get_cursor catch_up subscribe ack : SyncLogMethod

abbrev pub SyncLogServiceInput : SyncLogMethod → Type 0
SyncLogServiceInput append = AppendRequest
SyncLogServiceInput get_head = GetHeadRequest
SyncLogServiceInput get_cursor = GetCursorRequest
SyncLogServiceInput catch_up = CatchUpRequest
SyncLogServiceInput subscribe = SubscribeRequest
SyncLogServiceInput ack = AckRequest

abbrev pub SyncLogServiceOutput : SyncLogMethod → Type 0
SyncLogServiceOutput append = AppendResponse
SyncLogServiceOutput get_head = GetHeadResponse
SyncLogServiceOutput get_cursor = GetCursorResponse
SyncLogServiceOutput catch_up = CatchUpResponse
SyncLogServiceOutput subscribe = SubscribeResponse
SyncLogServiceOutput ack = AckResponse
