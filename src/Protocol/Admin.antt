-- ===== src/Protocol/Admin.antt =====
-- ts/synclog/src/proto/synclog/v1/admin_pb.ts: the messages of administration of streams, retention and cursors.
use synclog.Prelude.{Bool, List, Option, String, ℕ}
use synclog.Prelude.Int.{ℤ}
use synclog.Protocol.Event.{Stream, SubscriberCursor}

pub data JobState : Type 0 where
  none pending running done failed : JobState

pub record Job : Type 0 where
  pub job_id : String
  pub state : JobState

pub record StreamRetention : Type 0 where
  pub stream_id : String
  pub ttl_days : ℤ
  pub max_events : ℤ

pub record StreamStats : Type 0 where
  pub stream_id : String
  pub event_count : ℤ
  pub head_seq : ℕ
  pub size_bytes : ℤ
  pub subscriber_count : ℤ

pub record CreateStreamRequest : Type 0 where
  pub stream_id : String

pub record CreateStreamResponse : Type 0 where
  pub stream : Option Stream

pub record DeleteStreamRequest : Type 0 where
  pub stream_id : String

pub record DeleteStreamResponse : Type 0 where
  pub deleted : Bool

pub record ListStreamsRequest : Type 0 where
  pub prefix : String
  pub limit : ℕ
  pub page_token : String

pub record ListStreamsResponse : Type 0 where
  pub streams : List Stream
  pub next_page_token : String

pub record TruncateStreamRequest : Type 0 where
  pub stream_id : String
  pub before_seq : ℕ

pub record TruncateStreamResponse : Type 0 where
  pub removed : ℤ

pub record CompactStreamRequest : Type 0 where
  pub stream_id : String

pub record CompactStreamResponse : Type 0 where
  pub job : Option Job

pub record SetStreamRetentionRequest : Type 0 where
  pub retention : Option StreamRetention

pub record SetStreamRetentionResponse : Type 0 where
  pub retention : Option StreamRetention

pub record ResetCursorRequest : Type 0 where
  pub subscriber_id : String
  pub stream_id : String
  pub seq : ℕ
  pub metadata : String

pub record ResetCursorResponse : Type 0 where
  pub cursor : Option SubscriberCursor

pub record ListCursorsRequest : Type 0 where
  pub stream_id : String

pub record ListCursorsResponse : Type 0 where
  pub cursors : List SubscriberCursor

pub record GetStreamStatsRequest : Type 0 where
  pub stream_id : String

pub record GetStreamStatsResponse : Type 0 where
  pub stats : Option StreamStats

pub data SyncLogAdminMethod : Type 0 where
  create_stream delete_stream list_streams truncate_stream compact_stream set_stream_retention
        reset_cursor list_cursors get_stream_stats :
      SyncLogAdminMethod

abbrev pub SyncLogAdminServiceInput : SyncLogAdminMethod → Type 0
SyncLogAdminServiceInput create_stream = CreateStreamRequest
SyncLogAdminServiceInput delete_stream = DeleteStreamRequest
SyncLogAdminServiceInput list_streams = ListStreamsRequest
SyncLogAdminServiceInput truncate_stream = TruncateStreamRequest
SyncLogAdminServiceInput compact_stream = CompactStreamRequest
SyncLogAdminServiceInput set_stream_retention = SetStreamRetentionRequest
SyncLogAdminServiceInput reset_cursor = ResetCursorRequest
SyncLogAdminServiceInput list_cursors = ListCursorsRequest
SyncLogAdminServiceInput get_stream_stats = GetStreamStatsRequest

abbrev pub SyncLogAdminServiceOutput : SyncLogAdminMethod → Type 0
SyncLogAdminServiceOutput create_stream = CreateStreamResponse
SyncLogAdminServiceOutput delete_stream = DeleteStreamResponse
SyncLogAdminServiceOutput list_streams = ListStreamsResponse
SyncLogAdminServiceOutput truncate_stream = TruncateStreamResponse
SyncLogAdminServiceOutput compact_stream = CompactStreamResponse
SyncLogAdminServiceOutput set_stream_retention = SetStreamRetentionResponse
SyncLogAdminServiceOutput reset_cursor = ResetCursorResponse
SyncLogAdminServiceOutput list_cursors = ListCursorsResponse
SyncLogAdminServiceOutput get_stream_stats = GetStreamStatsResponse
