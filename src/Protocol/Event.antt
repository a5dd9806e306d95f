-- ===== src/Protocol/Event.antt =====
-- ts/synclog/src/proto/synclog/v1/event_pb.ts: the messages of streams, cursors and events.
use synclog.Prelude.{Bool, List, Option, String, ℕ}
use synclog.Prelude.Int.{ℤ}

pub record Stream : Type 0 where
  pub id : String

pub record Cursor : Type 0 where
  pub stream_id : String
  pub seq : ℕ

pub record SubscriberCursor : Type 0 where
  pub subscriber_id : String
  pub cursor : Option Cursor
  pub metadata : String
  pub updated_at_unix_ms : ℤ

pub record Event : Type 0 where
  pub stream_id : String
  pub seq : ℕ
  pub payload : List ℕ
  pub payload_type : String
  pub payload_version : ℕ
  pub idempotency_key : String
  pub created_at_unix_ms : ℤ

pub record EventBatch : Type 0 where
  pub events : List Event
  pub seq_start : ℕ
  pub seq : ℕ
  pub final : Bool
