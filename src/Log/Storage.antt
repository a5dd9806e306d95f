-- ===== src/Log/Storage.antt =====
-- pkg/synclog/storage.go: what the engines ask of storage. The requests that are pointers to
-- generated messages may be nil.
use synclog.Prelude.{ℕ, String, Option}
use synclog.Prelude.Int.{ℤ}
use synclog.Protocol.Snapshot.{
  PutSnapshotRequest, PutSnapshotResponse, GetLatestSnapshotRequest, GetLatestSnapshotResponse,
  GetSnapshotRequest, GetSnapshotResponse,
}
use synclog.Log.Types.{
  AppendRequest, AppendResult, StreamHead, EventBatch, SubscriberCursor, AckRequest,
}
use synclog.Log.Result.{Op}

-- Where `Read` returns an error, the batch and the head beside it are not looked at by anyone.
pub record EventLog (S : Type 0) : Type 0 where
  pub append : AppendRequest → Op S AppendResult
  pub get_head : String → Op S StreamHead
  pub read : String → ℕ → ℤ → Op S (EventBatch × StreamHead)

pub record CursorStore (S : Type 0) : Type 0 where
  pub get_cursor : String → String → Op S SubscriberCursor
  pub ack : AckRequest → Op S SubscriberCursor

pub record SnapshotStore (S : Type 0) : Type 0 where
  pub put_snapshot : Option PutSnapshotRequest → Op S PutSnapshotResponse
  pub get_latest_snapshot : Option GetLatestSnapshotRequest → Op S GetLatestSnapshotResponse
  pub get_snapshot : Option GetSnapshotRequest → Op S GetSnapshotResponse
