-- ===== src/Protocol/Snapshot.antt =====
-- ts/synclog/src/proto/synclog/v1/snapshot_pb.ts: the messages of snapshots of a stream.
use synclog.Prelude.{Bool, List, Option, String, ℕ}
use synclog.Prelude.Int.{ℤ}

pub data SnapshotCompression : Type 0 where
  none gzip zstd : SnapshotCompression

pub record SnapshotRef : Type 0 where
  pub stream_id : String
  pub seq : ℕ
  pub payload_type : String
  pub payload_version : ℕ
  pub compression : SnapshotCompression
  pub checksum : String
  pub size_bytes : ℤ
  pub created_at_unix_ms : ℤ
  pub producer_id : String

pub record Snapshot : Type 0 where
  pub ref : Option SnapshotRef
  pub payload : List ℕ

pub record PutSnapshotRequest : Type 0 where
  pub stream_id : String
  pub seq : ℕ
  pub payload : List ℕ
  pub payload_type : String
  pub payload_version : ℕ
  pub compression : SnapshotCompression
  pub checksum : String
  pub producer_id : String

pub record PutSnapshotResponse : Type 0 where
  pub snapshot : Option SnapshotRef
  pub deduplicated : Bool

pub record GetLatestSnapshotRequest : Type 0 where
  pub stream_id : String
  pub payload_type : String
  pub max_payload_version : ℕ

pub record GetLatestSnapshotResponse : Type 0 where
  pub snapshot : Option Snapshot

pub record GetSnapshotRequest : Type 0 where
  pub stream_id : String
  pub seq : ℕ
  pub payload_type : String
  pub payload_version : ℕ

pub record GetSnapshotResponse : Type 0 where
  pub snapshot : Option Snapshot

pub record ListSnapshotsRequest : Type 0 where
  pub stream_id : String
  pub payload_type : String
  pub limit : ℕ
  pub page_token : String

pub record ListSnapshotsResponse : Type 0 where
  pub snapshots : List SnapshotRef
  pub next_page_token : String

pub record DeleteSnapshotRequest : Type 0 where
  pub stream_id : String
  pub seq : ℕ
  pub payload_type : String
  pub payload_version : ℕ

pub record DeleteSnapshotResponse : Type 0 where
  pub deleted : Bool

pub data SyncLogSnapshotMethod : Type 0 where
  put_snapshot get_latest_snapshot get_snapshot list_snapshots delete_snapshot :
      SyncLogSnapshotMethod

abbrev pub SyncLogSnapshotServiceInput : SyncLogSnapshotMethod → Type 0
SyncLogSnapshotServiceInput put_snapshot = PutSnapshotRequest
SyncLogSnapshotServiceInput get_latest_snapshot = GetLatestSnapshotRequest
SyncLogSnapshotServiceInput get_snapshot = GetSnapshotRequest
SyncLogSnapshotServiceInput list_snapshots = ListSnapshotsRequest
SyncLogSnapshotServiceInput delete_snapshot = DeleteSnapshotRequest

abbrev pub SyncLogSnapshotServiceOutput : SyncLogSnapshotMethod → Type 0
SyncLogSnapshotServiceOutput put_snapshot = PutSnapshotResponse
SyncLogSnapshotServiceOutput get_latest_snapshot = GetLatestSnapshotResponse
SyncLogSnapshotServiceOutput get_snapshot = GetSnapshotResponse
SyncLogSnapshotServiceOutput list_snapshots = ListSnapshotsResponse
SyncLogSnapshotServiceOutput delete_snapshot = DeleteSnapshotResponse
