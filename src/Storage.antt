-- ===== src/Storage.antt =====
-- internal/storage/memory/store.go: the log's storage in memory, its state here and its operations
-- in the children. Each operation holds the mutex from its first look at the state to its end, so
-- it is one step on the state.
pub mod Stream
pub mod Events
pub mod Waiting
pub mod Cursors
pub mod Snapshots
pub mod Admin
pub mod Calls
pub mod Leaving
pub mod Wakeups
pub mod History
pub mod Backend
pub mod Serving
use synclog.Prelude.{
  ℕ, String, Bool, true, ◌&&◌, List, [], ◌≡◌, ◌↔◌, arith, ◌==◌, eq_iff, nat_eq, nat_eq_iff,
}
use synclog.GoMap.{GoMap, Key, make}
use synclog.Protocol.Admin.{StreamRetention}
use synclog.Protocol.Snapshot.{Snapshot}
use synclog.Log.Types.{Event, SubscriberCursor}

pub record StreamState : Type 0 where
  pub head : ℕ
  pub retained_seq_start : ℕ
  pub events : List Event
  pub idempotency : GoMap String ℕ

pub record CursorKey : Type 0 where
  pub subscriber_id : String
  pub stream_id : String

pub record SnapshotKey : Type 0 where
  pub stream_id : String
  pub seq : ℕ
  pub payload_type : String
  pub payload_version : ℕ

-- `ch` is the number of the channel.
pub record StreamWatcher : Type 0 where
  pub after : ℕ
  pub ch : ℕ

-- The runtime's channels stand beside the maps: how many were made, and which of them are closed.
pub record Store : Type 0 where
  pub streams : GoMap String StreamState
  pub cursors : GoMap CursorKey SubscriberCursor
  pub snapshots : GoMap SnapshotKey Snapshot
  pub retention : GoMap String StreamRetention
  pub watchers : GoMap String (List StreamWatcher)
  pub made : ℕ
  pub closed : List ℕ

unfoldable pub new_store : Store
new_store = record {
  streams = make;
  cursors = make;
  snapshots = make;
  retention = make;
  watchers = make;
  made = 0;
  closed = [];
}

abbrev pub same_cursor_key : CursorKey → CursorKey → Bool
same_cursor_key a b = a.subscriber_id == b.subscriber_id && a.stream_id == b.stream_id

abbrev pub same_snapshot_key : SnapshotKey → SnapshotKey → Bool
same_snapshot_key a b =
    a.stream_id == b.stream_id
    && nat_eq a.seq b.seq
    && a.payload_type == b.payload_type
    && nat_eq a.payload_version b.payload_version

pub same_cursor_key_iff : (a b : CursorKey) → (same_cursor_key a b ≡ true) ↔ (a ≡ b)
same_cursor_key_iff a b = (
  λ h. ground (arith, h, eq_iff a.subscriber_id b.subscriber_id, eq_iff a.stream_id b.stream_id),
  λ e. ground (arith, e, eq_iff a.subscriber_id b.subscriber_id, eq_iff a.stream_id b.stream_id),
)

pub same_snapshot_key_iff : (a b : SnapshotKey) → (same_snapshot_key a b ≡ true) ↔ (a ≡ b)
same_snapshot_key_iff a b = (
  λ h. ground (
    arith,
    h,
    eq_iff a.stream_id b.stream_id,
    nat_eq_iff a.seq b.seq,
    eq_iff a.payload_type b.payload_type,
    nat_eq_iff a.payload_version b.payload_version,
  ),
  λ e. ground (
    arith,
    e,
    eq_iff a.stream_id b.stream_id,
    nat_eq_iff a.seq b.seq,
    eq_iff a.payload_type b.payload_type,
    nat_eq_iff a.payload_version b.payload_version,
  ),
)

instance abbrev pub cursor_key : Key CursorKey
cursor_key = record { same = same_cursor_key; same_iff = same_cursor_key_iff }

instance abbrev pub snapshot_key : Key SnapshotKey
snapshot_key = record { same = same_snapshot_key; same_iff = same_snapshot_key_iff }
