-- ===== src/Storage/History/Leaving.antt =====
-- The operations of internal/storage/memory/store.go that leave all events of all streams as they
-- are.
use synclog.Prelude.{ℕ, String, List, ◌==◌, Bool-cases, inl, inr}
use synclog.GoMap.{get, string_key}
use synclog.Log.Types.{Event}
use synclog.Storage.{Store}
use synclog.Storage.Leaving.{Stable}
use synclog.Storage.Waiting.{
  wait_for_stream, stop_waiting, remove_watcher, swap_out, watchers_of, register, is_past,
}
use synclog.Storage.History.{StoreHolds}
use synclog.Storage.History.Keeping.{
  apply_retention-StoreHolds, truncate_before-StoreHolds, ensure_stream-StoreHolds,
  put_watchers-streams,
}

abbrev pub Histories : Type 0
Histories = String → List Event

pub StoreHolds-Stable : (h : Histories) → Stable (StoreHolds h)
StoreHolds-Stable h = record {
  with_cursors = λ m s all. all;
  with_snapshots = λ m s all. all;
  with_retention = λ m s all. all;
  ensured = λ id s all. ensure_stream-StoreHolds id h s all;
  truncated = λ id before s all. truncate_before-StoreHolds id before h s all;
  applied = λ now id s all. apply_retention-StoreHolds now id h s all;
}

module _ (h : Histories) (s : Store) (all : StoreHolds h s) where
  pub wait_for_stream-StoreHolds :
      (id : String) (after : ℕ) → StoreHolds h (wait_for_stream id after s).1
  unfolding wait_for_stream register
  wait_for_stream-StoreHolds id after = elim (Bool-cases (id == "")) [
    | inl empty ↦ rw empty all
    | inr named ↦ elim (Bool-cases (is_past after (get id s.streams))) [
      | inl past ↦ rw (named, past) all
      | inr waits ↦ rw (named, waits) all
    ]
  ]

  pub stop_waiting-StoreHolds : (id : String) (ch : ℕ) → StoreHolds h (stop_waiting id ch s)
  unfolding stop_waiting remove_watcher
  stop_waiting-StoreHolds id ch j =
      rw (put_watchers-streams id (swap_out ch (watchers_of id s)) s) (all j)
