-- ===== src/Memory/Feed.antt =====
-- What holds of a memory store after any sequence of calls in which each batch has no gap and joins
-- on to its record, and no snapshot is older than the one it replaces.
use synclog.Prelude.{ℕ, ◌≤◌, List, Bool, true, false, if◌then◌else◌}
use synclog.Prelude.Text.{includes}
use synclog.Protocol.Gateway.{SyncTarget}
use synclog.Target.{TargetBindingKey, target_binding_key}
use synclog.Store.{DecodedGatewayEvent, DecodedGatewaySnapshot}
use synclog.Memory.{
  MemorySyncRecord, MemorySyncStore, empty_store, get_applied_seq, apply_snapshot, apply_events,
  clear_target, get_record, marker,
}
use synclog.Memory.Views.{
  same_key, get_record-get_applied_seq, get_record-apply_snapshot, get_record-apply_events,
  get_record-clear_target, get_record-empty,
}
use synclog.Memory.Records.{
  Run, snapshot_seq, IsValid, IsValid-empty, push_events-IsValid, snapshot_record-IsValid,
}
use synclog.Memory.Coverage.{Covers, Covers-empty, push_events-Covers, snapshot_record-Covers}

module _ {TSnapshot TEvent : Type 0} where
  -- The stores that such calls make.
  pub data Fed : MemorySyncStore TSnapshot TEvent → Type 0 where
    created : Fed empty_store
    read :
        {s : MemorySyncStore TSnapshot TEvent} (key : TargetBindingKey)
        → Fed s
        → Fed (get_applied_seq key s).1
    snapshot :
        {s : MemorySyncStore TSnapshot TEvent} (key : TargetBindingKey)
        (snapshot : DecodedGatewaySnapshot TSnapshot)
        → snapshot_seq (get_record key s) ≤ snapshot.seq
        → Fed s
        → Fed (apply_snapshot key snapshot s)
    events :
        {s : MemorySyncStore TSnapshot TEvent} (key : TargetBindingKey) (start : ℕ)
        (events : List (DecodedGatewayEvent TEvent))
        → Run start events
        → start ≤ (get_record key s).applied_seq
        → Fed s
        → Fed (apply_events key events s)
    cleared :
        {s : MemorySyncStore TSnapshot TEvent} (target : SyncTarget)
        → Fed s
        → Fed (clear_target target s)

  -- A record that is in order and has no gap.
  abbrev IsWhole : MemorySyncRecord TSnapshot TEvent → Type 0
  IsWhole r = IsValid r × Covers r

  if-IsWhole :
      (b : Bool) (r t : MemorySyncRecord TSnapshot TEvent)
      → IsWhole r
      → IsWhole t
      → IsWhole (if b then r else t)
  if-IsWhole true r t v w = v
  if-IsWhole false r t v w = w

  -- However such calls are mixed, over however many keys, every record's events rise strictly up to
  -- its applied seq with its snapshot at or below that, and each seq up to the applied seq is within
  -- the snapshot or has its event.
  pub Fed-whole :
      {s : MemorySyncStore TSnapshot TEvent} (j : TargetBindingKey)
      → Fed s
      → IsValid (get_record j s) × Covers (get_record j s)
  Fed-whole j created =
      rw (get_record-empty {TSnapshot = TSnapshot} {TEvent = TEvent} j)
        (IsValid-empty, Covers-empty)
  Fed-whole j (read {s} key f) = rw (get_record-get_applied_seq key j s) (Fed-whole j f)
  Fed-whole j (snapshot {s} key snap newer f) =
      let (v, c) = Fed-whole key f in
      rw (get_record-apply_snapshot key j s snap) (
        if-IsWhole (same_key key j) _ _
          (
            snapshot_record-IsValid (get_record key s) snap v,
            snapshot_record-Covers (get_record key s) snap newer c,
          )
          (Fed-whole j f))
  Fed-whole j (events {s} key start es run joins f) =
      let (v, c) = Fed-whole key f in
      rw (get_record-apply_events key j s es) (
        if-IsWhole (same_key key j) _ _
          (
            push_events-IsValid (get_record key s) es v,
            push_events-Covers (get_record key s) start es run joins c,
          )
          (Fed-whole j f))
  Fed-whole j (cleared {s} target f) = rw (get_record-clear_target target j s) (
      if-IsWhole (includes (target_binding_key j) (marker target)) _ _ (IsValid-empty, Covers-empty)
        (Fed-whole j f))
