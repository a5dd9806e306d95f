-- ===== src/Storage/Snapshots/Latest.antt =====
-- Snapshots of internal/storage/memory/store.go: what a put stores, and which one is the latest.
use synclog.Prelude.{
  ◌≤◌, ◌<◌, ◌↔◌, ◌≡◌, ◌≢◌, ◌⊎◌, inl, inr, refl, ap, All-map, ◌∙◌, true, false, some, arith,
  eq_false, eq_iff, All,
}
use synclog.GoMap.{get, set, get-set}
use synclog.Protocol.Snapshot.{
  Snapshot, PutSnapshotRequest, GetSnapshotRequest, GetLatestSnapshotRequest,
}
use synclog.Log.Result.{done, failed, err_not_found}
use synclog.Storage.{Store, SnapshotKey, snapshot_key, same_snapshot_key_iff}
use synclog.Storage.Snapshots.{
  put_snapshot, put_key, ref_of, is_same_snapshot, stored_ref, checksum_of, get_snapshot,
  found_answer, get_latest_snapshot, is_wanted, is_later, seq_of, version_of,
}
use synclog.Storage.Snapshots.Loop.{Entry, latest_found}

-- The request for the snapshot that a put names.
abbrev pub look_up : PutSnapshotRequest → GetSnapshotRequest
look_up req = record {
  stream_id = req.stream_id;
  seq = req.seq;
  payload_type = req.payload_type;
  payload_version = req.payload_version;
}

-- A put for a named stream and payload type, where no snapshot with the same checksum is in its
-- place, is answered with its own ref; the snapshot then comes back with the payload as it was
-- put, and the same put once more is answered as deduplicated and changes nothing.
pub put_snapshot-get_snapshot :
    (req : PutSnapshotRequest) (s : Store)
    → req.stream_id ≢ ""
    → req.payload_type ≢ ""
    → is_same_snapshot req (get (put_key req) s.snapshots) ≡ false
    → (s' : Store) × (put_snapshot (some req) s
        ≡ (done (record { snapshot = some (ref_of req); deduplicated = false }), s'))
      × (get_snapshot (some (look_up req)) s' ≡ (
        done (record {
          snapshot = some (record { ref = some (ref_of req); payload = req.payload });
        }),
        s',
      ))
      × (put_snapshot (some req) s'
          ≡ (done (record { snapshot = some (ref_of req); deduplicated = true }), s'))
unfolding put_snapshot get_snapshot is_same_snapshot stored_ref checksum_of
put_snapshot-get_snapshot req s what type new =
    let snapshot : Snapshot = record { ref = some (ref_of req); payload = req.payload } in
    let s' : Store = record s { snapshots = set (put_key req) snapshot s.snapshots } in
    let found : get (put_key req) s'.snapshots ≡ some snapshot =
      get-set (put_key req) (put_key req) snapshot s.snapshots
      ∙ rw ((same_snapshot_key_iff (put_key req) (put_key req)).1 refl) refl in
    (
      s',
      rw (eq_false req.stream_id "" what, eq_false req.payload_type "" type, new) refl,
      rw (eq_false req.stream_id "" what, eq_false req.payload_type "" type)
          (rw (found, found_answer) refl),
      rw (eq_false req.stream_id "" what, eq_false req.payload_type "" type)
          (rw (ap (is_same_snapshot req) found ∙ (eq_iff req.checksum req.checksum).1 refl, found)
            refl),
    )

-- What a request asks for: a stream and a payload type, up to a payload version where it has one.
abbrev pub Asked : GetLatestSnapshotRequest → SnapshotKey → Type 0
Asked req k =
    (k.stream_id ≡ req.stream_id)
    × (k.payload_type ≡ req.payload_type)
    × (0 < req.max_payload_version → k.payload_version ≤ req.max_payload_version)

-- No higher seq, and for the same seq no higher payload version.
abbrev pub NotAfter : Snapshot → Snapshot → Type 0
NotAfter a b =
    (seq_of a.ref ≤ seq_of b.ref)
    × (seq_of a.ref ≡ seq_of b.ref → version_of a.ref ≤ version_of b.ref)

is_wanted_iff :
    (req : GetLatestSnapshotRequest) (k : SnapshotKey) → (is_wanted req k ≡ true) ↔ Asked req k
unfolding is_wanted
is_wanted_iff req k = (
  λ h. (
    ground (arith, h, eq_iff k.stream_id req.stream_id),
    ground (arith, h, eq_iff k.payload_type req.payload_type),
    λ bounded. ground (arith, h, bounded),
  ),
  λ (stream, type, version). ground (
    arith,
    (eq_iff k.stream_id req.stream_id).1 stream,
    (eq_iff k.payload_type req.payload_type).1 type,
    version,
  ),
)

is_later-NotAfter : (a b : Snapshot) → is_later a b ≡ false → NotAfter a b
unfolding is_later
is_later-NotAfter a b h = (ground (arith, h), λ same. ground (arith, h, same))

-- The latest snapshot of a named stream and payload type, up to a payload version: it is one of
-- the stored ones, and none of them that is asked for has a higher seq, or the same and a higher
-- payload version, in whatever order the map is visited; where none is asked for, the answer is
-- NotFound. The state stays.
pub get_latest_snapshot-Latest :
    (req : GetLatestSnapshotRequest) (s : Store)
    → req.stream_id ≢ ""
    → req.payload_type ≢ ""
    → ((k : SnapshotKey) × (latest : Snapshot) × Entry (k, latest) s.snapshots.entries
        × Asked req k
        × All (λ e. Asked req e.0 → NotAfter e.1 latest) s.snapshots.entries
        × (get_latest_snapshot (some req) s ≡ (done (record { snapshot = some latest }), s)))
      ⊎ (All (λ e. ¬ Asked req e.0) s.snapshots.entries
          × (get_latest_snapshot (some req) s ≡ (failed err_not_found, s)))
get_latest_snapshot-Latest req s what type = elim (latest_found req s what type) [
  | inl (k, latest, stored, wanted, lower, answer) ↦ inl (
    k,
    latest,
    stored,
    (is_wanted_iff req k).0 wanted,
    All-map (λ e. is_wanted req e.0 ≡ true → is_later e.1 latest ≡ false)
        (λ e. Asked req e.0 → NotAfter e.1 latest) s.snapshots.entries
        (λ e low asked. is_later-NotAfter e.1 latest (low ((is_wanted_iff req e.0).1 asked))) lower,
    answer,
  )
  | inr (unwanted, answer) ↦ inr (
    All-map (λ e. is_wanted req e.0 ≡ false) (λ e. ¬ Asked req e.0) s.snapshots.entries
        (λ e other asked. ground (arith, other, (is_wanted_iff req e.0).1 asked)) unwanted,
    answer,
  )
]
