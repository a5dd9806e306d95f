-- ===== src/Storage/Snapshots.antt =====
-- internal/storage/memory/store.go: the snapshots of streams.
pub mod Latest
pub mod Loop
use synclog.Prelude.{
  ℕ, zero, suc, String, Bool, true, false, not, ◌&&◌, ◌||◌, List, [], ◌∷◌, Option, none, some, ◌==◌,
  ltb, leb, if◌then◌else◌, length, nat_eq, is_some,
}
use synclog.Prelude.Int.{pos}
use synclog.GoMap.{get, set, delete}
use synclog.Protocol.Snapshot.{
  Snapshot, SnapshotRef, PutSnapshotRequest, PutSnapshotResponse, GetLatestSnapshotRequest,
  GetLatestSnapshotResponse, GetSnapshotRequest, GetSnapshotResponse, ListSnapshotsRequest,
  ListSnapshotsResponse, DeleteSnapshotRequest, DeleteSnapshotResponse,
}
use synclog.Log.Types.{max_limit}
use synclog.Log.Result.{Op, return, fail, invalid, not_nil, err_not_found}
use synclog.Storage.{Store, SnapshotKey, snapshot_key}

abbrev pub SnapshotEntry : Type 0
SnapshotEntry = SnapshotKey × Snapshot

-- `GetRef().GetChecksum()`, `GetRef().GetSeq()` and `GetRef().GetPayloadVersion()`, with the zero
-- value where there is no ref.
unfoldable pub checksum_of : Option SnapshotRef → String
checksum_of none = ""
checksum_of (some ref) = ref.checksum

unfoldable pub seq_of : Option SnapshotRef → ℕ
seq_of none = 0
seq_of (some ref) = ref.seq

unfoldable pub version_of : Option SnapshotRef → ℕ
version_of none = 0
version_of (some ref) = ref.payload_version

abbrev pub put_key : PutSnapshotRequest → SnapshotKey
put_key req = record {
  stream_id = req.stream_id;
  seq = req.seq;
  payload_type = req.payload_type;
  payload_version = req.payload_version;
}

unfoldable pub ref_of : PutSnapshotRequest → SnapshotRef
ref_of req = record {
  stream_id = req.stream_id;
  seq = req.seq;
  payload_type = req.payload_type;
  payload_version = req.payload_version;
  compression = req.compression;
  checksum = req.checksum;
  size_bytes = pos (length req.payload);
  created_at_unix_ms = pos 0;
  producer_id = req.producer_id;
}

unfoldable pub is_same_snapshot : PutSnapshotRequest → Option Snapshot → Bool
unfolding checksum_of
is_same_snapshot req none = false
is_same_snapshot req (some existing) = checksum_of existing.ref == req.checksum

unfoldable pub stored_ref : Option Snapshot → Option SnapshotRef
stored_ref none = none
stored_ref (some existing) = existing.ref

unfoldable pub put_snapshot : Option PutSnapshotRequest → Op Store PutSnapshotResponse
unfolding is_same_snapshot stored_ref ref_of
put_snapshot request = not_nil "put snapshot request is required" request λ req.
    if req.stream_id == ""
    then invalid "stream id is required"
    else if req.payload_type == ""
    then invalid "payload type is required"
    else λ s.
        let existing = get (put_key req) s.snapshots in
        if is_same_snapshot req existing
        then return (record { snapshot = stored_ref existing; deduplicated = true }) s
        else return (record { snapshot = some (ref_of req); deduplicated = false })
            (record s {
              snapshots =
                  set (put_key req) (record { ref = some (ref_of req); payload = req.payload })
                    s.snapshots;
            })

-- The entries that GetLatestSnapshot does not skip.
unfoldable pub is_wanted : GetLatestSnapshotRequest → SnapshotKey → Bool
is_wanted req k =
    k.stream_id == req.stream_id
    && k.payload_type == req.payload_type
    && not (ltb 0 req.max_payload_version && ltb req.max_payload_version k.payload_version)

unfoldable pub is_later : Snapshot → Snapshot → Bool
unfolding seq_of version_of
is_later a b =
    ltb (seq_of b.ref) (seq_of a.ref)
    || nat_eq (seq_of a.ref) (seq_of b.ref) && ltb (version_of b.ref) (version_of a.ref)

unfoldable pub replaces : Snapshot → Option Snapshot → Bool
unfolding is_later
replaces snapshot none = true
replaces snapshot (some latest) = is_later snapshot latest

-- The loop of GetLatestSnapshot, with the latest one found before.
unfoldable pub latest_of :
    GetLatestSnapshotRequest → Option Snapshot → List SnapshotEntry → Option Snapshot
unfolding is_wanted replaces
latest_of req latest [] = latest
latest_of req latest ((k, snapshot) ∷ m) =
    latest_of req (if is_wanted req k && replaces snapshot latest then some snapshot else latest) m

unfoldable pub latest_answer : Option Snapshot → Op Store GetLatestSnapshotResponse
latest_answer none = fail err_not_found
latest_answer (some latest) = return (record { snapshot = some latest })

unfoldable pub get_latest_snapshot :
    Option GetLatestSnapshotRequest → Op Store GetLatestSnapshotResponse
unfolding latest_of latest_answer
get_latest_snapshot request = not_nil "get latest snapshot request is required" request λ req.
    if req.stream_id == ""
    then invalid "stream id is required"
    else if req.payload_type == ""
    then invalid "payload type is required"
    else λ s. latest_answer (latest_of req none s.snapshots.entries) s

abbrev pub get_key : GetSnapshotRequest → SnapshotKey
get_key req = record {
  stream_id = req.stream_id;
  seq = req.seq;
  payload_type = req.payload_type;
  payload_version = req.payload_version;
}

unfoldable pub found_answer : Option Snapshot → Op Store GetSnapshotResponse
found_answer none = fail err_not_found
found_answer (some snapshot) = return (record { snapshot = some snapshot })

unfoldable pub get_snapshot : Option GetSnapshotRequest → Op Store GetSnapshotResponse
unfolding found_answer
get_snapshot request = not_nil "get snapshot request is required" request λ req.
    if req.stream_id == ""
    then invalid "stream id is required"
    else if req.payload_type == ""
    then invalid "payload type is required"
    else λ s. found_answer (get (get_key req) s.snapshots) s

-- The limit of a listing: 0 and what is above the maximum is the maximum.
unfoldable pub list_limit : ℕ → ℕ
list_limit n = if leb n 0 || ltb max_limit n then max_limit else n

unfoldable pub is_listed : ListSnapshotsRequest → SnapshotKey → Bool
is_listed req k =
    k.stream_id == req.stream_id && (req.payload_type == "" || k.payload_type == req.payload_type)

abbrev pub cons_ref : Option SnapshotRef → List SnapshotRef → List SnapshotRef
cons_ref none refs = refs
cons_ref (some ref) refs = ref ∷ refs

-- The loop of ListSnapshots, which ends when it has `room` more: `room` is not 0 at its start. A
-- snapshot without a ref, which PutSnapshot never stores, adds none.
unfoldable pub refs_up_to : ListSnapshotsRequest → ℕ → List SnapshotEntry → List SnapshotRef
unfolding is_listed
refs_up_to req room [] = []
refs_up_to req zero (entry ∷ m) = []
refs_up_to req (suc room) ((k, snapshot) ∷ m) =
    let less = refs_up_to req room m in
    let rest = refs_up_to req (suc room) m in
    if is_listed req k then cons_ref snapshot.ref less else rest

unfoldable pub list_snapshots : Option ListSnapshotsRequest → Op Store ListSnapshotsResponse
unfolding refs_up_to list_limit
list_snapshots request = not_nil "list snapshots request is required" request λ req.
    if req.stream_id == "" then invalid "stream id is required" else λ s.
    return
      (record {
        snapshots = refs_up_to req (list_limit req.limit) s.snapshots.entries;
        next_page_token = "";
      })
      s

abbrev pub delete_key : DeleteSnapshotRequest → SnapshotKey
delete_key req = record {
  stream_id = req.stream_id;
  seq = req.seq;
  payload_type = req.payload_type;
  payload_version = req.payload_version;
}

unfoldable pub delete_snapshot : Option DeleteSnapshotRequest → Op Store DeleteSnapshotResponse
delete_snapshot request = not_nil "delete snapshot request is required" request λ req.
    if req.stream_id == ""
    then invalid "stream id is required"
    else if req.payload_type == ""
    then invalid "payload type is required"
    else λ s.
        if is_some (get (delete_key req) s.snapshots)
        then return (record { deleted = true })
            (record s { snapshots = delete (delete_key req) s.snapshots })
        else return (record { deleted = false }) s
