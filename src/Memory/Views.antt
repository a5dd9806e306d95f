-- ===== src/Memory/Views.antt =====
-- What `getRecord` reads after each method of the memory store.
use synclog.Prelude.{
  String, ◌≡◌, refl, Bool, true, ◌&&◌, List, [], ◌∷◌, none, some, arith, ◌==◌, eq_iff,
  if◌then◌else◌,
}
use synclog.Prelude.Text.{includes}
use synclog.JsMap
use synclog.JsMap.{JsMap, get-set, get-delete, get-unlisted, get-empty, listed, set_same}
use synclog.Protocol.Gateway.{SyncTarget}
use synclog.Target.{TargetBindingKey, target_binding_key}
use synclog.Store.{DecodedGatewayEvent, DecodedGatewaySnapshot}
use synclog.Memory.{
  MemorySyncRecord, MemorySyncStore, empty_record, empty_store, record_at, get_applied_seq,
  snapshot_record, apply_snapshot, push_events, apply_events, marker, clear_keys, clear_target,
  get_record,
}

-- The two keys are filed under one text.
abbrev pub same_key : TargetBindingKey → TargetBindingKey → Bool
same_key k j = target_binding_key k == target_binding_key j

module _ {TSnapshot TEvent : Type 0} (k j : TargetBindingKey)
    (s : MemorySyncStore TSnapshot TEvent) where
  pub record_at-record : (record_at k s).0 ≡ get_record k s
  unfolding record_at get_record
  record_at-record = ground arith

  -- Reading a key's record makes it where it was missing, which no reader can tell.
  pub get_record-record_at : get_record j (record_at k s).1 ≡ get_record j s
  unfolding record_at get_record
  get_record-record_at = ground (
    arith,
    get-set (target_binding_key k) (target_binding_key j) empty_record s.records,
    eq_iff (target_binding_key k) (target_binding_key j),
  )

  pub get_record-get_applied_seq : get_record j (get_applied_seq k s).1 ≡ get_record j s
  unfolding get_applied_seq
  get_record-get_applied_seq = get_record-record_at

  pub get_applied_seq_lem : (get_applied_seq k s).0 ≡ (get_record k s).applied_seq
  unfolding get_applied_seq
  get_applied_seq_lem = ground (arith, record_at-record)

  pub get_record-apply_snapshot :
      (snapshot : DecodedGatewaySnapshot TSnapshot)
      → get_record j (apply_snapshot k snapshot s) ≡ (
          if same_key k j then snapshot_record (some (get_record k s)) snapshot else get_record j s)
  unfolding apply_snapshot get_record
  get_record-apply_snapshot snapshot = ground (
    arith,
    get-set (target_binding_key k) (target_binding_key j)
        (snapshot_record (JsMap.get (target_binding_key k) s.records) snapshot) s.records,
  )

  pub get_record-same : same_key k j ≡ true → get_record k s ≡ get_record j s
  unfolding get_record
  get_record-same h = cc ((eq_iff (target_binding_key k) (target_binding_key j)).0 h)

  get_record-write :
      (r : MemorySyncRecord TSnapshot TEvent) (t : MemorySyncStore TSnapshot TEvent)
      → get_record j (record t { records = JsMap.set (target_binding_key k) r t.records })
        ≡ (if same_key k j then r else get_record j t)
  unfolding get_record
  get_record-write r t =
      ground (arith, get-set (target_binding_key k) (target_binding_key j) r t.records)

  pub get_record-apply_events :
      (events : List (DecodedGatewayEvent TEvent))
      → get_record j (apply_events k events s)
        ≡ (if same_key k j then push_events (get_record k s) events else get_record j s)
  unfolding apply_events
  get_record-apply_events [] = ground (arith, get_record-same)
  get_record-apply_events (event ∷ events) = ground (
    arith,
    record_at-record,
    get_record-record_at,
    get_record-write (push_events (record_at k s).0 (event ∷ events)) (record_at k s).1,
  )

module _ {TSnapshot TEvent : Type 0} where
  get-clear_keys :
      (j m : String) (ks : List String) (records : JsMap (MemorySyncRecord TSnapshot TEvent))
      → JsMap.get j (clear_keys m ks records)
        ≡ (if includes j m && listed j ks then none else JsMap.get j records)
  unfolding clear_keys
  get-clear_keys j m [] records = ground arith
  get-clear_keys j m (key ∷ ks) records = ground (
    arith,
    eq_iff key j,
    get-delete key j records,
    get-clear_keys j m ks records,
    get-clear_keys j m ks (JsMap.delete key records),
  )

  -- A record is gone exactly when its key includes the marker.
  pub get_record-clear_target :
      (target : SyncTarget) (j : TargetBindingKey) (s : MemorySyncStore TSnapshot TEvent)
      → get_record j (clear_target target s)
        ≡ (if includes (target_binding_key j) (marker target) then empty_record else get_record j s)
  unfolding clear_target get_record
  get_record-clear_target target j s = ground (
    arith,
    get-clear_keys (target_binding_key j) (marker target) (JsMap.keys s.records) s.records,
    get-unlisted (target_binding_key j) s.records,
  )

  pub get_record-empty :
      (j : TargetBindingKey)
      → get_record j (empty_store {TSnapshot = TSnapshot} {TEvent = TEvent}) ≡ empty_record
  unfolding get_record
  get_record-empty j = rw get-empty

  -- An empty batch does not even make the record.
  pub apply_events-nil :
      (k : TargetBindingKey) (s : MemorySyncStore TSnapshot TEvent) → apply_events k [] s ≡ s
  unfolding apply_events
  apply_events-nil k s = refl
