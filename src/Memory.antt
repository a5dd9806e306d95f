-- ===== src/Memory.antt =====
-- ts/synclog/src/memory-store.ts: `MemorySyncStore`, whose `Map` is `JsMap`. Its methods have no
-- `await`, so each is one function from the store to its result and the new store. A record that
-- the code changes in place is written back under its key.
pub mod Views
pub mod Records
pub mod Coverage
pub mod Redelivery
pub mod Growth
pub mod Clearing
pub mod Feed
use synclog.Prelude.{ℕ, String, List, [], ◌∷◌, ◌++◌, Option, none, some, ltb, leb, if◌then◌else◌}
use synclog.Prelude.Text.{◌+++◌, includes}
use synclog.Protocol.Gateway.{SyncTarget}
use synclog.Target.{TargetBindingKey, target_key, target_binding_key}
use synclog.Store.{DecodedGatewayEvent, DecodedGatewaySnapshot}
use synclog.JsMap
use synclog.JsMap.{JsMap}

pub record MemorySyncRecord (TSnapshot TEvent : Type 0) : Type 0 where
  pub applied_seq : ℕ
  pub snapshot : Option (DecodedGatewaySnapshot TSnapshot)
  pub events : List (DecodedGatewayEvent TEvent)

pub record MemorySyncStore (TSnapshot TEvent : Type 0) : Type 0 where
  pub records : JsMap (MemorySyncRecord TSnapshot TEvent)

-- The text that `clearTarget` looks for in the keys.
pub marker : SyncTarget → String
marker target = ":" +++ target_key target +++ "#"

module _ {TSnapshot TEvent : Type 0} where
  abbrev pub empty_record : MemorySyncRecord TSnapshot TEvent
  empty_record = record { applied_seq = 0; snapshot = none; events = [] }

  abbrev pub empty_store : MemorySyncStore TSnapshot TEvent
  empty_store = record { records = JsMap.empty }

  -- `#record`: the record of a key, made if it is not there.
  found_or_new :
      String
      → Option (MemorySyncRecord TSnapshot TEvent)
      → MemorySyncStore TSnapshot TEvent
      → MemorySyncRecord TSnapshot TEvent × MemorySyncStore TSnapshot TEvent
  found_or_new encoded (some r) s = (r, s)
  found_or_new encoded none s =
      (empty_record, record s { records = JsMap.set encoded empty_record s.records })

  unfoldable pub record_at :
      TargetBindingKey
      → MemorySyncStore TSnapshot TEvent
      → MemorySyncRecord TSnapshot TEvent × MemorySyncStore TSnapshot TEvent
  unfolding found_or_new
  record_at key s =
      let encoded = target_binding_key key in found_or_new encoded (JsMap.get encoded s.records) s

  unfoldable pub get_applied_seq :
      TargetBindingKey → MemorySyncStore TSnapshot TEvent → ℕ × MemorySyncStore TSnapshot TEvent
  get_applied_seq key s = let (r, s') = record_at key s in (r.applied_seq, s')

  pub snapshot_record :
      Option (MemorySyncRecord TSnapshot TEvent)
      → DecodedGatewaySnapshot TSnapshot
      → MemorySyncRecord TSnapshot TEvent
  snapshot_record none snapshot = record {
    applied_seq = snapshot.seq;
    snapshot = some snapshot;
    events = [];
  }
  snapshot_record (some existing) snapshot =
      if ltb snapshot.seq existing.applied_seq
      then record existing { snapshot = some snapshot }
      else record { applied_seq = snapshot.seq; snapshot = some snapshot; events = [] }

  unfoldable pub apply_snapshot :
      TargetBindingKey
      → DecodedGatewaySnapshot TSnapshot
      → MemorySyncStore TSnapshot TEvent
      → MemorySyncStore TSnapshot TEvent
  unfolding snapshot_record
  apply_snapshot key snapshot s =
      let encoded = target_binding_key key in
      let existing = JsMap.get encoded s.records in
      record s { records = JsMap.set encoded (snapshot_record existing snapshot) s.records }

  -- One round of the loop of `applyEvents`.
  pub push_event :
      MemorySyncRecord TSnapshot TEvent
      → DecodedGatewayEvent TEvent
      → MemorySyncRecord TSnapshot TEvent
  push_event r event =
      if leb event.seq r.applied_seq
      then r
      else record r { events = r.events ++ event ∷ []; applied_seq = event.seq }

  pub push_events :
      MemorySyncRecord TSnapshot TEvent
      → List (DecodedGatewayEvent TEvent)
      → MemorySyncRecord TSnapshot TEvent
  push_events r [] = r
  push_events r (event ∷ events) = push_events (push_event r event) events

  unfoldable pub apply_events :
      TargetBindingKey
      → List (DecodedGatewayEvent TEvent)
      → MemorySyncStore TSnapshot TEvent
      → MemorySyncStore TSnapshot TEvent
  unfolding push_events push_event
  apply_events key [] s = s
  apply_events key (event ∷ events) s =
      let (r, s') = record_at key s in
      record s' {
        records = JsMap.set (target_binding_key key) (push_events r (event ∷ events)) s'.records;
      }

  -- The loop of `clearTarget` over the keys: a `Map` may be emptied while its keys are walked.
  pub clear_keys :
      String
      → List String
      → JsMap (MemorySyncRecord TSnapshot TEvent)
      → JsMap (MemorySyncRecord TSnapshot TEvent)
  clear_keys m [] records = records
  clear_keys m (key ∷ keys) records =
      clear_keys m keys (if includes key m then JsMap.delete key records else records)

  unfoldable pub clear_target :
      SyncTarget → MemorySyncStore TSnapshot TEvent → MemorySyncStore TSnapshot TEvent
  unfolding clear_keys marker
  clear_target target s = record s {
    records = clear_keys (marker target) (JsMap.keys s.records) s.records;
  }

  -- The copy of a record that `getRecord` hands out, or an empty one.
  copy_of : Option (MemorySyncRecord TSnapshot TEvent) → MemorySyncRecord TSnapshot TEvent
  copy_of none = empty_record
  copy_of (some r) = record {
    applied_seq = r.applied_seq;
    snapshot = r.snapshot;
    events = r.events;
  }

  unfoldable pub get_record :
      TargetBindingKey → MemorySyncStore TSnapshot TEvent → MemorySyncRecord TSnapshot TEvent
  unfolding copy_of
  get_record key s = copy_of (JsMap.get (target_binding_key key) s.records)
