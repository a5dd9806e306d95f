-- ===== src/Memory/Redelivery.antt =====
-- A batch that is delivered twice.
use text.Mathlib.TextPositions.{eq_refl}
use synclog.Prelude.{◌≡◌, refl, List, [], ◌∷◌, some}
use synclog.JsMap
use synclog.JsMap.{get-set, set_same}
use synclog.Target.{TargetBindingKey, target_binding_key}
use synclog.Store.{DecodedGatewayEvent}
use synclog.Memory.{MemorySyncRecord, MemorySyncStore, record_at, push_events, apply_events}
use synclog.Memory.Records.{push_events_bounds, push_events-old}

module _ {TSnapshot TEvent : Type 0} where
  record_at-present :
      (key : TargetBindingKey) (s : MemorySyncStore TSnapshot TEvent)
      (r : MemorySyncRecord TSnapshot TEvent)
      → JsMap.get (target_binding_key key) s.records ≡ some r
      → record_at key s ≡ (r, s)
  unfolding record_at
  record_at-present key s r h = rw h

  abbrev written :
      TargetBindingKey
      → MemorySyncRecord TSnapshot TEvent
      → MemorySyncStore TSnapshot TEvent
      → MemorySyncStore TSnapshot TEvent
  written key r s = record s { records = JsMap.set (target_binding_key key) r s.records }

  -- Nothing is written where the record already has the events.
  write_again :
      (key : TargetBindingKey) (r : MemorySyncRecord TSnapshot TEvent)
      (t : MemorySyncStore TSnapshot TEvent) (es : List (DecodedGatewayEvent TEvent))
      → push_events r es ≡ r
      → written key
          (push_events (record_at key (written key r t)).0 es)
          (record_at key (written key r t)).1
        ≡ written key r t
  write_again key r t es same =
      let k = target_binding_key key in
      let got : JsMap.get k (written key r t).records ≡ some r = simp (get-set, eq_refl) in
      rw (record_at-present key (written key r t) r got)
        (rw same (λ i. record { records = set_same k r (written key r t).records got i }))

  -- Applying a batch a second time leaves the whole store as the first time left it.
  pub apply_events_idem :
      (key : TargetBindingKey) (events : List (DecodedGatewayEvent TEvent))
      (s : MemorySyncStore TSnapshot TEvent)
      → apply_events key events (apply_events key events s) ≡ apply_events key events s
  unfolding apply_events
  apply_events_idem key [] s = refl
  apply_events_idem key (e ∷ es) s =
      let r = push_events (record_at key s).0 (e ∷ es) in
      write_again key r (record_at key s).1 (e ∷ es)
        (push_events-old r (e ∷ es) (push_events_bounds (record_at key s).0 (e ∷ es)).1)
