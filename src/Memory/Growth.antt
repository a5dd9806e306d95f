-- ===== src/Memory/Growth.antt =====
-- What the methods of the memory store keep, and that no key falls back under them.
use text.Mathlib.TextPositions.{eq_refl}
use synclog.Prelude.{ℕ, ◌≤◌, List, arith, if◌then◌else◌, true, false, Bool}
use synclog.Target.{TargetBindingKey, target_binding_key}
use synclog.Store.{DecodedGatewayEvent, DecodedGatewaySnapshot}
use synclog.Memory.{
  MemorySyncRecord, MemorySyncStore, get_record, get_applied_seq, apply_snapshot, apply_events,
  empty_store,
}
use synclog.Memory.Views.{
  same_key, get_record-same, get_record-get_applied_seq, get_record-apply_snapshot,
  get_record-apply_events, get_record-empty,
}
use synclog.Memory.Records.{
  IsValid, IsValid-empty, push_events_bounds, snapshot_record_bounds, push_events-IsValid,
  snapshot_record-IsValid,
}

module _ {TSnapshot TEvent : Type 0} where
  -- What every method but `clearTarget` keeps.
  pub record IsKept (P : MemorySyncStore TSnapshot TEvent → Type 0) : Type 0 where
    pub on_read :
        (key : TargetBindingKey) (s : MemorySyncStore TSnapshot TEvent)
        → P s
        → P (get_applied_seq key s).1
    pub on_snapshot :
        (key : TargetBindingKey) (snapshot : DecodedGatewaySnapshot TSnapshot)
        (s : MemorySyncStore TSnapshot TEvent)
        → P s
        → P (apply_snapshot key snapshot s)
    pub on_events :
        (key : TargetBindingKey) (events : List (DecodedGatewayEvent TEvent))
        (s : MemorySyncStore TSnapshot TEvent)
        → P s
        → P (apply_events key events s)

  -- No key falls back.
  abbrev pub Grows : MemorySyncStore TSnapshot TEvent → MemorySyncStore TSnapshot TEvent → Type 0
  Grows s t = (j : TargetBindingKey) → (get_record j s).applied_seq ≤ (get_record j t).applied_seq

  pub get_applied_seq-Grows :
      (k : TargetBindingKey) (s : MemorySyncStore TSnapshot TEvent)
      → Grows s (get_applied_seq k s).1
  get_applied_seq-Grows k s j = rw (get_record-get_applied_seq k j s) (omega arith)

  pub apply_snapshot-Grows :
      (k : TargetBindingKey) (snapshot : DecodedGatewaySnapshot TSnapshot)
      (s : MemorySyncStore TSnapshot TEvent)
      → Grows s (apply_snapshot k snapshot s)
  apply_snapshot-Grows k snapshot s j = ground (
    arith,
    get_record-apply_snapshot k j s snapshot,
    get_record-same k j s,
    snapshot_record_bounds (get_record k s) snapshot,
  )

  pub apply_events-Grows :
      (k : TargetBindingKey) (events : List (DecodedGatewayEvent TEvent))
      (s : MemorySyncStore TSnapshot TEvent)
      → Grows s (apply_events k events s)
  apply_events-Grows k events s j = ground (
    arith,
    get_record-apply_events k j s events,
    get_record-same k j s,
    push_events_bounds (get_record k s) events,
  )

  pub apply_snapshot-reaches :
      (k : TargetBindingKey) (snapshot : DecodedGatewaySnapshot TSnapshot)
      (s : MemorySyncStore TSnapshot TEvent)
      → snapshot.seq ≤ (get_record k (apply_snapshot k snapshot s)).applied_seq
  apply_snapshot-reaches k snapshot s = ground (
    arith,
    get_record-apply_snapshot k k s snapshot,
    eq_refl (target_binding_key k),
    snapshot_record_bounds (get_record k s) snapshot,
  )

  -- Every record is in order.
  abbrev pub AllValid : MemorySyncStore TSnapshot TEvent → Type 0
  AllValid s = (j : TargetBindingKey) → IsValid (get_record j s)

  if-IsValid :
      (b : Bool) (r t : MemorySyncRecord TSnapshot TEvent)
      → IsValid r
      → IsValid t
      → IsValid (if b then r else t)
  if-IsValid true r t v w = v
  if-IsValid false r t v w = w

  pub AllValid-IsKept : IsKept AllValid
  AllValid-IsKept = record {
    on_read = λ k s v j. rw (get_record-get_applied_seq k j s) (v j);
    on_snapshot = λ k snapshot s v j. rw (get_record-apply_snapshot k j s snapshot) (
        if-IsValid (same_key k j) _ _ (snapshot_record-IsValid (get_record k s) snapshot (v k))
          (v j));
    on_events = λ k events s v j.
        rw (get_record-apply_events k j s events)
          (if-IsValid (same_key k j) _ _ (push_events-IsValid (get_record k s) events (v k)) (v j));
  }

  pub any-IsKept : IsKept (λ _. Unit {0})
  any-IsKept = record {
    on_read = λ k s h. tt;
    on_snapshot = λ k snapshot s h. tt;
    on_events = λ k events s h. tt;
  }

  -- Once a key has reached a seq it stays there.
  pub reached-IsKept :
      (j : TargetBindingKey) (n : ℕ) → IsKept (λ s. n ≤ (get_record j s).applied_seq)
  reached-IsKept j n = record {
    on_read = λ k s h. omega (arith, get_applied_seq-Grows k s j);
    on_snapshot = λ k snapshot s h. omega (arith, apply_snapshot-Grows k snapshot s j);
    on_events = λ k events s h. omega (arith, apply_events-Grows k events s j);
  }

pub AllValid-empty :
    {TSnapshot TEvent : Type 0} → AllValid (empty_store {TSnapshot = TSnapshot} {TEvent = TEvent})
AllValid-empty j = rw (get_record-empty j) IsValid-empty
