-- ===== src/Storage/History/Keeping.antt =====
-- The whole store of internal/storage/memory/store.go against all the events of its streams: what
-- an operation leaves alone, and what it writes.
use synclog.Prelude.{
  ℕ, ◌≡◌, refl, sym, ap, subst, String, List, [], ◌∷◌, Option, none, some, ◌==◌, eq_iff, Bool-cases,
  Option-cases, List-cases, ◌++◌, inl, inr,
}
use synclog.Prelude.Int.{ℤ}
use synclog.GoMap.{get, get-set, get-delete, string_key}
use synclog.Protocol.Admin.{StreamRetention}
use synclog.Log.Types.{Event}
use synclog.Storage.{Store, StreamState, StreamWatcher}
use synclog.Storage.Stream.{new_stream, cut, keep_from}
use synclog.Storage.Events.{
  or_new, put_stream, ensure_stream, retained, apply_retention, truncate_found, truncate_before,
}
use synclog.Storage.Admin.{without_stream}
use synclog.Storage.Waiting.{notify_stream, put_watchers, watchers_of, kept_watchers, woken}
use synclog.Storage.History.{Holds, HoldsAt, StoreHolds, updated}
use synclog.Storage.History.Changes.{new_stream-Holds, retain-Holds, cut-Holds, keep_from_bound}

pub or_new-Holds :
    (history : List Event) (o : Option StreamState) → HoldsAt history o → Holds history (or_new o)
unfolding or_new
or_new-Holds history none h = subst (λ l. Holds l new_stream) (sym h) new_stream-Holds
or_new-Holds history (some stream) h = h

pub put_stream-StoreHolds :
    (h : String → List Event) (s : Store) (id : String) (history : List Event)
    (stream : StreamState)
    → StoreHolds h s
    → Holds history stream
    → StoreHolds (updated id history h) (put_stream id stream s)
unfolding put_stream
put_stream-StoreHolds h s id history stream all here j = elim (Bool-cases (id == j)) [
  | inl same ↦ rw (get-set id j stream s.streams, same) here
  | inr other ↦ rw (get-set id j stream s.streams, other) (all j)
]

-- A stream whose events are the same as before.
pub same_stream-StoreHolds :
    (h : String → List Event) (s : Store) (id : String) (stream : StreamState)
    → StoreHolds h s
    → Holds (h id) stream
    → StoreHolds h (put_stream id stream s)
unfolding put_stream
same_stream-StoreHolds h s id stream all here j = elim (Bool-cases (id == j)) [
  | inl same ↦
      rw (get-set id j stream s.streams, same)
        (subst (λ k. Holds (h k) stream) ((eq_iff id j).0 same) here)
  | inr other ↦ rw (get-set id j stream s.streams, other) (all j)
]

pub updated_same :
    (h : String → List Event) (s : Store) (id : String)
    → StoreHolds h s
    → StoreHolds (updated id (h id) h) s
updated_same h s id all j = elim (Bool-cases (id == j)) [
  | inl same ↦
      rw same (subst (λ k. HoldsAt (h k) (get j s.streams)) (sym ((eq_iff id j).0 same)) (all j))
  | inr other ↦ rw other (all j)
]

pub updated_back :
    (h : String → List Event) (s : Store) (id : String)
    → StoreHolds (updated id (h id) h) s
    → StoreHolds h s
updated_back h s id all j = elim (Bool-cases (id == j)) [
  | inl same ↦
      subst (λ l. HoldsAt l (get j s.streams)) (rw same (ap h ((eq_iff id j).0 same))) (all j)
  | inr other ↦ subst (λ l. HoldsAt l (get j s.streams)) (rw other refl) (all j)
]

retained-Holds :
    (now : ℤ) (retention : Option StreamRetention) (history : List Event) (s : StreamState)
    → Holds history s
    → Holds history (retained now retention s)
unfolding retained
retained-Holds now none history s h = h
retained-Holds now (some retention) history s h = elim (List-cases s.events) [
  | inl none_left ↦ rw (none_left, retained) h
  | inr (e, es, some_left) ↦ rw (some_left, retained) (retain-Holds now retention history s h)
]

pub apply_retention-StoreHolds :
    (now : ℤ) (id : String) (h : String → List Event) (s : Store)
    → StoreHolds h s
    → StoreHolds h (apply_retention now id s)
unfolding apply_retention
apply_retention-StoreHolds now id h s all = elim (Option-cases (get id s.streams)) [
  | inl missing ↦ rw (missing, apply_retention) all
  | inr (stream, there) ↦
      rw (there, apply_retention)
        (same_stream-StoreHolds h s id (retained now (get id s.retention) stream) all (
          retained-Holds now (get id s.retention) (h id) stream
            (subst (HoldsAt (h id)) there (all id))))
]

pub put_watchers-streams :
    (id : String) (ws : List StreamWatcher) (s : Store) → (put_watchers id ws s).streams ≡ s.streams
unfolding put_watchers
put_watchers-streams id [] s = refl
put_watchers-streams id (w ∷ ws) s = refl

-- Waking watchers changes no stream.
pub notify_stream-streams :
    (id : String) (head : ℕ) (s : Store) → (notify_stream id head s).streams ≡ s.streams
unfolding notify_stream
notify_stream-streams id head s = elim (List-cases (watchers_of id s)) [
  | inl nobody ↦ rw (nobody, notify_stream)
  | inr (w, ws, some_wait) ↦
      rw (some_wait, notify_stream)
        (put_watchers-streams id (kept_watchers head (w ∷ ws))
          (record s { closed = woken head (w ∷ ws) ++ s.closed }))
]

pub notify_stream-StoreHolds :
    (id : String) (head : ℕ) (h : String → List Event) (s : Store)
    → StoreHolds h s
    → StoreHolds h (notify_stream id head s)
notify_stream-StoreHolds id head h s all j = rw (notify_stream-streams id head s) (all j)

truncate_found-StoreHolds :
    (id : String) (before : ℕ) (h : String → List Event) (s : Store) (o : Option StreamState)
    → StoreHolds h s
    → HoldsAt (h id) o
    → StoreHolds h (truncate_found id before o s).1
unfolding truncate_found
truncate_found-StoreHolds id before h s none all here = all
truncate_found-StoreHolds id before h s (some stream) all here =
    same_stream-StoreHolds h s id (cut (keep_from before stream.events) stream) all (
      cut-Holds (keep_from before stream.events) (h id) stream here
        (keep_from_bound before stream.events))

pub truncate_before-StoreHolds :
    (id : String) (before : ℕ) (h : String → List Event) (s : Store)
    → StoreHolds h s
    → StoreHolds h (truncate_before id before s).1
unfolding truncate_before
truncate_before-StoreHolds id before h s all = elim (Bool-cases (id == "")) [
  | inl empty ↦ rw empty all
  | inr named ↦ rw named (truncate_found-StoreHolds id before h s (get id s.streams) all (all id))
]

pub ensure_stream-StoreHolds :
    (id : String) (h : String → List Event) (s : Store)
    → StoreHolds h s
    → StoreHolds h (ensure_stream id s).1
unfolding ensure_stream
ensure_stream-StoreHolds id h s all =
    same_stream-StoreHolds h s id (or_new (get id s.streams)) all
      (or_new-Holds (h id) (get id s.streams) (all id))

-- A stream that is deleted has no events any more.
pub without_stream-StoreHolds :
    (id : String) (h : String → List Event) (s : Store)
    → StoreHolds h s
    → StoreHolds (updated id [] h) (without_stream id s)
unfolding without_stream
without_stream-StoreHolds id h s all j = elim (Bool-cases (id == j)) [
  | inl same ↦ rw (get-delete id j s.streams, same) refl
  | inr other ↦ rw (get-delete id j s.streams, other) (all j)
]
