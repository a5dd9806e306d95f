-- ===== src/Storage/Wakeups.antt =====
-- The watchers of internal/storage/memory/store.go: none is left waiting for events that are there.
pub mod Calls
pub mod Served
pub mod Woken
pub mod Notifying
pub mod Keeping
use synclog.Prelude.{
  ℕ, ◌≡◌, ◌∙◌, sym, subst, refl, String, false, Bool, List, [], ◌∷◌, ◌++◌, Option, none, some,
  arith, ◌==◌, eq_iff, ltb, All, All-append, All-map, Bool-cases, Option-cases, List-cases, inl,
  inr, nat_eq,
}
use synclog.Prelude.Int.{ℤ}
use synclog.GoMap.{get, set, get-set, get-delete, string_key}
use synclog.Protocol.Admin.{StreamRetention}
use synclog.Storage.{Store, StreamState, StreamWatcher}
use synclog.Storage.Stream.{new_stream, cut, retain}
use synclog.Storage.Events.{or_new, put_stream, retained, apply_retention}
use synclog.Storage.Admin.{without_stream}
use synclog.Storage.Waiting.{
  notify_stream, put_watchers, watchers_of, kept_watchers, woken, swap_out, last_of, but_last,
  is_past, register, remove_watcher,
}

-- The watcher waits for events that are not there yet.
abbrev pub Waits : Option StreamState → StreamWatcher → Type 0
Waits o w = is_past w.after o ≡ false

-- Every watcher waits for events that are not there yet, but for those of streams that a test
-- takes out.
abbrev pub NoneMissedBut : (String → Bool) → Store → Type 0
NoneMissedBut out s =
    (id : String) (ws : List StreamWatcher)
    → out id ≡ false
    → get id s.watchers ≡ some ws
    → All (Waits (get id s.streams)) ws

abbrev pub NoneMissed : Store → Type 0
NoneMissed = NoneMissedBut (λ _. false)

-- A stream that changes, and has nothing above a place where it had nothing.
pub put_stream-NoneMissed :
    (out : String → Bool) (id : String) (stream : StreamState) (s : Store)
    → NoneMissedBut out s
    → ((after : ℕ)
        → out id ≡ false
        → is_past after (get id s.streams) ≡ false
        → is_past after (some stream) ≡ false)
    → NoneMissedBut out (put_stream id stream s)
unfolding put_stream
put_stream-NoneMissed out id stream s all low j ws inside there = elim (Bool-cases (id == j)) [
  | inl same ↦
      let here = (eq_iff id j).0 same in
      rw (get-set id j stream s.streams, same)
        (All-map (Waits (get j s.streams)) (Waits (some stream)) ws
          (λ w below.
            low w.after (subst (λ k. out k ≡ false) (sym here) inside)
              (subst (λ k. is_past w.after (get k s.streams) ≡ false) (sym here) below))
          (all j ws inside there))
  | inr other ↦ rw (get-set id j stream s.streams, other) (all j ws inside there)
]

or_new-low :
    (after : ℕ) (o : Option StreamState)
    → is_past after o ≡ false
    → is_past after (some (or_new o)) ≡ false
unfolding is_past or_new new_stream
or_new-low after none h = ground arith
or_new-low after (some stream) h = h

retained-head :
    (now : ℤ) (retention : Option StreamRetention) (stream : StreamState)
    → (retained now retention stream).head ≡ stream.head
unfolding retained retain cut
retained-head now none stream = refl
retained-head now (some retention) stream = elim (List-cases stream.events) [
  | inl none_left ↦ rw (none_left, retained) refl
  | inr (e, es, some_left) ↦ rw (some_left, retained) (ground arith)
]

-- A stream with the same head.
pub same_head-NoneMissed :
    (out : String → Bool) (id : String) (old new : StreamState) (s : Store)
    → NoneMissedBut out s
    → get id s.streams ≡ some old
    → new.head ≡ old.head
    → NoneMissedBut out (put_stream id new s)
unfolding is_past
same_head-NoneMissed out id old new s all there same =
    put_stream-NoneMissed out id new s all λ after inside. rw (there, same) λ low. low

pub apply_retention-NoneMissed :
    (out : String → Bool) (now : ℤ) (id : String) (s : Store)
    → NoneMissedBut out s
    → NoneMissedBut out (apply_retention now id s)
unfolding apply_retention
apply_retention-NoneMissed out now id s all = elim (Option-cases (get id s.streams)) [
  | inl missing ↦ rw (missing, apply_retention) all
  | inr (stream, there) ↦
      rw (there, apply_retention)
        (same_head-NoneMissed out id stream (retained now (get id s.retention) stream) s all there
          (retained-head now (get id s.retention) stream))
]

pub without_stream-NoneMissed :
    (id : String) (s : Store) → NoneMissed s → NoneMissed (without_stream id s)
unfolding without_stream is_past
without_stream-NoneMissed id s all j ws inside there = elim (Bool-cases (id == j)) [
  | inl same ↦
      rw (get-delete id j s.streams, same)
        (All-map (Waits (get j s.streams)) (Waits none) ws (λ w waits. refl) (all j ws refl there))
  | inr other ↦ rw (get-delete id j s.streams, other) (all j ws refl there)
]
