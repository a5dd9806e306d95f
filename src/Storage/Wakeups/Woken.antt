-- ===== src/Storage/Wakeups/Woken.antt =====
-- WaitForStream of internal/storage/memory/store.go over runs of calls: what wakes a wait.
use synclog.Prelude.{
  ℕ, ◌<◌, ◌≡◌, sym, subst, refl, String, true, false, List, [], ◌∷◌, Option, arith, ◌==◌,
  Bool-cases, some, Option-cases, inl, inr, All,
}
use mathlib.Core.List.{Memᴰ}
use synclog.GoMap.{get, string_key}
use synclog.Log.Result.{done}
use synclog.Storage.{Store, StreamState, StreamWatcher, new_store}
use synclog.Storage.Waiting.{waits_on, wait_for_stream, is_past, register}
use synclog.Storage.Calls.{Call, runs}
use synclog.Storage.Wakeups.{NoneMissed, Waits}
use synclog.Storage.Wakeups.Calls.{
  runs_from-NoneMissed, runs-NoneMissed, wait_for_stream-NoneMissed,
}
use synclog.Storage.Wakeups.Served.{Registered, Served, new_watcher-Served}
use synclog.Storage.Wakeups.Keeping.{stops, runs-Served}

-- The wait that begins: its watcher.
started-Served :
    (id : String) (after ch : ℕ) (s : Store)
    → (wait_for_stream id after s).0 ≡ done (waits_on ch)
    → Served id (record { after = after; ch = ch }) (wait_for_stream id after s).1
unfolding wait_for_stream
started-Served id after ch s = elim (Bool-cases (id == "")) [
  | inl empty ↦ rw empty (λ e. ground (arith, e))
  | inr named ↦ elim (Bool-cases (is_past after (get id s.streams))) [
    | inl past ↦ rw (named, past) (λ e. ground (arith, e))
    | inr waits ↦
        rw (named, waits)
          (λ e.
            let same : s.made ≡ ch = ground (arith, e) in
            subst (λ n. Served id (record { after = after; ch = n }) (register id after s)) same
              (new_watcher-Served id after s))
  ]
]

Waits-All :
    (o : Option StreamState) (w : StreamWatcher) (ws : List StreamWatcher)
    → Memᴰ w ws
    → All (Waits o) ws
    → Waits o w
Waits-All o w [] m all = elim m [ ]
Waits-All o w (v ∷ vs) (Memᴰ.head e) all = subst (Waits o) (sym e) all.0
Waits-All o w (v ∷ vs) (Memᴰ.tail m) all = Waits-All o w vs m all.1

woken_or_waits :
    (id : String) (w : StreamWatcher) (s : Store)
    → NoneMissed s
    → Served id w s
    → is_past w.after (get id s.streams) ≡ true
    → Memᴰ w.ch s.closed
woken_or_waits id w s all (inr woke) past = woke
woken_or_waits id w s all (inl there) past = elim (Option-cases (get id s.watchers)) [
  | inl nobody ↦ absurd (subst (Registered w) nobody there)
  | inr (ws, here) ↦
      let waits : is_past w.after (get id s.streams) ≡ false =
        Waits-All (get id s.streams) w ws (subst (Registered w) here there) (all id ws refl here) in
      ground (arith, waits, past)
]

is_past-head :
    (after : ℕ) (o : Option StreamState) (stream : StreamState)
    → o ≡ some stream
    → after < stream.head
    → is_past after o ≡ true
unfolding is_past
is_past-head after o stream there above = rw there (ground (arith, above))

-- After any run of calls from a new store, a wait for the events of a stream above a place that is
-- left on a channel, and that no later call stops: behind any later run of calls that leaves the
-- stream with a head above the place, its channel is closed.
pub wait_for_stream-woken :
    (before later : List Call) (id : String) (after ch : ℕ) (stream : StreamState)
    → (wait_for_stream id after (runs before new_store)).0 ≡ done (waits_on ch)
    → All (λ c. stops ch c ≡ false) later
    → get id (runs later (wait_for_stream id after (runs before new_store)).1).streams ≡ some stream
    → after < stream.head
    → Memᴰ ch (runs later (wait_for_stream id after (runs before new_store)).1).closed
wait_for_stream-woken before later id after ch stream begun on there above =
    let s = runs before new_store in
    let w : StreamWatcher = record { after = after; ch = ch } in
    let waiting = (wait_for_stream id after s).1 in
    let end = runs later waiting in
    woken_or_waits id w end
      (runs_from-NoneMissed later waiting
        (wait_for_stream-NoneMissed s (runs-NoneMissed before) id after))
      (runs-Served later id w waiting on (started-Served id after ch s begun))
      (is_past-head after (get id end.streams) stream there above)
