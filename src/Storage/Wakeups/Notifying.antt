-- ===== src/Storage/Wakeups/Notifying.antt =====
-- Watchers of internal/storage/memory/store.go that are registered, removed and woken.
use synclog.Prelude.{
  ℕ, ◌≡◌, ◌∙◌, sym, subst, refl, String, false, List, [], ◌∷◌, ◌++◌, Option, none, some, arith,
  ◌==◌, eq_iff, ltb, All, All-append, Bool-cases, List-cases, inl, inr, nat_eq,
}
use synclog.GoMap.{get, set, get-set, get-delete, string_key}
use synclog.Storage.{Store, StreamState, StreamWatcher}
use synclog.Storage.Waiting.{
  notify_stream, put_watchers, watchers_of, kept_watchers, woken, swap_out, last_of, but_last,
  is_past, register, remove_watcher,
}
use synclog.Storage.Wakeups.{Waits, NoneMissedBut, NoneMissed}

set_watchers-NoneMissed :
    (id : String) (ws : List StreamWatcher) (s : Store)
    → NoneMissedBut (λ j. id == j) s
    → All (Waits (get id s.streams)) ws
    → NoneMissed (record s { watchers = set id ws s.watchers })
set_watchers-NoneMissed id ws s others here j vs inside there =
    let at = get-set id j ws s.watchers in
    elim (Bool-cases (id == j)) [
      | inl same ↦
          let it : some ws ≡ some vs = sym (at ∙ rw same refl) ∙ there in
          subst (All (Waits (get j s.streams))) (ground (arith, it))
            (subst (λ k. All (Waits (get k s.streams)) ws) ((eq_iff id j).0 same) here)
      | inr other ↦ others j vs other (sym (at ∙ rw other refl) ∙ there)
    ]

-- Watchers that are put in place of those of a stream.
pub put_watchers-NoneMissed :
    (id : String) (ws : List StreamWatcher) (s : Store)
    → NoneMissedBut (λ j. id == j) s
    → All (Waits (get id s.streams)) ws
    → NoneMissed (put_watchers id ws s)
unfolding put_watchers
put_watchers-NoneMissed id [] s others here = λ j vs inside there. elim (Bool-cases (id == j)) [
  | inl same ↦
      let it : none ≡ some vs = sym (get-delete id j s.watchers ∙ rw same refl) ∙ there in
      ground (arith, it)
  | inr other ↦ others j vs other (sym (get-delete id j s.watchers ∙ rw other refl) ∙ there)
]
put_watchers-NoneMissed id (w ∷ ws) s others here =
    set_watchers-NoneMissed id (w ∷ ws) s others here

kept_watchers-Waits :
    (head : ℕ) (stream : StreamState) (ws : List StreamWatcher)
    → stream.head ≡ head
    → All (Waits (some stream)) (kept_watchers head ws)
unfolding kept_watchers is_past
kept_watchers-Waits head stream [] e = tt
kept_watchers-Waits head stream (w ∷ ws) e = elim (Bool-cases (ltb w.after head)) [
  | inl past ↦ rw past (kept_watchers-Waits head stream ws e)
  | inr waits ↦ rw waits (rw e waits, kept_watchers-Waits head stream ws e)
]

module _ (P : StreamWatcher → Type 0) where
  last_of-All : (w : StreamWatcher) (ws : List StreamWatcher) → All P (w ∷ ws) → P (last_of w ws)
  unfolding last_of
  last_of-All w [] h = h.0
  last_of-All w (v ∷ ws) h = last_of-All v ws h.1

  but_last-All :
      (w : StreamWatcher) (ws : List StreamWatcher) → All P (w ∷ ws) → All P (but_last w ws)
  unfolding but_last
  but_last-All w [] h = tt
  but_last-All w (v ∷ ws) h = (h.0, but_last-All v ws h.1)

  swap_out-All : (ch : ℕ) (ws : List StreamWatcher) → All P ws → All P (swap_out ch ws)
  unfolding swap_out
  swap_out-All ch [] h = tt
  swap_out-All ch (w ∷ []) h = elim (Bool-cases (nat_eq w.ch ch)) [
    | inl here ↦ rw here tt
    | inr other ↦ rw other (h.0, tt)
  ]
  swap_out-All ch (w ∷ v ∷ vs) h = elim (Bool-cases (nat_eq w.ch ch)) [
    | inl here ↦ rw here (last_of-All v vs h.1, but_last-All v vs h.1)
    | inr other ↦ rw other (h.0, swap_out-All ch (v ∷ vs) h.1)
  ]

swap_out-Waits :
    (ch : ℕ) (o : Option StreamState) (ws : List StreamWatcher)
    → All (Waits o) ws
    → All (Waits o) (swap_out ch ws)
swap_out-Waits ch o ws all = swap_out-All (Waits o) ch ws all

-- The watchers of a stream wait for events that are not there yet.
watchers_of-Waits :
    (id : String) (s : Store) → NoneMissed s → All (Waits (get id s.streams)) (watchers_of id s)
unfolding watchers_of
watchers_of-Waits id s all =
    elim (get id s.watchers)
        as (λ o.
          get id s.watchers ≡ o
          → All (Waits (get id s.streams)) (elim o [ none ↦ [] | some ws ↦ ws ])) [
            | none ↦ λ nobody. tt
            | some ws ↦ λ there. all id ws refl there
          ]
      refl

pub new_watcher-NoneMissed :
    (id : String) (after : ℕ) (s : Store)
    → NoneMissed s
    → is_past after (get id s.streams) ≡ false
    → NoneMissed (register id after s)
unfolding register
new_watcher-NoneMissed id after s all waits =
    let w : StreamWatcher = record { after = after; ch = s.made } in
    set_watchers-NoneMissed id (watchers_of id s ++ w ∷ []) s (λ j ws inside. all j ws refl)
      (All-append (Waits (get id s.streams)) (watchers_of id s) (w ∷ [])
        (watchers_of-Waits id s all) (waits, tt))

pub remove_watcher-NoneMissed :
    (id : String) (ch : ℕ) (s : Store) → NoneMissed s → NoneMissed (remove_watcher id ch s)
unfolding remove_watcher
remove_watcher-NoneMissed id ch s all =
    put_watchers-NoneMissed id (swap_out ch (watchers_of id s)) s (λ j ws inside. all j ws refl)
      (swap_out-Waits ch (get id s.streams) (watchers_of id s) (watchers_of-Waits id s all))

unwatched-NoneMissed :
    (id : String) (s : Store)
    → NoneMissedBut (λ j. id == j) s
    → watchers_of id s ≡ []
    → NoneMissed s
unfolding watchers_of
unwatched-NoneMissed id s others nobody j ws inside there = elim (Bool-cases (id == j)) [
  | inl same ↦
      let here : get id s.watchers ≡ some ws =
        subst (λ k. get k s.watchers ≡ some ws) (sym ((eq_iff id j).0 same)) there in
      let empty : ws ≡ [] = sym (rw (here, watchers_of) refl) ∙ nobody in rw empty tt
  | inr other ↦ others j ws other there
]

-- Waking the watchers below a head leaves none of the stream's that waits for less.
pub notify_stream-NoneMissed :
    (id : String) (head : ℕ) (stream : StreamState) (s : Store)
    → NoneMissedBut (λ j. id == j) s
    → get id s.streams ≡ some stream
    → stream.head ≡ head
    → NoneMissed (notify_stream id head s)
unfolding notify_stream
notify_stream-NoneMissed id head stream s others there at = elim (List-cases (watchers_of id s)) [
  | inl nobody ↦ rw (nobody, notify_stream) (unwatched-NoneMissed id s others nobody)
  | inr (w, ws, some_wait) ↦
      rw (some_wait, notify_stream)
        (put_watchers-NoneMissed id (kept_watchers head (w ∷ ws))
          (record s { closed = woken head (w ∷ ws) ++ s.closed }) others
          (rw there (kept_watchers-Waits head stream (w ∷ ws) at)))
]
