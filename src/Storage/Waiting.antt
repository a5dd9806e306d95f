-- ===== src/Storage/Waiting.antt =====
-- internal/storage/memory/store.go: watchers of streams. A channel is closed once, and a wait on it
-- ends there.
use synclog.Prelude.{
  ℕ, ◌+◌, String, false, Bool, List, [], ◌∷◌, ◌++◌, Option, none, some, ◌==◌, ltb, if◌then◌else◌,
  nat_eq,
}
use synclog.GoMap.{get, set, delete, string_key}
use synclog.Log.Result.{Op, return, invalid}
use synclog.Storage.{Store, StreamState, StreamWatcher}

-- `s.watchers[streamID]`
unfoldable pub watchers_of : String → Store → List StreamWatcher
watchers_of stream_id s = elim (get stream_id s.watchers) [ none ↦ [] | some ws ↦ ws ]

unfoldable pub kept_watchers : ℕ → List StreamWatcher → List StreamWatcher
kept_watchers head [] = []
kept_watchers head (w ∷ ws) =
    let rest = kept_watchers head ws in if ltb w.after head then rest else w ∷ rest

unfoldable pub woken : ℕ → List StreamWatcher → List ℕ
woken head [] = []
woken head (w ∷ ws) = let rest = woken head ws in if ltb w.after head then w.ch ∷ rest else rest

-- The watchers of a stream are replaced, and its entry goes when none is left.
unfoldable pub put_watchers : String → List StreamWatcher → Store → Store
put_watchers stream_id [] s = record s { watchers = delete stream_id s.watchers }
put_watchers stream_id (w ∷ ws) s = record s { watchers = set stream_id (w ∷ ws) s.watchers }

unfoldable pub notify_stream : String → ℕ → Store → Store
unfolding watchers_of kept_watchers woken put_watchers
notify_stream stream_id head s = elim (watchers_of stream_id s) [
  | [] ↦ s
  | w ∷ ws ↦
      put_watchers stream_id (kept_watchers head (w ∷ ws))
        (record s { closed = woken head (w ∷ ws) ++ s.closed })
]

-- The last watcher takes the place of the removed one.
unfoldable pub last_of : StreamWatcher → List StreamWatcher → StreamWatcher
last_of w [] = w
last_of w (v ∷ ws) = last_of v ws

unfoldable pub but_last : StreamWatcher → List StreamWatcher → List StreamWatcher
but_last w [] = []
but_last w (v ∷ ws) = w ∷ but_last v ws

unfoldable pub swap_out : ℕ → List StreamWatcher → List StreamWatcher
unfolding last_of but_last
swap_out ch [] = []
swap_out ch (w ∷ ws) =
    let rest = swap_out ch ws in
    if nat_eq w.ch ch then elim ws [ [] ↦ [] | v ∷ vs ↦ last_of v vs ∷ but_last v vs ] else w ∷ rest

unfoldable pub remove_watcher : String → ℕ → Store → Store
unfolding watchers_of swap_out put_watchers
remove_watcher stream_id ch s = put_watchers stream_id (swap_out ch (watchers_of stream_id s)) s

-- WaitForStream up to its `select`, where `ctx` is not done: it has returned, or waits on a channel.
pub data Waiting : Type 0 where
  returned : Waiting
  waits_on : ℕ → Waiting

unfoldable pub is_past : ℕ → Option StreamState → Bool
is_past after none = false
is_past after (some stream) = ltb after stream.head

unfoldable pub register : String → ℕ → Store → Store
unfolding watchers_of
register stream_id after s = record s {
  watchers =
      set stream_id (watchers_of stream_id s ++ record { after = after; ch = s.made } ∷ [])
        s.watchers;
  made = s.made + 1;
}

unfoldable pub wait_for_stream : String → ℕ → Op Store Waiting
unfolding is_past register
wait_for_stream stream_id after = if stream_id == "" then invalid "stream id is required" else λ s.
    if is_past after (get stream_id s.streams)
    then return returned s
    else return (waits_on s.made) (register stream_id after s)

-- WaitForStream where `ctx` is done before its channel is closed.
unfoldable pub stop_waiting : String → ℕ → Store → Store
unfolding remove_watcher
stop_waiting stream_id ch s = remove_watcher stream_id ch s
