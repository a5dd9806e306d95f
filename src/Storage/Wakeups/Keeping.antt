-- ===== src/Storage/Wakeups/Keeping.antt =====
-- The calls of internal/storage/memory/store.go, behind which a watcher is registered or woken.
use synclog.Prelude.{
  ℕ, ◌≡◌, String, Bool, false, List, [], ◌∷◌, Option, none, some, ◌==◌, Bool-cases, Option-cases,
  inl, inr, nat_eq, All,
}
use synclog.Prelude.Int.{ℤ}
use synclog.GoMap.{get, string_key}
use synclog.Protocol.Admin.{DeleteStreamRequest}
use synclog.Log.Types.{AppendRequest, AppendResult}
use synclog.Log.Result.{Result, from_result}
use synclog.Storage.{Store, StreamState, StreamWatcher}
use synclog.Storage.Leaving.{Stable, run-Stable}
use synclog.Storage.Stream.{deduplicate, push}
use synclog.Storage.Events.{
  or_new, put_stream, ensure_stream, apply_retention, append_new, append, truncate_found,
  truncate_before,
}
use synclog.Storage.Waiting.{wait_for_stream, stop_waiting, is_past}
use synclog.Storage.Admin.{delete_stream, without_stream}
use synclog.Storage.Calls.{Call, run, runs}
use synclog.Storage.Wakeups.Served.{
  Served, register-Served, remove_watcher-Served, notify_stream-Served,
}

-- The call ends the wait on a channel, as its context is done.
abbrev pub stops : ℕ → Call → Bool
stops ch (Call.stops_waiting id other) = nat_eq ch other
stops ch _ = false

apply_retention-Served :
    (now : ℤ) (id j : String) (w : StreamWatcher) (s : Store)
    → Served j w s
    → Served j w (apply_retention now id s)
unfolding apply_retention put_stream
apply_retention-Served now id j w s served = elim (Option-cases (get id s.streams)) [
  | inl missing ↦ rw (missing, apply_retention) served
  | inr (stream, there) ↦ rw (there, apply_retention) served
]

truncate_before-Served :
    (id : String) (before : ℕ) (j : String) (w : StreamWatcher) (s : Store)
    → Served j w s
    → Served j w (truncate_before id before s).1
unfolding truncate_before truncate_found put_stream
truncate_before-Served id before j w s served = elim (Bool-cases (id == "")) [
  | inl empty ↦ rw empty served
  | inr named ↦ elim (Option-cases (get id s.streams)) [
    | inl missing ↦ rw (named, missing, truncate_found) served
    | inr (stream, there) ↦ rw (named, there, truncate_found) served
  ]
]

ensure_stream-Served :
    (id j : String) (w : StreamWatcher) (s : Store)
    → Served j w s
    → Served j w (ensure_stream id s).1
unfolding ensure_stream put_stream
ensure_stream-Served id j w s served = served

Served-Stable : (j : String) (w : StreamWatcher) → Stable (Served j w)
Served-Stable j w = record {
  with_cursors = λ m s served. served;
  with_snapshots = λ m s served. served;
  with_retention = λ m s served. served;
  ensured = λ id s. ensure_stream-Served id j w s;
  truncated = λ id before s. truncate_before-Served id before j w s;
  applied = λ now id s. apply_retention-Served now id j w s;
}

answer-Served :
    (now : ℤ) (req : AppendRequest) (j : String) (w : StreamWatcher) (s : Store)
    (stream : StreamState) (answer : Option (Result AppendResult))
    → Served j w s
    → Served j w
        (elim answer as (λ _. Result AppendResult × Store) [
          | some result ↦ from_result result s
          | none ↦ append_new now req stream s
        ]).1
unfolding append_new put_stream
answer-Served now req j w s stream none served = notify_stream-Served req.stream_id j _ w _ (
    apply_retention-Served now req.stream_id j w (put_stream req.stream_id (push req stream) s)
      served)
answer-Served now req j w s stream (some result) served = served

append-Served :
    (now : ℤ) (req : AppendRequest) (j : String) (w : StreamWatcher) (s : Store)
    → Served j w s
    → Served j w (append now req s).1
unfolding append ensure_stream put_stream
append-Served now req j w s served = elim (Bool-cases (req.stream_id == "")) [
  | inl empty ↦ rw empty served
  | inr named ↦
      let stream = or_new (get req.stream_id s.streams) in
      rw named (
        answer-Served now req j w (put_stream req.stream_id stream s) stream
          (deduplicate req stream) served)
]

delete_stream-Served :
    (o : Option DeleteStreamRequest) (j : String) (w : StreamWatcher) (s : Store)
    → Served j w s
    → Served j w (delete_stream o s).1
unfolding delete_stream without_stream
delete_stream-Served none j w s served = served
delete_stream-Served (some req) j w s served = elim (Bool-cases (req.stream_id == "")) [
  | inl empty ↦ rw empty served
  | inr named ↦ rw named served
]

wait_for_stream-Served :
    (id : String) (after : ℕ) (j : String) (w : StreamWatcher) (s : Store)
    → Served j w s
    → Served j w (wait_for_stream id after s).1
unfolding wait_for_stream
wait_for_stream-Served id after j w s served = elim (Bool-cases (id == "")) [
  | inl empty ↦ rw empty served
  | inr named ↦ elim (Bool-cases (is_past after (get id s.streams))) [
    | inl past ↦ rw (named, past) served
    | inr waits ↦ rw (named, waits) (register-Served id j after w s served)
  ]
]

run-Served :
    (c : Call) (j : String) (w : StreamWatcher) (s : Store)
    → stops w.ch c ≡ false
    → Served j w s
    → Served j w (run c s)
unfolding run stop_waiting
run-Served (Call.appends now req) j w s on served = append-Served now req j w s served
run-Served (Call.acks req) j w s on served =
    run-Stable (Served-Stable j w) (Call.acks req) s tt served
run-Served (Call.resets o) j w s on served =
    run-Stable (Served-Stable j w) (Call.resets o) s tt served
run-Served (Call.creates o) j w s on served =
    run-Stable (Served-Stable j w) (Call.creates o) s tt served
run-Served (Call.deletes o) j w s on served = delete_stream-Served o j w s served
run-Served (Call.truncates o) j w s on served =
    run-Stable (Served-Stable j w) (Call.truncates o) s tt served
run-Served (Call.truncates_before id before) j w s on served =
    run-Stable (Served-Stable j w) (Call.truncates_before id before) s tt served
run-Served (Call.compacts o) j w s on served =
    run-Stable (Served-Stable j w) (Call.compacts o) s tt served
run-Served (Call.sets_retention now o) j w s on served =
    run-Stable (Served-Stable j w) (Call.sets_retention now o) s tt served
run-Served (Call.puts_snapshot o) j w s on served =
    run-Stable (Served-Stable j w) (Call.puts_snapshot o) s tt served
run-Served (Call.deletes_snapshot o) j w s on served =
    run-Stable (Served-Stable j w) (Call.deletes_snapshot o) s tt served
run-Served (Call.waits id after) j w s on served = wait_for_stream-Served id after j w s served
run-Served (Call.stops_waiting id ch) j w s on served = remove_watcher-Served id j ch w s on served

pub runs-Served :
    (cs : List Call) (j : String) (w : StreamWatcher) (s : Store)
    → All (λ c. stops w.ch c ≡ false) cs
    → Served j w s
    → Served j w (runs cs s)
unfolding runs
runs-Served [] j w s on served = served
runs-Served (c ∷ cs) j w s on served =
    runs-Served cs j w (run c s) on.1 (run-Served c j w s on.0 served)
