-- ===== src/Storage/Wakeups/Calls.antt =====
-- The calls of internal/storage/memory/store.go, none of which leaves a watcher waiting for events
-- that are there.
use synclog.Prelude.{
  ℕ, ◌≡◌, refl, ◌∙◌, sym, String, false, List, [], ◌∷◌, Option, none, some, arith, ◌==◌, eq_iff,
  Bool-cases, inl, inr,
}
use synclog.Prelude.Int.{ℤ}
use synclog.GoMap.{get, set, get-set, get_made, string_key}
use synclog.Protocol.Admin.{DeleteStreamRequest}
use synclog.Log.Types.{AppendRequest, AppendResult}
use synclog.Log.Result.{Result, from_result}
use synclog.Storage.{Store, StreamState, StreamWatcher, new_store, snapshot_key}
use synclog.Storage.Leaving.{Stable, run-Stable}
use synclog.Storage.Stream.{next_seq, deduplicate, push, cut, keep_from}
use synclog.Storage.Events.{
  or_new, put_stream, ensure_stream, retained, apply_retention, append_new, append, truncate_found,
  truncate_before,
}
use synclog.Storage.Waiting.{wait_for_stream, stop_waiting, is_past}
use synclog.Storage.Admin.{delete_stream}
use synclog.Storage.Calls.{Call, run, runs}
use synclog.Storage.Wakeups.{
  NoneMissed, put_stream-NoneMissed, or_new-low, same_head-NoneMissed, apply_retention-NoneMissed,
  retained-head, without_stream-NoneMissed,
}
use synclog.Storage.Wakeups.Notifying.{
  new_watcher-NoneMissed, remove_watcher-NoneMissed, notify_stream-NoneMissed,
}

ensured-NoneMissed :
    (id : String) (s : Store)
    → NoneMissed s
    → NoneMissed (put_stream id (or_new (get id s.streams)) s)
ensured-NoneMissed id s all =
    put_stream-NoneMissed (λ _. false) id (or_new (get id s.streams)) s all
      (λ after inside. or_new-low after (get id s.streams))

truncate_found-NoneMissed :
    (id : String) (before : ℕ) (s : Store) (o : Option StreamState)
    → NoneMissed s
    → get id s.streams ≡ o
    → NoneMissed (truncate_found id before o s).1
unfolding truncate_found cut
truncate_found-NoneMissed id before s none all there = all
truncate_found-NoneMissed id before s (some stream) all there =
    same_head-NoneMissed (λ _. false) id stream (cut (keep_from before stream.events) stream) s all
      there refl

truncate_before-NoneMissed :
    (id : String) (before : ℕ) (s : Store)
    → NoneMissed s
    → NoneMissed (truncate_before id before s).1
unfolding truncate_before
truncate_before-NoneMissed id before s all = elim (Bool-cases (id == "")) [
  | inl empty ↦ rw empty all
  | inr named ↦ rw named (truncate_found-NoneMissed id before s (get id s.streams) all refl)
]

ensure_stream-NoneMissed :
    (id : String) (s : Store) → NoneMissed s → NoneMissed (ensure_stream id s).1
unfolding ensure_stream
ensure_stream-NoneMissed id s all = ensured-NoneMissed id s all

NoneMissed-Stable : Stable NoneMissed
NoneMissed-Stable = record {
  with_cursors = λ m s all. all;
  with_snapshots = λ m s all. all;
  with_retention = λ m s all. all;
  ensured = ensure_stream-NoneMissed;
  truncated = truncate_before-NoneMissed;
  applied = apply_retention-NoneMissed (λ _. false);
}

-- The stream behind the retention of an append.
apply_retention-found :
    (now : ℤ) (id : String) (s : Store) (stream : StreamState)
    → get id (apply_retention now id (put_stream id stream s)).streams
      ≡ some (retained now (get id s.retention) stream)
unfolding apply_retention put_stream
apply_retention-found now id s stream =
    let at : get id (set id stream s.streams) ≡ some stream =
      get-set id id stream s.streams ∙ rw ((eq_iff id id).1 refl) refl in
    let t = retained now (get id s.retention) stream in
    rw (at, apply_retention)
      (get-set id id t (set id stream s.streams) ∙ rw ((eq_iff id id).1 refl) refl)

module _ (s : Store) (all : NoneMissed s) where
  pub wait_for_stream-NoneMissed :
      (id : String) (after : ℕ) → NoneMissed (wait_for_stream id after s).1
  unfolding wait_for_stream
  wait_for_stream-NoneMissed id after = elim (Bool-cases (id == "")) [
    | inl empty ↦ rw empty all
    | inr named ↦ elim (Bool-cases (is_past after (get id s.streams))) [
      | inl past ↦ rw (named, past) all
      | inr waits ↦ rw (named, waits) (new_watcher-NoneMissed id after s all waits)
    ]
  ]

  -- The events of a stream change, and its watchers are woken.
  append_new-NoneMissed :
      (now : ℤ) (req : AppendRequest) (stream : StreamState)
      → NoneMissed (append_new now req stream s).1
  unfolding append_new push
  append_new-NoneMissed now req stream =
      let id = req.stream_id in
      let pushed : Store = put_stream id (push req stream) s in
      let others =
        put_stream-NoneMissed (λ j. id == j) id (push req stream) s (λ j ws inside. all j ws refl)
          (λ after inside. ground (arith, inside, eq_iff id id)) in
      let there = apply_retention-found now id s (push req stream) in
      notify_stream-NoneMissed id (next_seq stream.head)
        (retained now (get id s.retention) (push req stream)) (apply_retention now id pushed)
        (apply_retention-NoneMissed (λ j. id == j) now id pushed others) there
        (retained-head now (get id s.retention) (push req stream))

delete_stream-NoneMissed :
    (o : Option DeleteStreamRequest) (s : Store) → NoneMissed s → NoneMissed (delete_stream o s).1
unfolding delete_stream
delete_stream-NoneMissed none s all = all
delete_stream-NoneMissed (some req) s all = elim (Bool-cases (req.stream_id == "")) [
  | inl empty ↦ rw empty all
  | inr named ↦ rw named (without_stream-NoneMissed req.stream_id s all)
]

answer-NoneMissed :
    (now : ℤ) (req : AppendRequest) (s : Store) (stream : StreamState)
    (answer : Option (Result AppendResult))
    → NoneMissed s
    → NoneMissed
        (elim answer as (λ _. Result AppendResult × Store) [
          | some result ↦ from_result result s
          | none ↦ append_new now req stream s
        ]).1
answer-NoneMissed now req s stream none all = append_new-NoneMissed s all now req stream
answer-NoneMissed now req s stream (some result) all = all

append-NoneMissed :
    (now : ℤ) (req : AppendRequest) (s : Store) → NoneMissed s → NoneMissed (append now req s).1
unfolding append ensure_stream
append-NoneMissed now req s all = elim (Bool-cases (req.stream_id == "")) [
  | inl empty ↦ rw empty all
  | inr named ↦
      let stream = or_new (get req.stream_id s.streams) in
      rw named (
        answer-NoneMissed now req (put_stream req.stream_id stream s) stream
          (deduplicate req stream) (ensured-NoneMissed req.stream_id s all))
]

run-NoneMissed : (c : Call) (s : Store) → NoneMissed s → NoneMissed (run c s)
unfolding run stop_waiting
run-NoneMissed (Call.appends now req) s all = append-NoneMissed now req s all
run-NoneMissed (Call.acks req) s all = run-Stable NoneMissed-Stable (Call.acks req) s tt all
run-NoneMissed (Call.resets o) s all = run-Stable NoneMissed-Stable (Call.resets o) s tt all
run-NoneMissed (Call.creates o) s all = run-Stable NoneMissed-Stable (Call.creates o) s tt all
run-NoneMissed (Call.deletes o) s all = delete_stream-NoneMissed o s all
run-NoneMissed (Call.truncates o) s all = run-Stable NoneMissed-Stable (Call.truncates o) s tt all
run-NoneMissed (Call.truncates_before id before) s all =
    run-Stable NoneMissed-Stable (Call.truncates_before id before) s tt all
run-NoneMissed (Call.compacts o) s all = run-Stable NoneMissed-Stable (Call.compacts o) s tt all
run-NoneMissed (Call.sets_retention now o) s all =
    run-Stable NoneMissed-Stable (Call.sets_retention now o) s tt all
run-NoneMissed (Call.puts_snapshot o) s all =
    run-Stable NoneMissed-Stable (Call.puts_snapshot o) s tt all
run-NoneMissed (Call.deletes_snapshot o) s all =
    run-Stable NoneMissed-Stable (Call.deletes_snapshot o) s tt all
run-NoneMissed (Call.waits id after) s all = wait_for_stream-NoneMissed s all id after
run-NoneMissed (Call.stops_waiting id ch) s all = remove_watcher-NoneMissed id ch s all

pub runs_from-NoneMissed : (cs : List Call) (s : Store) → NoneMissed s → NoneMissed (runs cs s)
unfolding runs
runs_from-NoneMissed [] s all = all
runs_from-NoneMissed (c ∷ cs) s all = runs_from-NoneMissed cs (run c s) (run-NoneMissed c s all)

new_store-NoneMissed : NoneMissed new_store
unfolding new_store
new_store-NoneMissed id ws inside there =
    let it : none ≡ some ws = sym (get_made {V = List StreamWatcher} id) ∙ there in
    ground (arith, it)

-- After any run of calls from a new store, no watcher that is registered on a stream waits for
-- events that are there: the stream's head is at most the place above which the watcher waits.
pub runs-NoneMissed : (cs : List Call) → NoneMissed (runs cs new_store)
runs-NoneMissed cs = runs_from-NoneMissed cs new_store new_store-NoneMissed
