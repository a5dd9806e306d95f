-- ===== src/Storage/History/Appending.antt =====
-- Store.Append and Store.Read of internal/storage/memory/store.go against all the events of the
-- streams.
use synclog.Prelude.{
  ℕ, zero, suc, ◌+◌, ◌<◌, ◌^◌, ◌≡◌, ◌≢◌, sym, ap, subst, ◌∙◌, String, true, false, List, [], ◌∷◌,
  Option, none, some, arith, ◌==◌, eq_iff, if◌then◌else◌, ltb, length, drop, Bool-cases,
  Option-cases, inl, inr, nat_eq, eq_false,
}
use synclog.Prelude.Int.{ℤ}
use synclog.GoMap.{get, string_key}
use synclog.Log.Types.{Event, AppendRequest, AppendResult}
use synclog.Log.Result.{Result, done, failed, too_long, from_result, err_too_long}
use synclog.Log.Serving.{replay_too_old_lem}
use synclog.Storage.{Store, StreamState}
use synclog.Storage.Stream.{event_by_seq, event_at, deduplicate, push, next_seq, normalize_limit}
use synclog.Storage.Events.{
  or_new, put_stream, ensure_stream, append_new, append, read, read_from, head_of, with_head,
  no_head,
}
use synclog.Storage.History.{Holds, HoldsAt, StoreHolds, updated, Numbered, seq_of_key}
use synclog.Storage.History.Changes.{added, push-Holds, seq_of_key_empty, next_seq_lem}
use synclog.Storage.History.Reading.{
  read_of, read_stream_lem, read_of-beyond, replay_too_old-Holds, normalize_limit_bounds,
}
use synclog.Storage.History.Keeping.{
  or_new-Holds, put_stream-StoreHolds, same_stream-StoreHolds, apply_retention-StoreHolds,
  notify_stream-StoreHolds, updated_same,
}

-- What an append of a request makes of all events of its stream, and what it answers: the next
-- event; nothing new and the event that has its key; or nothing where the kept ones lack that event.
pub data Appended (req : AppendRequest) (history kept : List Event)
    : List Event → Result AppendResult → Type 0 where
  fresh :
      seq_of_key req.idempotency_key history ≡ none
      → Appended req history kept
          (added req history)
          (done (record { event = event_at (suc (length history)) req; deduplicated = false }))
  repeated :
      (seq : ℕ) (event : Event)
      → seq_of_key req.idempotency_key history ≡ some seq
      → event_by_seq seq history ≡ some event
      → Appended req history kept history (done (record { event = event; deduplicated = true }))
  compacted :
      (seq : ℕ)
      → seq_of_key req.idempotency_key history ≡ some seq
      → event_by_seq seq kept ≡ none
      → Appended req history kept history
          (failed (too_long "synclog: replay too long: idempotent event was compacted"))

found_above :
    (a seq : ℕ) (es : List Event) (e : Event)
    → Numbered a es
    → event_by_seq seq es ≡ some e
    → a < seq
unfolding event_by_seq
found_above a seq [] e h k = ground arith
found_above a seq (x ∷ es) e h k = elim (Bool-cases (nat_eq x.seq seq)) [
  | inl here ↦ ground (arith, here, h.0)
  | inr later ↦
      let above = found_above (a + 1) seq es e h.1 (ground (arith, later, k)) in
      omega (arith, above)
]

event_by_seq-drop :
    (a n seq : ℕ) (es : List Event) (e : Event)
    → Numbered a es
    → event_by_seq seq (drop n es) ≡ some e
    → event_by_seq seq es ≡ some e
unfolding event_by_seq
event_by_seq-drop a zero seq es e h k = k
event_by_seq-drop a (suc n) seq [] e h k = k
event_by_seq-drop a (suc n) seq (x ∷ es) e h k =
    let rest = event_by_seq-drop (a + 1) n seq es e h.1 k in
    let above = found_above (a + 1) seq es e h.1 rest in ground (arith, h.0, rest, above)

-- The three answers of `deduplicate`.
pub data Deduplicates (req : AppendRequest) (history kept : List Event)
    : Option (Result AppendResult) → Type 0 where
  unseen : seq_of_key req.idempotency_key history ≡ none → Deduplicates req history kept none
  seen :
      (result : Result AppendResult)
      → Appended req history kept history result
      → Deduplicates req history kept (some result)

deduplicate-Deduplicates :
    (req : AppendRequest) (history : List Event) (s : StreamState)
    → Holds history s
    → Deduplicates req history s.events (deduplicate req s)
unfolding deduplicate
deduplicate-Deduplicates req history s h = elim (Bool-cases (req.idempotency_key == "")) [
  | inl empty ↦ rw empty (
      unseen (
        subst (λ k. seq_of_key k history ≡ none) (sym ((eq_iff req.idempotency_key "").0 empty))
          (seq_of_key_empty history)))
  | inr given ↦ elim (Option-cases (get req.idempotency_key s.idempotency)) [
    | inl new ↦ rw (given, new, deduplicate) (unseen (sym (h.keys_eq req.idempotency_key) ∙ new))
    | inr (seq, old) ↦
        let key : seq_of_key req.idempotency_key history ≡ some seq =
          sym (h.keys_eq req.idempotency_key) ∙ old in
        elim (Option-cases (event_by_seq seq s.events)) [
          | inl gone ↦ rw (given, old, gone, deduplicate) (seen _ (compacted seq key gone))
          | inr (event, there) ↦
              rw (given, old, there, deduplicate)
                (seen _ (
                  repeated seq event key (
                    event_by_seq-drop 0 h.dropped seq history event h.numbered
                      (subst (λ es. event_by_seq seq es ≡ some event) h.events_eq there))))
        ]
  ]
]

-- The answer and the events of an append, and that the store then holds them.
abbrev pub AppendRefines :
    AppendRequest → (String → List Event) → List Event → Result AppendResult × Store → Type 0
AppendRefines req h kept outcome =
    (history : List Event) × Appended req (h req.stream_id) kept history outcome.0
    × StoreHolds (updated req.stream_id history h) outcome.1

append_new-refines :
    (now : ℤ) (req : AppendRequest) (h : String → List Event) (s : Store) (stream : StreamState)
    → StoreHolds h s
    → Holds (h req.stream_id) stream
    → seq_of_key req.idempotency_key (h req.stream_id) ≡ none
    → suc (suc (length (h req.stream_id))) < 2 ^ 64
    → AppendRefines req h stream.events (append_new now req stream s)
unfolding append_new
append_new-refines now req h s stream all here new room =
    let next : next_seq stream.head ≡ suc (length (h req.stream_id)) =
      ap next_seq here.head_eq ∙ next_seq_lem (length (h req.stream_id)) here.bounded in
    let pushed =
      put_stream-StoreHolds h s req.stream_id (added req (h req.stream_id)) (push req stream) all
        (push-Holds req (h req.stream_id) stream here new room) in
    let h' = updated req.stream_id (added req (h req.stream_id)) h in
    (
      added req (h req.stream_id),
      rw next (fresh new),
      notify_stream-StoreHolds req.stream_id (next_seq stream.head) h' _
          (apply_retention-StoreHolds now req.stream_id h' _ pushed),
    )

with_answer :
    (now : ℤ) (req : AppendRequest) (h : String → List Event) (s : Store) (stream : StreamState)
    (answer : Option (Result AppendResult))
    → StoreHolds h s
    → Holds (h req.stream_id) stream
    → suc (suc (length (h req.stream_id))) < 2 ^ 64
    → Deduplicates req (h req.stream_id) stream.events answer
    → AppendRefines req h stream.events
        (elim answer [ some result ↦ from_result result s | none ↦ append_new now req stream s ])
with_answer now req h s stream none all here room (unseen new) =
    append_new-refines now req h s stream all here new room
with_answer now req h s stream (some result) all here room (seen _ appended) =
    (h req.stream_id, appended, updated_same h s req.stream_id all)

-- An append to a named stream, whose seqs stay below 2 ^ 64, on a store that holds some events of
-- every stream: it adds the event with the next seq and answers with it where its key is new; for a
-- key seen before it adds nothing, and answers with the event that has the key, or with an error
-- where the stream no longer keeps that event. The other streams keep theirs.
pub append-refines :
    (now : ℤ) (req : AppendRequest) (h : String → List Event) (s : Store)
    → StoreHolds h s
    → req.stream_id ≢ ""
    → suc (suc (length (h req.stream_id))) < 2 ^ 64
    → AppendRefines req h (or_new (get req.stream_id s.streams)).events (append now req s)
unfolding append ensure_stream
append-refines now req h s all named room =
    let stream = or_new (get req.stream_id s.streams) in
    let here = or_new-Holds (h req.stream_id) (get req.stream_id s.streams) (all req.stream_id) in
    let ensured = same_stream-StoreHolds h s req.stream_id stream all here in
    rw (eq_false req.stream_id "" named) (
      with_answer now req h (put_stream req.stream_id stream s) stream (deduplicate req stream)
        ensured here room (deduplicate-Deduplicates req (h req.stream_id) stream here))

read_from-refines :
    (id : String) (after limit : ℕ) (history : List Event) (o : Option StreamState)
    → 0 < limit
    → HoldsAt history o
    → with_head (head_of id o) (read_from after limit o) ≡ (
        if ltb (after + 1) (head_of id o).retained_seq_start
        then failed err_too_long
        else done (read_of after limit history, head_of id o))
unfolding with_head read_from head_of
read_from-refines id after limit history none k empty =
    let above : ltb (after + 1) 0 ≡ false = ground arith in
    rw (empty, above)
      (ap (λ b. done (b, no_head id)) (sym (read_of-beyond [] after limit (omega arith))))
read_from-refines id after limit history (some s) k h =
    rw
      (
        read_stream_lem history s h after limit k,
        sym (replay_too_old_lem after s.retained_seq_start),
        replay_too_old-Holds history s h after,
      )
      (ground arith)

-- A read of a named stream, on a store that holds some events of every stream, changes nothing. It
-- answers TOO_LONG below the retained start, and otherwise with the stream's head and with what a
-- log of all the events gives: those above the place that was asked for, as many as the limit
-- allows, their bounds, and whether they reach the head.
pub read-refines :
    (stream_id : String) (after : ℕ) (limit : ℤ) (h : String → List Event) (s : Store)
    → StoreHolds h s
    → stream_id ≢ ""
    → read stream_id after limit s ≡ (
      (if ltb (after + 1) (head_of stream_id (get stream_id s.streams)).retained_seq_start
          then failed err_too_long
          else done (
            read_of after (normalize_limit limit) (h stream_id),
            head_of stream_id (get stream_id s.streams),
          )),
      s,
    )
unfolding read
read-refines stream_id after limit h s all named = rw (eq_false stream_id "" named) (
    ap (λ r. (r, s))
      (read_from-refines stream_id after (normalize_limit limit) (h stream_id)
        (get stream_id s.streams) (normalize_limit_bounds limit).0 (all stream_id)))
