-- ===== src/Storage/History/Reading.antt =====
-- Reading a stream of internal/storage/memory/store.go against all the events it was given.
use synclog.Prelude.{
  ℕ, zero, suc, ◌+◌, ◌-◌, ◌≤◌, ◌<◌, ◌≡◌, refl, sym, ap, ◌∙◌, true, false, List, [], ◌∷◌, none, some,
  arith, ltb, leb, if◌then◌else◌, length, drop, take, length-drop, length-take, drop-drop, drop_all,
  take_all, Bool-cases, inl, inr, min, ltb→lt, ltb→ge, ge→ltb,
}
use synclog.Prelude.Int.{ℤ, pos, negsuc}
use synclog.Log.Types.{Event, EventBatch}
use synclog.Log.Engine.{replay_too_old}
use synclog.Log.Result.{done, failed, err_too_long}
use synclog.Storage.{StreamState}
use synclog.Storage.Stream.{
  start_of, slice, batch_of, first_seq, read_stream, stream_batch, normalize_limit,
}
use synclog.Storage.History.{Holds, Numbered, Numbered-drop_all, last_seq-Numbered}

-- What a read above `after` returns of all events.
abbrev pub read_of : ℕ → ℕ → List Event → EventBatch
read_of after limit history = record {
  events = take limit (drop after history);
  seq_start = if ltb after (length history) then suc after else 0;
  seq = if ltb (after + limit) (length history) then after + limit else length history;
  final = leb (length history) (after + limit);
}

start_of-Numbered :
    (a after : ℕ) (es : List Event)
    → Numbered a es
    → a ≤ after
    → start_of after es ≡ (if ltb (after - a) (length es) then some (after - a) else none)
unfolding start_of
start_of-Numbered a after [] h k = ground arith
start_of-Numbered a after (e ∷ es) h k = elim (Bool-cases (ltb after (a + 1))) [
  | inl here ↦
      let at_start : after - a ≡ 0 = omega (arith, ltb→lt after (a + 1) here) in
      ground (arith, at_start, here, h.0)
  | inr later ↦
      let earlier : ltb after e.seq ≡ false = ge→ltb after e.seq (ground (arith, later, h.0)) in
      let rest = start_of-Numbered (a + 1) after es h.1 (ground (arith, later)) in
      let one_more : after - a ≡ suc (after - (a + 1)) = ground (arith, later) in
      rw (earlier, rest, one_more) (ground arith)
]

slice_eq :
    (start limit : ℕ) (es : List Event)
    → start ≤ length es
    → slice start limit es ≡ take limit (drop start es)
unfolding slice
slice_eq start limit es h = elim (Bool-cases (ltb (length es) (start + limit))) [
  | inl short ↦
      let n = length-drop start es in
      rw short (
        take_all (length es - start) (drop start es) (omega (arith, n))
        ∙ sym (take_all limit (drop start es) (ground (arith, short, n))))
  | inr long ↦
      rw long
        (ap (λ n. take n (drop start es)) {x = start + limit - start} {y = limit} (omega arith))
]

pub normalize_limit_bounds :
    (limit : ℤ) → (0 < normalize_limit limit) × (normalize_limit limit ≤ 1000)
unfolding normalize_limit
normalize_limit_bounds (pos n) = ground arith
normalize_limit_bounds (negsuc n) = ground arith

Numbered-take : (a n : ℕ) (es : List Event) → Numbered a es → Numbered a (take n es)
Numbered-take a zero es h = tt
Numbered-take a (suc n) [] h = tt
Numbered-take a (suc n) (e ∷ es) h = (h.0, Numbered-take (a + 1) n es h.1)

-- The batch of a part of consecutive events that is not empty.
batch_of-take :
    (a n : ℕ) (e : Event) (es : List Event)
    → Numbered a (e ∷ es)
    → batch_of (a + length (e ∷ es)) (take (suc n) (e ∷ es)) ≡ record {
      events = take (suc n) (e ∷ es);
      seq_start = suc a;
      seq = a + min (suc n) (length (e ∷ es));
      final = leb (length (e ∷ es)) (suc n);
    }
unfolding batch_of first_seq
batch_of-take a n e es h =
    let last = last_seq-Numbered a e (take n es) (Numbered-take a (suc n) (e ∷ es) h) in
    ground (arith, last, length-take n es, h.0)

pub replay_too_old-Holds :
    (history : List Event) (s : StreamState) (h : Holds history s) (after : ℕ)
    → replay_too_old after s.retained_seq_start ≡ ltb after h.dropped
unfolding replay_too_old
replay_too_old-Holds history s h after = rw h.start_eq (ground (arith, h.within))

-- Below the last event, a batch of what a stream still has is one of all events.
batch_of-rest :
    (history : List Event) (after n : ℕ) (es : List Event)
    → drop after history ≡ es
    → Numbered after es
    → after < length history
    → batch_of (length history) (take (suc n) es) ≡ read_of after (suc n) history
batch_of-rest history after n [] e m k =
    absurd (omega (arith, length-drop after history, ap length e))
batch_of-rest history after n (x ∷ es) e m k =
    let size : length history ≡ after + length (x ∷ es) =
      omega (arith, length-drop after history, ap length e) in
    rw (size, e, batch_of-take after n x es m) (ground arith)

batch_of-drop :
    (history : List Event) (after n : ℕ)
    → Numbered 0 history
    → after < length history
    → batch_of (length history) (take (suc n) (drop after history)) ≡ read_of after (suc n) history
batch_of-drop history after n h k =
    batch_of-rest history after n (drop after history) refl
      (Numbered-drop_all after history (omega arith) h) k

pub read_of-beyond :
    (history : List Event) (after limit : ℕ)
    → length history ≤ after
    → read_of after limit history
      ≡ record { events = []; seq_start = 0; seq = length history; final = true }
read_of-beyond history after limit h =
    let none_left = drop_all after history h in
    let nothing : take limit (drop after history) ≡ [] =
      rw none_left (take_all limit [] (omega arith)) in
    rw nothing (ground (arith, h))

-- At a place that is still there, a stream's batch is one of all its events.
pub stream_batch_lem :
    (history : List Event) (s : StreamState) (h : Holds history s) (after limit : ℕ)
    → 0 < limit
    → h.dropped ≤ after
    → stream_batch after limit s ≡ read_of after limit history
unfolding stream_batch
stream_batch_lem history s h after zero k le = absurd (omega arith)
stream_batch_lem history s h after (suc n) k le =
    let kept = Numbered-drop_all h.dropped history h.within h.numbered in
    let start =
      ap (start_of after) h.events_eq
      ∙ start_of-Numbered h.dropped after (drop h.dropped history) kept le in
    let size = length-drop h.dropped history in
    elim (Bool-cases (ltb (after - h.dropped) (length (drop h.dropped history)))) [
      | inl inside ↦
          let below : after < length history = ground (arith, size, inside, h.within) in
          let part =
            ap (slice (after - h.dropped) (suc n)) h.events_eq
            ∙ slice_eq (after - h.dropped) (suc n) (drop h.dropped history) (ground (arith, inside))
            ∙ ap (take (suc n)) (
                drop-drop (after - h.dropped) h.dropped history
                ∙ ap (λ m. drop m history) {x = h.dropped + (after - h.dropped)} {y = after}
                    (omega arith)) in
          rw (start, inside, h.head_eq, part, stream_batch)
            (batch_of-drop history after n h.numbered below)
      | inr beyond ↦
          let above : length history ≤ after = ground (arith, size, beyond, h.within) in
          rw (start, beyond, h.head_eq, stream_batch)
            (sym (read_of-beyond history after (suc n) above))
    ]

-- A stream reads what a log of all its events reads, or answers that this is no longer there.
pub read_stream_lem :
    (history : List Event) (s : StreamState) (h : Holds history s) (after limit : ℕ)
    → 0 < limit
    → read_stream after limit s
      ≡ (if ltb after h.dropped then failed err_too_long else done (read_of after limit history))
unfolding read_stream
read_stream_lem history s h after limit k = elim (Bool-cases (ltb after h.dropped)) [
  | inl old ↦ rw (replay_too_old-Holds history s h after, old)
  | inr fresh ↦
      rw (replay_too_old-Holds history s h after, fresh)
        (ap done (stream_batch_lem history s h after limit k (ltb→ge after h.dropped fresh)))
]
