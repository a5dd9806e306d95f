-- ===== src/Storage/Backend.antt =====
-- internal/storage/memory/store.go as the storage of pkg/synclog/engine.go, and the engine over it.
use synclog.Prelude.{
  ℕ, ◌≡◌, ◌≢◌, refl, ap, ◌∙◌, sym, String, true, [], Option, none, some, arith, if◌then◌else◌, ltb,
  eq_false, Bool-cases, Option-cases, inl, inr,
}
use synclog.Prelude.Int.{ℤ}
use synclog.GoMap.{get, get-set, string_key}
use synclog.Log.Types.{StreamHead, EventBatch, SubscriberCursor, AckRequest}
use synclog.Log.Result.{done, failed, err_too_long}
use synclog.Log.Storage.{EventLog, CursorStore, SnapshotStore}
use synclog.Log.Engine.{Engine, replay_too_old}
use synclog.Log.Backend.{Backend}
use synclog.Storage.{
  Store, StreamState, CursorKey, cursor_key, same_cursor_key, same_cursor_key_iff,
}
use synclog.Storage.Stream.{stream_batch, read_stream, normalize_limit}
use synclog.Storage.Events as Events
use synclog.Storage.Events.{head_of, read_from, with_head}
use synclog.Storage.Cursors as Cursors
use synclog.Storage.Cursors.{cursor_or, new_cursor, key_for, cursor_before, moved_to, put_cursor}
use synclog.Storage.Snapshots as Snapshots

abbrev pub event_log : ℤ → EventLog Store
event_log now = record {
  append = Events.append now;
  get_head = Events.get_head;
  read = Events.read;
}

abbrev pub cursor_store : CursorStore Store
cursor_store = record { get_cursor = Cursors.get_cursor; ack = Cursors.ack }

abbrev pub snapshot_store : SnapshotStore Store
snapshot_store = record {
  put_snapshot = Snapshots.put_snapshot;
  get_latest_snapshot = Snapshots.get_latest_snapshot;
  get_snapshot = Snapshots.get_snapshot;
}

abbrev pub found_head : String → Store → StreamHead
found_head id s = head_of id (get id s.streams)

abbrev pub batch_from : ℕ → ℕ → Option StreamState → EventBatch
batch_from after limit none = record { events = []; seq_start = 0; seq = 0; final = true }
batch_from after limit (some stream) = stream_batch after limit stream

abbrev pub found_batch : String → ℕ → ℤ → Store → EventBatch
found_batch id after limit s = batch_from after (normalize_limit limit) (get id s.streams)

abbrev pub found_cursor : String → String → Store → SubscriberCursor
found_cursor subscriber id s =
    cursor_or (new_cursor subscriber id) (get (key_for subscriber id) s.cursors)

-- The state behind an ack.
abbrev pub acked_store : AckRequest → Store → Store
acked_store req s =
    if ltb (cursor_before req s).cursor.seq req.seq
    then put_cursor (key_for req.subscriber_id req.stream_id) (moved_to req (cursor_before req s)) s
    else s

-- A cursor that is stored names the subscriber it is stored for.
abbrev pub CursorsNamed : Store → Type 0
CursorsNamed s =
    (k : CursorKey) (cursor : SubscriberCursor)
    → get k s.cursors ≡ some cursor
    → cursor.subscriber_id ≡ k.subscriber_id

pub get_head_found :
    (id : String) (s : Store) → id ≢ "" → Events.get_head id s ≡ (done (found_head id s), s)
unfolding Events.get_head
get_head_found id s h = rw (eq_false id "" h) refl

pub get_cursor_found :
    (subscriber id : String) (s : Store)
    → subscriber ≢ ""
    → id ≢ ""
    → Cursors.get_cursor subscriber id s ≡ (done (found_cursor subscriber id s), s)
unfolding Cursors.get_cursor
get_cursor_found subscriber id s h k = rw (eq_false subscriber "" h, eq_false id "" k) refl

read_from_lem :
    (id : String) (after limit : ℕ) (o : Option StreamState)
    → with_head (head_of id o) (read_from after limit o) ≡ (
        if replay_too_old after (head_of id o).retained_seq_start
        then failed err_too_long
        else done (batch_from after limit o, head_of id o))
unfolding with_head read_from read_stream head_of
read_from_lem id after limit none = refl
read_from_lem id after limit (some stream) = ground arith

pub read_found :
    (id : String) (after : ℕ) (limit : ℤ) (s : Store)
    → id ≢ ""
    → Events.read id after limit s ≡ (
      (if replay_too_old after (found_head id s).retained_seq_start
          then failed err_too_long
          else done (found_batch id after limit s, found_head id s)),
      s,
    )
unfolding Events.read
read_found id after limit s h =
    rw (eq_false id "" h)
      (ap (λ r. (r, s)) (read_from_lem id after (normalize_limit limit) (get id s.streams)))

cursor_before_lem :
    (req : AckRequest) (s : Store)
    → req.subscriber_id ≢ ""
    → CursorsNamed s
    → cursor_before req s ≡ found_cursor req.subscriber_id req.stream_id s
unfolding cursor_before cursor_or new_cursor
cursor_before_lem req s who named =
    elim (Option-cases (get (key_for req.subscriber_id req.stream_id) s.cursors)) [
      | inl missing ↦ rw missing refl
      | inr (cursor, there) ↦
          let mine = named (key_for req.subscriber_id req.stream_id) cursor there in
          rw (there, mine, eq_false req.subscriber_id "" who) refl
    ]

-- The cursor behind one that is written.
found_cursor-put_cursor :
    (subscriber id : String) (cursor : SubscriberCursor) (s : Store)
    → found_cursor subscriber id (put_cursor (key_for subscriber id) cursor s) ≡ cursor
unfolding put_cursor cursor_or
found_cursor-put_cursor subscriber id cursor s =
    rw
      (
        get-set (key_for subscriber id) (key_for subscriber id) cursor s.cursors,
        (same_cursor_key_iff (key_for subscriber id) (key_for subscriber id)).1 refl,
      )
      refl

pub ack_found :
    (req : AckRequest) (s : Store)
    → req.subscriber_id ≢ ""
    → req.stream_id ≢ ""
    → CursorsNamed s
    → Cursors.ack req s
      ≡ (done (found_cursor req.subscriber_id req.stream_id (acked_store req s)), acked_store req s)
unfolding Cursors.ack
ack_found req s who what named = elim (Bool-cases (ltb (cursor_before req s).cursor.seq req.seq)) [
  | inl ahead ↦
      rw
        (
          eq_false req.subscriber_id "" who,
          eq_false req.stream_id "" what,
          ahead,
          found_cursor-put_cursor req.subscriber_id req.stream_id
              (moved_to req (cursor_before req s)) s,
        )
        refl
  | inr behind ↦
      rw
        (
          eq_false req.subscriber_id "" who,
          eq_false req.stream_id "" what,
          behind,
          cursor_before_lem req s who named,
        )
        refl
]

pub acked_store-cursor :
    (req : AckRequest) (s : Store)
    → req.subscriber_id ≢ ""
    → CursorsNamed s
    → (found_cursor req.subscriber_id req.stream_id (acked_store req s)).cursor.seq ≡ (
        if ltb (found_cursor req.subscriber_id req.stream_id s).cursor.seq req.seq
        then req.seq
        else (found_cursor req.subscriber_id req.stream_id s).cursor.seq)
unfolding moved_to
acked_store-cursor req s who named =
    let before = cursor_before_lem req s who named in
    elim (Bool-cases (ltb (found_cursor req.subscriber_id req.stream_id s).cursor.seq req.seq)) [
      | inl ahead ↦
          rw
            (
              before,
              ahead,
              found_cursor-put_cursor req.subscriber_id req.stream_id
                  (moved_to req (found_cursor req.subscriber_id req.stream_id s)) s,
            )
            refl
      | inr behind ↦ rw (before, behind) refl
    ]

pub acked_store-streams : (req : AckRequest) (s : Store) → (acked_store req s).streams ≡ s.streams
unfolding put_cursor
acked_store-streams req s = elim (Bool-cases (ltb (cursor_before req s).cursor.seq req.seq)) [
  | inl ahead ↦ rw ahead refl
  | inr behind ↦ rw behind refl
]

cursor_before_subscriber :
    (req : AckRequest) (s : Store)
    → req.subscriber_id ≢ ""
    → CursorsNamed s
    → (cursor_before req s).subscriber_id ≡ req.subscriber_id
unfolding cursor_or new_cursor
cursor_before_subscriber req s who named =
    rw (cursor_before_lem req s who named)
      (elim (Option-cases (get (key_for req.subscriber_id req.stream_id) s.cursors)) [
        | inl missing ↦ rw missing refl
        | inr (cursor, there) ↦
            rw there (named (key_for req.subscriber_id req.stream_id) cursor there)
      ])

put_cursor-CursorsNamed :
    (key : CursorKey) (cursor : SubscriberCursor) (s : Store)
    → cursor.subscriber_id ≡ key.subscriber_id
    → CursorsNamed s
    → CursorsNamed (put_cursor key cursor s)
unfolding put_cursor
put_cursor-CursorsNamed key cursor s mine named k c there =
    let at = get-set key k cursor s.cursors in
    elim (Bool-cases (same_cursor_key key k)) [
      | inl same ↦
          let it : some cursor ≡ some c = sym (at ∙ rw same refl) ∙ there in
          ground (arith, it, mine, (same_cursor_key_iff key k).0 same)
      | inr other ↦ named k c (sym (at ∙ rw other refl) ∙ there)
    ]

pub acked_store-CursorsNamed :
    (req : AckRequest) (s : Store)
    → req.subscriber_id ≢ ""
    → CursorsNamed s
    → CursorsNamed (acked_store req s)
unfolding moved_to
acked_store-CursorsNamed req s who named =
    elim (Bool-cases (ltb (cursor_before req s).cursor.seq req.seq)) [
      | inl ahead ↦ rw ahead (
          put_cursor-CursorsNamed (key_for req.subscriber_id req.stream_id)
            (moved_to req (cursor_before req s)) s (cursor_before_subscriber req s who named) named)
      | inr behind ↦ rw behind named
    ]

-- The store keeps what the engine's storage promises.
abbrev pub backend : (now : ℤ) → Backend (event_log now) cursor_store
backend now = record {
  head_at = found_head;
  batch_at = found_batch;
  cursor_at = found_cursor;
  acked = acked_store;
  Sound = CursorsNamed;
  get_head_lem = get_head_found;
  get_cursor_lem = get_cursor_found;
  read_lem = read_found;
  ack_lem = ack_found;
  acked-cursor = acked_store-cursor;
  acked-head = λ req s id. ap (λ m. head_of id (get id m)) (acked_store-streams req s);
  acked-Sound = acked_store-CursorsNamed;
}

-- NewEngine over the store, at a time.
abbrev pub engine : ℤ → Engine Store
engine now = record { log = event_log now; cursors = cursor_store; clock = now }
