-- ===== src/Storage/Serving.antt =====
-- pkg/synclog/engine.go over internal/storage/memory/store.go, against all the events of the streams.
use synclog.Prelude.{
  ℕ, ◌≤◌, ◌<◌, ◌≡◌, ◌≢◌, refl, ◌∙◌, sym, String, false, List, [], Option, none, some, arith,
  if◌then◌else◌, ltb, ltb→ge, length, Bool-cases, inl, inr,
}
use synclog.Prelude.Int.{ℤ, pos, negsuc}
use synclog.GoMap.{get, string_key}
use synclog.Log.Types.{AckRequest, Event, CatchUpRequest, CatchUpStatus}
use synclog.Log.Result.{done}
use synclog.Log.Engine.{catch_up, ack, replay_too_old, normalize_limit, without_batch}
use synclog.Log.Serving.{is_too_long, replay_too_old_lem, catch_up_lem, ack_lem}
use synclog.Storage.{Store, StreamState}
use synclog.Storage.Stream.{normalize_limit as read_limit}
use synclog.Storage.Events.{head_of}
use synclog.Storage.Backend.{
  engine, backend, found_head, found_cursor, batch_from, acked_store, CursorsNamed,
  acked_store-cursor, acked_store-streams, acked_store-CursorsNamed,
}
use synclog.Storage.History.{StoreHolds, HoldsAt}
use synclog.Storage.History.Reading.{
  read_of, read_of-beyond, stream_batch_lem, replay_too_old-Holds,
}

read_limit-normalize_limit :
    (limit : ℤ) → read_limit (pos (normalize_limit limit)) ≡ normalize_limit limit
unfolding read_limit normalize_limit
read_limit-normalize_limit (pos n) = ground arith
read_limit-normalize_limit (negsuc n) = refl

normalize_limit-positive : (limit : ℤ) → 0 < normalize_limit limit
unfolding normalize_limit
normalize_limit-positive (pos n) = ground arith
normalize_limit-positive (negsuc n) = ground arith

batch_from-HoldsAt :
    (id : String) (after limit : ℕ) (history : List Event) (o : Option StreamState)
    → 0 < limit
    → HoldsAt history o
    → replay_too_old after (head_of id o).retained_seq_start ≡ false
    → batch_from after limit o ≡ read_of after limit history
unfolding head_of
batch_from-HoldsAt id after limit history none k h near =
    rw h (sym (read_of-beyond [] after limit (omega arith)))
batch_from-HoldsAt id after limit history (some stream) k h near =
    stream_batch_lem history stream h after limit k
      (ltb→ge after h.dropped (sym (replay_too_old-Holds history stream h after) ∙ near))

head_of-HoldsAt :
    (id : String) (history : List Event) (o : Option StreamState)
    → HoldsAt history o
    → (head_of id o).cursor.seq ≡ length history
unfolding head_of
head_of-HoldsAt id history none h = rw h refl
head_of-HoldsAt id history (some stream) h = h.head_eq

module _ (now : ℤ) (h : String → List Event) (s : Store) (all : StoreHolds h s) where
  -- A catch-up of a named subscriber and stream, on a store that holds some events of every
  -- stream, changes nothing. It answers TOO_LONG exactly where the subscriber is below what the
  -- stream keeps or further behind than the total limit, and otherwise with the next events, above
  -- the subscriber's cursor, of all that were appended, as many as the limit allows.
  pub catch_up-refines :
      (req : CatchUpRequest)
      → req.subscriber_id ≢ ""
      → req.stream_id ≢ ""
      → catch_up (engine now) req s ≡ (
        done (
            if is_too_long (engine now) (backend now) req s
            then without_batch CatchUpStatus.too_long
                (found_cursor req.subscriber_id req.stream_id s)
                (found_head req.stream_id s)
            else record {
              status = CatchUpStatus.ok;
              batch =
                  read_of
                    (found_cursor req.subscriber_id req.stream_id s).cursor.seq
                    (normalize_limit req.limit)
                    (h req.stream_id);
              cursor = (found_cursor req.subscriber_id req.stream_id s).cursor;
              head = found_head req.stream_id s;
              retained_seq_start = (found_head req.stream_id s).retained_seq_start;
            }),
        s,
      )
  catch_up-refines req who what =
      catch_up_lem (engine now) (backend now) req s who what
      ∙ elim (Bool-cases (is_too_long (engine now) (backend now) req s)) [
        | inl far ↦ rw far refl
        | inr near ↦
            let cursor = (found_cursor req.subscriber_id req.stream_id s).cursor.seq in
            let retained = (found_head req.stream_id s).retained_seq_start in
            let kept : replay_too_old cursor retained ≡ false =
              replay_too_old_lem cursor retained ∙ ground (arith, near) in
            rw
              (
                near,
                read_limit-normalize_limit req.limit,
                batch_from-HoldsAt req.stream_id cursor (normalize_limit req.limit)
                    (h req.stream_id) (get req.stream_id s.streams)
                    (normalize_limit-positive req.limit) (all req.stream_id) kept,
              )
              refl
      ]

  acked_store-StoreHolds : (req : AckRequest) → StoreHolds h (acked_store req s)
  acked_store-StoreHolds req id = rw (acked_store-streams req s) (all id)

  -- An ack of a named subscriber and stream, on a store that holds some events of every stream and
  -- whose cursors name their subscribers, leaves both so, whatever it answers; it never moves the
  -- subscriber's cursor back, and a cursor that is at most the number of the stream's events stays
  -- so.
  pub ack-within_head :
      (req : AckRequest)
      → req.subscriber_id ≢ ""
      → req.stream_id ≢ ""
      → CursorsNamed s
      → StoreHolds h (ack (engine now) req s).1
        × CursorsNamed (ack (engine now) req s).1
        × ((found_cursor req.subscriber_id req.stream_id s).cursor.seq
            ≤ (found_cursor req.subscriber_id req.stream_id (ack (engine now) req s).1).cursor.seq)
        × ((found_cursor req.subscriber_id req.stream_id s).cursor.seq ≤ length (h req.stream_id)
            → (found_cursor req.subscriber_id req.stream_id (ack (engine now) req s).1).cursor.seq
              ≤ length (h req.stream_id))
  ack-within_head req who what named =
      rw (ack_lem (engine now) (backend now) req s who what named)
        (elim (Bool-cases (ltb (found_head req.stream_id s).cursor.seq req.seq)) [
          | inl above ↦ rw above (all, named, omega arith, λ le. le)
          | inr below ↦ rw below (
            acked_store-StoreHolds req,
            acked_store-CursorsNamed req s who named,
            rw (acked_store-cursor req s who named) (ground arith),
            λ le. rw (acked_store-cursor req s who named) (
                ground (
                  arith,
                  le,
                  below,
                  head_of-HoldsAt req.stream_id (h req.stream_id) (get req.stream_id s.streams)
                      (all req.stream_id),
                )),
          )
        ])
