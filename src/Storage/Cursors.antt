-- ===== src/Storage/Cursors.antt =====
-- internal/storage/memory/store.go: the cursors of subscribers.
use synclog.Prelude.{String, List, [], ◌∷◌, Option, none, some, ◌==◌, ltb, if◌then◌else◌}
use synclog.Prelude.Int.{pos}
use synclog.GoMap.{get, set}
use synclog.Protocol.Event as Pb
use synclog.Protocol.Admin.{ResetCursorRequest, ListCursorsRequest, ListCursorsResponse}
use synclog.Log.Types.{SubscriberCursor, AckRequest}
use synclog.Log.Result.{Op, return, invalid, not_nil}
use synclog.Storage.{Store, CursorKey, cursor_key}

unfoldable pub new_cursor : String → String → SubscriberCursor
new_cursor subscriber_id stream_id = record {
  subscriber_id = subscriber_id;
  cursor = record { stream_id = stream_id; seq = 0 };
  metadata = "";
  updated_at_unix_ms = pos 0;
}

abbrev pub key_for : String → String → CursorKey
key_for subscriber_id stream_id = record { subscriber_id = subscriber_id; stream_id = stream_id }

unfoldable pub cursor_or : SubscriberCursor → Option SubscriberCursor → SubscriberCursor
cursor_or d none = d
cursor_or d (some cursor) = cursor

unfoldable pub get_cursor : String → String → Op Store SubscriberCursor
unfolding new_cursor cursor_or
get_cursor subscriber_id stream_id =
    if subscriber_id == ""
    then invalid "subscriber id is required"
    else if stream_id == ""
    then invalid "stream id is required"
    else λ s.
        return
          (cursor_or (new_cursor subscriber_id stream_id)
            (get (key_for subscriber_id stream_id) s.cursors))
          s

-- The cursor as Store.Ack finds it, a missing one in Go's zero value first.
unfoldable pub cursor_before : AckRequest → Store → SubscriberCursor
unfolding new_cursor cursor_or
cursor_before req s =
    let found =
      cursor_or (new_cursor "" "") (get (key_for req.subscriber_id req.stream_id) s.cursors) in
    if found.subscriber_id == "" then new_cursor req.subscriber_id req.stream_id else found

unfoldable pub moved_to : AckRequest → SubscriberCursor → SubscriberCursor
moved_to req cursor = record cursor {
  cursor = record { stream_id = cursor.cursor.stream_id; seq = req.seq };
  metadata = req.metadata;
}

unfoldable pub put_cursor : CursorKey → SubscriberCursor → Store → Store
put_cursor k cursor s = record s { cursors = set k cursor s.cursors }

unfoldable pub ack : AckRequest → Op Store SubscriberCursor
unfolding cursor_before moved_to put_cursor
ack req =
    if req.subscriber_id == ""
    then invalid "subscriber id is required"
    else if req.stream_id == ""
    then invalid "stream id is required"
    else λ s.
        let cursor = cursor_before req s in
        if ltb cursor.cursor.seq req.seq
        then return (moved_to req cursor)
            (put_cursor (key_for req.subscriber_id req.stream_id) (moved_to req cursor) s)
        else return cursor s

unfoldable pub to_pb_subscriber_cursor : SubscriberCursor → Pb.SubscriberCursor
to_pb_subscriber_cursor cursor = record {
  subscriber_id = cursor.subscriber_id;
  cursor = some (record { stream_id = cursor.cursor.stream_id; seq = cursor.cursor.seq });
  metadata = cursor.metadata;
  updated_at_unix_ms = cursor.updated_at_unix_ms;
}

unfoldable pub requested_cursor : ResetCursorRequest → SubscriberCursor
requested_cursor req = record {
  subscriber_id = req.subscriber_id;
  cursor = record { stream_id = req.stream_id; seq = req.seq };
  metadata = req.metadata;
  updated_at_unix_ms = pos 0;
}

unfoldable pub reset_cursor : Option ResetCursorRequest → Op Store Pb.SubscriberCursor
unfolding requested_cursor put_cursor to_pb_subscriber_cursor
reset_cursor request = not_nil "reset cursor request is required" request λ req.
    if req.subscriber_id == ""
    then invalid "subscriber id is required"
    else if req.stream_id == ""
    then invalid "stream id is required"
    else λ s.
        return (to_pb_subscriber_cursor (requested_cursor req))
          (put_cursor (key_for req.subscriber_id req.stream_id) (requested_cursor req) s)

unfoldable pub cursors_on : String → List (CursorKey × SubscriberCursor) → List Pb.SubscriberCursor
unfolding to_pb_subscriber_cursor
cursors_on stream_id [] = []
cursors_on stream_id ((k, cursor) ∷ m) =
    let rest = cursors_on stream_id m in
    if k.stream_id == stream_id then to_pb_subscriber_cursor cursor ∷ rest else rest

unfoldable pub list_cursors : Option ListCursorsRequest → Op Store ListCursorsResponse
unfolding cursors_on
list_cursors request = not_nil "list cursors request is required" request λ req.
    if req.stream_id == "" then invalid "stream id is required" else λ s.
    return (record { cursors = cursors_on req.stream_id s.cursors.entries }) s
