-- ===== src/Tests/GoSamples.antt =====
-- A store of internal/storage/memory/store.go with one stream of two events, of which it has
-- dropped the first.
use synclog.Prelude.{
  ℕ, ◌≡◌, ◌≢◌, refl, sym, subst, ◌∙◌, Bool-cases, inl, inr, String, List, [], ◌∷◌, arith, ◌==◌,
  eq_iff,
}
use synclog.Prelude.Int.{ℤ, pos}
use synclog.GoMap.{get, set, make, get-set, get_made, string_key}
use synclog.Log.Types.{Event, AppendRequest, AckRequest, CatchUpRequest, SubscriberCursor}
use synclog.Storage.{Store, StreamState, new_store, cursor_key}
use synclog.Storage.Events.{put_stream}
use synclog.Storage.History.{Holds, StoreHolds, updated, seq_of_key}
use synclog.Storage.History.Keeping.{put_stream-StoreHolds}
use synclog.Storage.Backend.{CursorsNamed}
use synclog.Storage.History.Runs.{new_store-StoreHolds}

abbrev pub now : ℤ
now = pos 1700000000000000000

abbrev pub event_1 : Event
event_1 = record {
  stream_id = "s";
  seq = 1;
  payload = 7 ∷ [];
  payload_type = "note";
  payload_version = 1;
  idempotency_key = "k";
  created_at_unix_ms = pos 5;
}

abbrev pub event_2 : Event
event_2 = record {
  stream_id = "s";
  seq = 2;
  payload = 8 ∷ [];
  payload_type = "note";
  payload_version = 1;
  idempotency_key = "";
  created_at_unix_ms = pos 6;
}

abbrev pub two_events : List Event
two_events = event_1 ∷ event_2 ∷ []

abbrev pub sample_stream : StreamState
sample_stream = record {
  head = 2;
  retained_seq_start = 2;
  events = event_2 ∷ [];
  idempotency = set "k" 1 make;
}

abbrev pub sample_store : Store
sample_store = put_stream "s" sample_stream new_store

abbrev pub histories : String → List Event
histories = updated "s" two_events (λ id. [])

sample_keys : (k : String) → get k sample_stream.idempotency ≡ seq_of_key k two_events
sample_keys k = elim (Bool-cases ("k" == k)) [
  | inl same ↦
      subst (λ j. get j sample_stream.idempotency ≡ seq_of_key j two_events) ((eq_iff "k" k).0 same)
        (get-set "k" "k" 1 make)
  | inr other ↦
      get-set "k" k 1 make
      ∙ rw (other, get_made {V = ℕ} k) (ground (arith, eq_iff k "", eq_iff "" k))
]

sample_stream-Holds : Holds two_events sample_stream
sample_stream-Holds = record {
  dropped = 1;
  within = omega arith;
  head_eq = refl;
  events_eq = refl;
  start_eq = refl;
  numbered = (refl, (refl, tt));
  keys_eq = sample_keys;
  bounded = omega arith;
}

pub sample_store-StoreHolds : StoreHolds histories sample_store
sample_store-StoreHolds =
    put_stream-StoreHolds (λ id. []) new_store "s" two_events sample_stream new_store-StoreHolds
      sample_stream-Holds

abbrev pub stream : String
stream = "s"

abbrev pub subscriber : String
subscriber = "reader"

abbrev pub empty : String
empty = ""

pub stream-named : stream ≢ empty
stream-named = cc

abbrev pub snapshot_type : String
snapshot_type = "note_state"

pub snapshot_type-named : snapshot_type ≢ empty
snapshot_type-named = cc

pub subscriber-named : subscriber ≢ empty
subscriber-named = cc

abbrev pub sample_append : AppendRequest
sample_append = record {
  stream_id = "s";
  payload = 9 ∷ [];
  payload_type = "note";
  payload_version = 1;
  idempotency_key = "k2";
  created_at_unix_ms = pos 7;
}

abbrev pub sample_ack : AckRequest
sample_ack = record { subscriber_id = "reader"; stream_id = "s"; seq = 2; metadata = "" }

abbrev pub sample_catch_up : CatchUpRequest
sample_catch_up = record {
  subscriber_id = "reader";
  stream_id = "s";
  limit = pos 0;
  total_limit = pos 0;
}

pub no_cursors-CursorsNamed : CursorsNamed sample_store
unfolding put_stream new_store
no_cursors-CursorsNamed k cursor there =
    absurd (cc (sym (get_made {V = SubscriberCursor} k) ∙ there))
