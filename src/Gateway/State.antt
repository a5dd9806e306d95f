-- ===== src/Gateway/State.antt =====
-- pkg/gateway/engine.go: the state of a target, over all of its bindings.
use synclog.Prelude.{
  String, Bool, true, false, not, ◌&&◌, ◌||◌, List, [], ◌∷◌, ◌++◌, some, ltb, if◌then◌else◌,
}
use synclog.Protocol.Gateway.{SyncTarget, TargetState, TargetBindingState}
use synclog.Log.Types.{SubscriberCursor, StreamHead}
use synclog.Log.Result.{Op, return, ◌>>=◌}
use synclog.Log.Engine as Log
use synclog.Gateway.Types.{StreamBinding}

unfoldable pub binding_state : StreamBinding → SubscriberCursor → StreamHead → TargetBindingState
binding_state binding cursor head = record {
  binding_key = binding.binding_key;
  cursor_seq = cursor.cursor.seq;
  head_seq = head.cursor.seq;
  retained_seq_start = head.retained_seq_start;
}

-- The state while the loop runs, with its flags cursorSet and retainedSet.
pub record Gathered : Type 0 where
  pub state : TargetState
  pub cursor_set : Bool
  pub retained_set : Bool

unfoldable pub nothing_gathered : SyncTarget → Gathered
nothing_gathered target = record {
  state = record {
    target = some target;
    cursor_seq = 0;
    head_seq = 0;
    retained_seq_start = 0;
    bindings = [];
  };
  cursor_set = false;
  retained_set = false;
}

-- One binding's state joins.
unfoldable pub gather : Gathered → TargetBindingState → Gathered
gather g b =
    let lower = not g.cursor_set || ltb b.cursor_seq g.state.cursor_seq in
    let earlier =
      ltb 0 b.retained_seq_start
      && (not g.retained_set || ltb b.retained_seq_start g.state.retained_seq_start) in
    record {
      state = record {
        target = g.state.target;
        cursor_seq = if lower then b.cursor_seq else g.state.cursor_seq;
        head_seq = if ltb g.state.head_seq b.head_seq then b.head_seq else g.state.head_seq;
        retained_seq_start = if earlier then b.retained_seq_start else g.state.retained_seq_start;
        bindings = g.state.bindings ++ b ∷ [];
      };
      cursor_set = if lower then true else g.cursor_set;
      retained_set = if earlier then true else g.retained_set;
    }

module _ {S : Type 0} (core : Log.Engine S) where
  -- The loop of targetState.
  unfoldable pub gather_bindings : String → List StreamBinding → Gathered → Op S TargetState
  unfolding gather binding_state Log.get_cursor Log.get_head
  gather_bindings subscriber_id [] g = return g.state
  gather_bindings subscriber_id (binding ∷ bindings) g =
      Log.get_cursor core subscriber_id binding.stream_id >>= λ cursor.
      Log.get_head core binding.stream_id >>= λ head.
      gather_bindings subscriber_id bindings (gather g (binding_state binding cursor head))

  unfoldable pub target_state : String → SyncTarget → List StreamBinding → Op S TargetState
  unfolding gather_bindings nothing_gathered
  target_state subscriber_id target bindings =
      gather_bindings subscriber_id bindings (nothing_gathered target)
