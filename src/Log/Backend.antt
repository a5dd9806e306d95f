-- ===== src/Log/Backend.antt =====
-- What pkg/synclog/engine.go relies on in its storage, by the comments of pkg/synclog/storage.go:
-- the answers of the log and of the cursor store as functions of the state.
use synclog.Prelude.{ℕ, ◌≡◌, ◌≢◌, String, if◌then◌else◌, ltb}
use synclog.Prelude.Int.{ℤ}
use synclog.Log.Types.{StreamHead, EventBatch, SubscriberCursor, AckRequest}
use synclog.Log.Result.{done, failed, err_too_long}
use synclog.Log.Storage.{EventLog, CursorStore}
use synclog.Log.Engine.{replay_too_old}

pub record Backend {S : Type 0} (log : EventLog S) (store : CursorStore S) : Type 1 where
  pub head_at : String → S → StreamHead
  pub batch_at : String → ℕ → ℤ → S → EventBatch
  pub cursor_at : String → String → S → SubscriberCursor
  pub acked : AckRequest → S → S
  -- What the storage keeps true of its state.
  pub Sound : S → Type 0
  -- A look at the head, at a cursor and at events changes nothing.
  pub get_head_lem : (id : String) (s : S) → id ≢ "" → log.get_head id s ≡ (done (head_at id s), s)
  pub get_cursor_lem :
      (subscriber id : String) (s : S)
      → subscriber ≢ ""
      → id ≢ ""
      → store.get_cursor subscriber id s ≡ (done (cursor_at subscriber id s), s)
  -- Read answers TOO_LONG below the retention boundary only.
  pub read_lem :
      (id : String) (after : ℕ) (limit : ℤ) (s : S)
      → id ≢ ""
      → log.read id after limit s ≡ (
        (if replay_too_old after (head_at id s).retained_seq_start
            then failed err_too_long
            else done (batch_at id after limit s, head_at id s)),
        s,
      )
  -- An ack answers with the cursor as it is afterwards, moves it forward only, and no head.
  pub ack_lem :
      (req : AckRequest) (s : S)
      → req.subscriber_id ≢ ""
      → req.stream_id ≢ ""
      → Sound s
      → store.ack req s
        ≡ (done (cursor_at req.subscriber_id req.stream_id (acked req s)), acked req s)
  pub acked-cursor :
      (req : AckRequest) (s : S)
      → req.subscriber_id ≢ ""
      → Sound s
      → (cursor_at req.subscriber_id req.stream_id (acked req s)).cursor.seq ≡ (
          if ltb (cursor_at req.subscriber_id req.stream_id s).cursor.seq req.seq
          then req.seq
          else (cursor_at req.subscriber_id req.stream_id s).cursor.seq)
  pub acked-head :
      (req : AckRequest) (s : S) (id : String) → head_at id (acked req s) ≡ head_at id s
  pub acked-Sound :
      (req : AckRequest) (s : S) → req.subscriber_id ≢ "" → Sound s → Sound (acked req s)
