-- ===== src/Log/Serving.antt =====
-- The calls of pkg/synclog/engine.go over storage that does what storage.go asks of it.
use synclog.Prelude.{
  ℕ, ◌+◌, ◌≡◌, ◌≢◌, refl, false, Bool, ◌&&◌, ◌||◌, arith, if◌then◌else◌, ltb, eq_false, Bool-cases,
  inl, inr,
}
use synclog.Prelude.Int.{ℤ, pos, negsuc}
use synclog.Log.Types.{CatchUpRequest, CatchUpResult, CatchUpStatus, AckRequest, AckResult}
use synclog.Log.Result.{Result, done, failed, invalid_error}
use synclog.Log.Engine.{
  Engine, catch_up, replay, on_read, without_batch, replay_too_old, replay_over_budget,
  normalize_limit, ack, ack_below,
}
use synclog.Log.Backend.{Backend}

-- Further behind than a total limit, where there is one.
abbrev pub over_limit : ℕ → ℕ → ℤ → Bool
over_limit cursor head (pos total_limit) = ltb 0 total_limit && ltb (cursor + total_limit) head
over_limit cursor head (negsuc n) = false

-- The next event to be sent is below the retained start.
pub replay_too_old_lem :
    (cursor retained : ℕ) → replay_too_old cursor retained ≡ ltb (cursor + 1) retained
unfolding replay_too_old
replay_too_old_lem cursor retained = ground arith

replay_over_budget_lem :
    (cursor head : ℕ) (total_limit : ℤ)
    → replay_over_budget cursor head total_limit ≡ over_limit cursor head total_limit
unfolding replay_over_budget
replay_over_budget_lem cursor head (pos total_limit) = ground arith
replay_over_budget_lem cursor head (negsuc n) = refl

module _ {S : Type 0} (e : Engine S) (b : Backend e.log e.cursors) where
  -- Too far behind: below what is kept, or by more events than the request's total limit.
  abbrev pub is_too_long : CatchUpRequest → S → Bool
  is_too_long req s =
      let cursor = (b.cursor_at req.subscriber_id req.stream_id s).cursor.seq in
      let head = b.head_at req.stream_id s in
      ltb (cursor + 1) head.retained_seq_start || over_limit cursor head.cursor.seq req.total_limit

  -- The answer to a catch-up: TOO_LONG exactly where the subscriber is too far behind, and else the
  -- events above its cursor.
  abbrev pub caught_up : CatchUpRequest → S → CatchUpResult
  caught_up req s =
      let cursor = b.cursor_at req.subscriber_id req.stream_id s in
      let head = b.head_at req.stream_id s in
      if is_too_long req s then without_batch CatchUpStatus.too_long cursor head else record {
        status = CatchUpStatus.ok;
        batch = b.batch_at req.stream_id cursor.cursor.seq (pos (normalize_limit req.limit)) s;
        cursor = cursor.cursor;
        head = head;
        retained_seq_start = head.retained_seq_start;
      }

  -- What an ack does: refused above the head, with nothing changed, and else as the store's.
  abbrev pub ack_answer : AckRequest → S → Result AckResult × S
  ack_answer req s =
      if ltb (b.head_at req.stream_id s).cursor.seq req.seq
      then (failed (invalid_error "ack seq is above stream head"), s)
      else (
        done (record {
          cursor = b.cursor_at req.subscriber_id req.stream_id (b.acked req s);
          head = b.head_at req.stream_id s;
        }),
        b.acked req s,
      )

  replayed :
      (req : CatchUpRequest) (s : S)
      → req.stream_id ≢ ""
      → replay e req (b.cursor_at req.subscriber_id req.stream_id s) (b.head_at req.stream_id s) s
        ≡ (done (caught_up req s), s)
  unfolding replay on_read
  replayed req s what =
      let cursor = (b.cursor_at req.subscriber_id req.stream_id s).cursor.seq in
      let head = b.head_at req.stream_id s in
      let old = replay_too_old_lem cursor head.retained_seq_start in
      let over = replay_over_budget_lem cursor head.cursor.seq req.total_limit in
      elim (Bool-cases (is_too_long req s)) [
        | inl far ↦ rw (old, over, far) refl
        | inr near ↦
            let kept : ltb (cursor + 1) head.retained_seq_start ≡ false = ground (arith, near) in
            rw
              (
                old,
                over,
                near,
                b.read_lem req.stream_id cursor (pos (normalize_limit req.limit)) s what,
                old,
                kept,
              )
              refl
      ]

  acked_below :
      (req : AckRequest) (s : S)
      → req.subscriber_id ≢ ""
      → req.stream_id ≢ ""
      → b.Sound s
      → ack_below e req (b.head_at req.stream_id s) s ≡ ack_answer req s
  unfolding ack_below
  acked_below req s who what sound =
      elim (Bool-cases (ltb (b.head_at req.stream_id s).cursor.seq req.seq)) [
        | inl above ↦ rw above refl
        | inr below ↦ rw (below, b.ack_lem req s who what sound) refl
      ]

  -- A catch-up changes nothing; it answers TOO_LONG exactly where the subscriber is too far behind,
  -- and else with the events above the cursor.
  pub catch_up_lem :
      (req : CatchUpRequest) (s : S)
      → req.subscriber_id ≢ ""
      → req.stream_id ≢ ""
      → catch_up e req s ≡ (done (caught_up req s), s)
  unfolding catch_up
  catch_up_lem req s who what =
      rw
        (
          eq_false req.subscriber_id "" who,
          eq_false req.stream_id "" what,
          b.get_cursor_lem req.subscriber_id req.stream_id s who what,
          b.get_head_lem req.stream_id s what,
        )
        (replayed req s what)

  -- An ack above the head is refused and changes nothing; any other moves the cursor forward to its
  -- seq, or leaves it where it is further on.
  pub ack_lem :
      (req : AckRequest) (s : S)
      → req.subscriber_id ≢ ""
      → req.stream_id ≢ ""
      → b.Sound s
      → ack e req s ≡ ack_answer req s
  unfolding ack
  ack_lem req s who what sound =
      rw
        (
          eq_false req.subscriber_id "" who,
          eq_false req.stream_id "" what,
          b.get_head_lem req.stream_id s what,
        )
        (acked_below req s who what sound)
