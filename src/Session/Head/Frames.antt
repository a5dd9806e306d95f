-- ===== src/Session/Head/Frames.antt =====
-- What the client does with the frames of the served log, and with a stream of them.
use synclog.Prelude.{
  ℕ, zero, suc, ◌+◌, ◌≤◌, ◌≡◌, inl, inr, true, false, Option, none, some, Bool-cases, is_empty,
  length,
}
use synclog.Io.{Outcome, ok, err, running, Io, pure, continue, ◌>>=◌}
use synclog.Io.Triples.{Post, Keeps, Keeps-bind, Keeps-pure, Keeps-world, Triple-bind}
use synclog.Protocol.Service.{CatchUpStatus}
use synclog.Protocol.Gateway.{
  GatewayEvent, GatewayBatch, GatewayCatchUpResult, GatewaySubscribeResponse,
}
use synclog.Target.{TargetBindingKey}
use synclog.Transport.{AsyncIterator, Runtime, SyncGatewayTransport}
use synclog.Client.{SyncClient, SyncBinding, SyncCatchUpSummary, key_of, matches_binding}
use synclog.Client.Sync.{catch_up_loop, catch_up, no_progress}
use synclog.Client.Subscribe.{
  apply_frame, on_frame, handle_subscribe_response, stream_loop, unless_aborted,
}
use synclog.Client.Subscribe.Keeps.{unless_aborted-Keeps}
use synclog.Session.{World, client_over, stored, iterator_over}
use synclog.Session.Head.{Consecutive, NoEvents, Served, at_head, behind, too_long, ServesLog}
use synclog.Session.Head.Steps.{Ready}
use synclog.Session.Head.Rounds.{batch-Applied, served-Recovered, round-Progress}
use synclog.Session.Head.Live.{
  ServedFrame, heartbeat, foreign, unset, quiet, news, overrun, Found, ServesFrames, next-Triple,
}

module _ {N TSnapshot TEvent : Type 0} (gateway : SyncGatewayTransport N)
    (client : SyncClient (World N TSnapshot TEvent))
    (binding : SyncBinding (World N TSnapshot TEvent) TSnapshot TEvent) (key : TargetBindingKey)
    (cursor head : N → ℕ) where
  abbrev Whole : World N TSnapshot TEvent → Type 0
  Whole = Ready cursor head key

  module _
      (decodes : (event : GatewayEvent)
        → (value : TEvent) × (binding.projection.decode_event event ≡ ok value))
      (serves : ServesLog gateway client binding key cursor head) where
    abbrev sdk : SyncClient (World N TSnapshot TEvent)
    sdk = client_over gateway client

    abbrev bound : SyncBinding (World N TSnapshot TEvent) TSnapshot TEvent
    bound = stored binding

    pub catch_up_loop-Keeps :
        (fuel : ℕ) (summary : SyncCatchUpSummary)
        → Keeps Whole (catch_up_loop sdk bound fuel summary)
    unfolding catch_up_loop
    catch_up_loop-Keeps zero summary = record { at = λ w h. h }
    catch_up_loop-Keeps (suc fuel) summary = record {
      at = λ w h.
          elim (round-Progress gateway client binding key cursor head decodes serves summary w h) [
            | inl (s, v, e, m) ↦ rw e m.ready
            | inr (s, v, e, m) ↦ rw e ((catch_up_loop-Keeps fuel s).at v m.ready)
          ];
    }

    news_kept :
        (runtime : Runtime (World N TSnapshot TEvent)) (fuel : ℕ) (batch : GatewayBatch) (start : ℕ)
        (w : World N TSnapshot TEvent)
        → Whole w
        → start ≤ cursor w.net
        → Consecutive start batch.events
        → start + length batch.events ≤ head w.net
        → key_of sdk bound (some batch.binding_key) ≡ key
        → Post {A = Unit {0}} (λ _. Whole) Whole (apply_frame runtime sdk bound fuel (some batch) w)
    unfolding apply_frame
    news_kept runtime fuel batch start w h from next fits same =
        let (applied, v, run, moved) =
          batch-Applied gateway client binding key cursor head decodes serves batch w start same h
            from next fits in
        elim (Bool-cases (is_empty batch.events)) [
          | inl nothing ↦ rw nothing h
          | inr full ↦ rw (full, run) moved.ready
        ]

    module _ (runtime : Runtime (World N TSnapshot TEvent)) (fuel : ℕ) where
      -- The recovery that an overrun asks for, and the `catchUp` behind it.
      overrun_kept :
          (batch : Option GatewayBatch) (w : World N TSnapshot TEvent)
          (result : GatewayCatchUpResult)
          → Whole w
          → result.status ≡ CatchUpStatus.too_long
          → Served gateway client binding key cursor head w.net result
          → Post {A = Unit {0}}
              (λ _. Whole)
              Whole
              (on_frame runtime sdk bound fuel CatchUpStatus.too_long batch w)
      unfolding on_frame catch_up
      overrun_kept batch w result h long (at_head reached st left) = cc
      overrun_kept batch w result h long (behind b st is full from fits last same) = cc
      overrun_kept batch w result h long
            (too_long response snapshot value given st replies offers decoded above fits c k same) =
          let (seq, v, run, moved) =
            served-Recovered gateway client binding key cursor head decodes serves w response
              snapshot value given replies offers decoded same h above fits c k in
          rw run (
            (Keeps-bind Whole (catch_up_loop sdk bound fuel no_progress) _
                (catch_up_loop-Keeps fuel no_progress) (λ _. Keeps-pure Whole tt)).at
              v moved.ready)

      quiet_kept :
          (o : Option GatewayBatch) (w : World N TSnapshot TEvent)
          → Whole w
          → NoEvents o
          → Post {A = Unit {0}} (λ _. Whole) Whole (apply_frame runtime sdk bound fuel o w)
      unfolding apply_frame
      quiet_kept none w h q = h
      quiet_kept (some batch) w h q = rw q h

      -- Whatever is done with a frame that the client takes for its own keeps the record whole.
      frame_kept :
          (frame : GatewaySubscribeResponse) (w : World N TSnapshot TEvent)
          → Whole w
          → ServedFrame gateway client binding key cursor head w.net frame
          → frame.heartbeat ≡ false
          → matches_binding frame.binding_key binding.binding_key ≡ true
          → Post {A = Unit {0}}
              (λ _. Whole)
              Whole
              (on_frame runtime sdk bound fuel frame.status frame.batch w)
      unfolding on_frame
      frame_kept frame w h (heartbeat b) g f = cc
      frame_kept frame w h (foreign b) g f = cc
      frame_kept frame w h (unset st) g f = rw st h
      frame_kept frame w h (quiet st q) g f = rw st (quiet_kept frame.batch w h q)
      frame_kept frame w h (news batch start st is from next fits same) g f =
          rw (st, is) (news_kept runtime fuel batch start w h from next fits same)
      frame_kept frame w h (overrun result st long served) g f =
          rw st (overrun_kept frame.batch w result h long served)

      handled_kept :
          (frame : GatewaySubscribeResponse) (w : World N TSnapshot TEvent)
          → Whole w
          → ServedFrame gateway client binding key cursor head w.net frame
          → Post {A = Unit {0}}
              (λ _. Whole)
              Whole
              (handle_subscribe_response runtime sdk bound fuel frame w)
      unfolding handle_subscribe_response
      handled_kept frame w h served = elim (Bool-cases frame.heartbeat) [
        | inl beat ↦ rw beat h
        | inr g ↦ elim (Bool-cases (matches_binding frame.binding_key binding.binding_key)) [
          | inl f ↦ rw (g, f) (frame_kept frame w h served g f)
          | inr other ↦ rw (g, other) h
        ]
      ]

      checked :
          (m : Io (World N TSnapshot TEvent) (Unit {0})) (w : World N TSnapshot TEvent)
          → Whole w
          → Post (λ _. Whole) Whole (m w)
          → Post (λ _. Whole) Whole (unless_aborted runtime m w)
      unfolding unless_aborted
      checked m w h p = elim (Bool-cases (runtime.aborted w)) [
        | inl over ↦ rw (over, unless_aborted) h
        | inr on ↦ rw (on, unless_aborted) p
      ]

      then_kept :
          (rounds : ℕ) (iterator : AsyncIterator (World N TSnapshot TEvent))
          (x : Outcome (Unit {0}) × World N TSnapshot TEvent)
          → Keeps Whole (stream_loop runtime sdk bound fuel rounds iterator)
          → Post (λ _. Whole) Whole x
          → Post
              (λ _. Whole)
              Whole
              (continue x.0 (λ _. stream_loop runtime sdk bound fuel rounds iterator) x.1)
      then_kept rounds iterator (ok a, v) k p = k.at v p
      then_kept rounds iterator (err e, v) k p = p
      then_kept rounds iterator (running, v) k p = p

      frames_kept :
          (rounds : ℕ) (iterator : AsyncIterator (World N TSnapshot TEvent))
          (o : Option GatewaySubscribeResponse) (w : World N TSnapshot TEvent)
          → Keeps Whole (stream_loop runtime sdk bound fuel rounds iterator)
          → Whole w
          → Found gateway client binding key cursor head w.net o
          → Post {A = Unit {0}}
              (λ _. Whole)
              Whole
              (elim o as (λ _. Io (World N TSnapshot TEvent) (Unit {0})) [
                | none ↦ pure tt
                | some frame ↦ unless_aborted runtime (
                    handle_subscribe_response runtime sdk bound fuel frame >>= λ _.
                    stream_loop runtime sdk bound fuel rounds iterator)
              ]
                w)
      frames_kept rounds iterator none w k h f = h
      frames_kept rounds iterator (some frame) w k h f = checked _ w h (
          then_kept rounds iterator (handle_subscribe_response runtime sdk bound fuel frame w) k
            (handled_kept frame w h f))

      stream_loop-Keeps-Whole :
          (rounds : ℕ) (iterator : AsyncIterator N)
          → ServesFrames gateway client binding key cursor head iterator
          → Keeps Whole (stream_loop runtime sdk bound fuel rounds (iterator_over iterator))
      unfolding stream_loop
      stream_loop-Keeps-Whole zero iterator s = record { at = λ w h. h }
      stream_loop-Keeps-Whole (suc rounds) iterator s = unless_aborted-Keeps runtime Whole _ (
          Triple-bind
            (λ frame w. Whole w × Found gateway client binding key cursor head w.net frame)
            (λ _. Whole) Whole Whole (iterator_over iterator).next _
            (next-Triple gateway client binding key cursor head iterator s)
            (λ frame. record {
              at = λ w h.
                  frames_kept rounds (iterator_over iterator) frame w
                    (stream_loop-Keeps-Whole rounds iterator s) h.0 h.1;
            }))

      -- Where the gateway serves a log, its stream the frames of that log, and events decode, the loop
      -- over the stream leaves the key's record without a gap, at or past the gateway's cursor and not
      -- past its head, if it was so before: after any number of frames, repeated ones and overruns
      -- among them, however many events are appended meanwhile, and whether the stream ends, breaks
      -- or is stopped.
      pub stream_loop-Ready :
          (rounds : ℕ) (iterator : AsyncIterator N) (w : World N TSnapshot TEvent)
          → ServesFrames gateway client binding key cursor head iterator
          → Ready cursor head key w
          → Ready cursor head key
              (stream_loop runtime sdk bound fuel rounds (iterator_over iterator) w).1
      stream_loop-Ready rounds iterator w s h =
          Keeps-world Whole _ (stream_loop-Keeps-Whole rounds iterator s) w h
