-- ===== src/Session/Head/Subscription.antt =====
-- A whole subscription to the served log: its catch-ups, its streams and its retries.
use synclog.Prelude.{List, ℕ, zero, suc, ◌+◌, ◌≡◌, refl, sym, subst, Bool}
use synclog.Io.{Outcome, ok, err, running}
use synclog.Io.Triples.{Post, Keeps, Keeps-world, Triple-bind}
use synclog.Protocol.Gateway.{GatewayEvent}
use synclog.Target.{TargetBindingKey}
use synclog.Transport.{Milliseconds, AsyncIterator, Runtime, SyncGatewayTransport}
use synclog.Client.{SyncClient, SyncBinding}
use synclog.Client.Backoff.{delay}
use synclog.Client.Sync.{catch_up, no_progress}
use synclog.Client.Subscribe.{
  after, listened, run_subscription, subscribe_loop, subscribe, subscribe_request, unless_aborted,
  stream_loop,
}
use synclog.Client.Subscribe.Keeps.{unless_aborted-Keeps, caught-Keeps}
use synclog.Session.{World, client_over, stored, runtime_over, subscribed, iterator_over}
use synclog.Session.Head.{ServesLog}
use synclog.Session.Head.Steps.{Ready}
use synclog.Session.Head.Live.{ServesFrames, Later, later-Ready}
use synclog.Session.Head.Frames.{stream_loop-Ready, catch_up_loop-Keeps}

module _ {N TSnapshot TEvent : Type 0} (gateway : SyncGatewayTransport N)
    (client : SyncClient (World N TSnapshot TEvent))
    (binding : SyncBinding (World N TSnapshot TEvent) TSnapshot TEvent) (key : TargetBindingKey)
    (cursor head : N → ℕ) (is_aborted : N → Bool) (wait : Milliseconds → N → N) where
  abbrev sdk : SyncClient (World N TSnapshot TEvent)
  sdk = client_over gateway client

  abbrev bound : SyncBinding (World N TSnapshot TEvent) TSnapshot TEvent
  bound = stored binding

  abbrev Opened : Outcome (AsyncIterator N) → Type 0
  Opened (ok iterator) = ServesFrames gateway client binding key cursor head iterator
  Opened (err e) = Unit
  Opened running = Unit

  -- The gateway opens streams of the log, or fails to. Neither that nor a wait moves the cursor, and
  -- events may be appended meanwhile.
  pub record ServesStreams : Type 0 where
    pub subscribe :
        (fuel : ℕ) (n : N)
        → let x =
            gateway.subscribe
              (subscribe_request
                (runtime_over {N = N} {TSnapshot = TSnapshot} {TEvent = TEvent} is_aborted wait)
                sdk
                bound
                fuel)
              n in
          Later gateway client binding key cursor head n x.1 × Opened x.0
    pub waits :
        (ms : Milliseconds) (n : N) → Later gateway client binding key cursor head n (wait ms n)

  module _
      (decodes : (event : GatewayEvent)
        → (value : TEvent) × (binding.projection.decode_event event ≡ ok value))
      (serves : ServesLog gateway client binding key cursor head) (streams : ServesStreams)
      (fuel : ℕ) where
    abbrev Whole : World N TSnapshot TEvent → Type 0
    Whole = Ready cursor head key

    abbrev runtime : Runtime (World N TSnapshot TEvent)
    runtime = runtime_over is_aborted wait

    -- A listener is no part of what is kept.
    relisten :
        (w : World N TSnapshot TEvent) (ls : List ℕ) (n : ℕ)
        → Whole w
        → Whole (record w { listeners = ls; functions = n })
    relisten w ls n h = record {
      behind = h.behind;
      within = h.within;
      snapshot = h.snapshot;
      covers = h.covers;
    }

    opened-Post :
        (o : Outcome (AsyncIterator N)) (w : World N TSnapshot TEvent)
        → Whole w
        → Opened o
        → Post
            (λ iterator v.
              Whole v
              × ((i : AsyncIterator N) × (iterator ≡ iterator_over i)
                  × ServesFrames gateway client binding key cursor head i))
            Whole
            (subscribed o w)
    opened-Post (ok i) w h s = (h, (i, refl, s))
    opened-Post (err e) w h s = h
    opened-Post running w h s = h

    after_kept :
        (x : Outcome (Unit {0}) × World N TSnapshot TEvent)
        (cleanup : World N TSnapshot TEvent → World N TSnapshot TEvent)
        → ((w : World N TSnapshot TEvent) → Whole w → Whole (cleanup w))
        → Whole x.1
        → Post (λ _. Whole) Whole (after x.0 cleanup x.1)
    after_kept (ok a, v) cleanup k h = k v h
    after_kept (err e, v) cleanup k h = k v h
    after_kept (running, v) cleanup k h = h

    looped :
        (iterator : AsyncIterator (World N TSnapshot TEvent)) (i : AsyncIterator N)
        → iterator ≡ iterator_over i
        → ServesFrames gateway client binding key cursor head i
        → (w : World N TSnapshot TEvent) → Whole w
        → Whole (stream_loop runtime sdk bound fuel fuel iterator w).1
    looped iterator i e s w h =
        subst (λ it. Whole (stream_loop runtime sdk bound fuel fuel it w).1) (sym e)
          (stream_loop-Ready gateway client binding key cursor head decodes serves runtime fuel fuel
            i w s h)

    run_subscription-Keeps-Whole : Keeps Whole (run_subscription runtime sdk bound fuel)
    unfolding run_subscription listened catch_up
    run_subscription-Keeps-Whole =
        Triple-bind (λ _. Whole) (λ _. Whole) Whole Whole _ _
          (catch_up_loop-Keeps gateway client binding key cursor head decodes serves fuel
            no_progress)
          (λ summary.
            Triple-bind
              (λ iterator w.
                Whole w
                × ((i : AsyncIterator N) × (iterator ≡ iterator_over i)
                    × ServesFrames gateway client binding key cursor head i))
              (λ _. Whole) Whole Whole _ _
              (record {
                at = λ w h.
                    let x = gateway.subscribe (subscribe_request runtime sdk bound fuel) w.net in
                    let (later, opened) = streams.subscribe fuel w.net in
                    opened-Post x.0 (record w { net = x.1 })
                      (later-Ready gateway client binding key cursor head w x.1 later h) opened;
              })
              (λ iterator. record {
                at = λ w h.
                    after_kept _ _ (λ v k. relisten v _ _ k)
                      (looped iterator h.1.0 h.1.1 h.1.2 _ (relisten w _ _ h.0));
              }))

    subscribe_loop-Keeps-Whole :
        (rounds attempt : ℕ) → Keeps Whole (subscribe_loop runtime sdk bound fuel rounds attempt)
    unfolding subscribe_loop
    subscribe_loop-Keeps-Whole zero attempt = record { at = λ w h. h }
    subscribe_loop-Keeps-Whole (suc rounds) attempt =
        let ms = delay sdk (attempt + 1) in
        let retry = λ (v : World N TSnapshot TEvent).
          subscribe_loop runtime sdk bound fuel rounds (attempt + 1) (runtime.wait ms v) in
        let retry-Keeps : Keeps Whole retry = record {
          at = λ w h.
              (subscribe_loop-Keeps-Whole rounds (attempt + 1)).at (runtime.wait ms w)
                (later-Ready gateway client binding key cursor head w _ (streams.waits ms w.net) h);
        } in
        unless_aborted-Keeps runtime Whole _ (
          caught-Keeps runtime Whole _ (λ e. unless_aborted runtime retry)
            run_subscription-Keeps-Whole
            (λ e. unless_aborted-Keeps runtime Whole retry retry-Keeps))

    -- Where the gateway serves a log (its catch-ups, acks and snapshots succeed) and streams of its
    -- frames (which may break), waits move no cursor, and events decode: a record of the key that is
    -- at or past the gateway's cursor and not past its head, whose snapshot is not past the cursor
    -- and whose events leave no gap above the snapshot, is so again behind a live subscription,
    -- through every catch-up, frame, overrun, broken stream and retry, and wherever it is stopped.
    pub subscribe-Ready :
        (w : World N TSnapshot TEvent)
        → Ready cursor head key w
        → Ready cursor head key (subscribe runtime sdk bound fuel w).1
    unfolding subscribe
    subscribe-Ready w h = Keeps-world Whole _ (subscribe_loop-Keeps-Whole fuel 0) w h
