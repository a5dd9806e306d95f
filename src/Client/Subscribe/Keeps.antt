-- ===== src/Client/Subscribe/Keeps.antt =====
-- A live subscription keeps an invariant that the store, the transport, its streams and the runtime
-- keep, through every error, retry and abort, and sends only acks that the transport is owed.
use synclog.Prelude.{ℕ, zero, suc, ◌+◌, Bool, true, false, Option, none, some}
use synclog.Io.{Error, Outcome, ok, err, running, Io, pure}
use synclog.Io.Triples.{Post, Triple, Keeps, Keeps-pure, Keeps-if, Keeps-bind, Keeps-bind_fact}
use synclog.Protocol.Service.{CatchUpStatus}
use synclog.Protocol.Gateway.{GatewayBatch, GatewaySubscribeResponse}
use synclog.Target.{TargetBindingKey}
use synclog.Transport.{AsyncIterator, Runtime}
use synclog.Client.{SyncClient, SyncBinding}
use synclog.Client.Backoff.{delay}
use synclog.Client.Contract.{StoreContract, TransportContract, StreamContract}
use synclog.Client.Sync.Keeps.{recover_from_snapshot-Keeps, apply_batch-Keeps, catch_up-Keeps}
use synclog.Client.Subscribe.{
  after, unless_aborted, caught, apply_frame, on_frame, handle_subscribe_response, stream_loop,
  listened, run_subscription, subscribe_loop, subscribe,
}

module _ {W A : Type 0} (I : W → Type 0) where
  after-Post :
      (x : Outcome A × W) (cleanup : W → W)
      → ((w : W) → I w → I (cleanup w))
      → Post (λ _. I) I x
      → Post (λ _. I) I (after x.0 cleanup x.1)
  after-Post (ok a, w) cleanup k h = k w h
  after-Post (err e, w) cleanup k h = k w h
  after-Post (running, w) cleanup k h = h

module _ {W : Type 0} (runtime : Runtime W) (Inv : W → Type 0) where
  pub unless_aborted-Keeps :
      (m : Io W (Unit {0})) → Keeps Inv m → Keeps Inv (unless_aborted runtime m)
  unfolding unless_aborted
  unless_aborted-Keeps m k = record { at = λ w h. aborted_or (runtime.aborted w) w (k.at w h) h }
    where
      aborted_or :
          (b : Bool) (w : W)
          → Post (λ _. Inv) Inv (m w)
          → Inv w
          → Post {A = Unit {0}} (λ _. Inv) Inv (elim b [ true ↦ (ok tt, w) | false ↦ m w ])
      aborted_or true w p h = h
      aborted_or false w p h = p

  on_next-Keeps :
      (rest : GatewaySubscribeResponse → Io W (Unit {0})) (frame : Option GatewaySubscribeResponse)
      → ((response : GatewaySubscribeResponse) → Keeps Inv (rest response))
      → Keeps {A = Unit {0}} Inv (elim frame [ none ↦ pure tt | some response ↦ rest response ])
  on_next-Keeps rest none k = Keeps-pure Inv tt
  on_next-Keeps rest (some response) k = k response

  pub caught-Keeps :
      (m : Io W (Unit {0})) (handler : Error → Io W (Unit {0}))
      → Keeps Inv m
      → ((e : Error) → Keeps Inv (handler e))
      → Keeps Inv (caught m handler)
  unfolding caught
  caught-Keeps m handler k l = record { at = λ w h. handled (m w) (k.at w h) }
    where
      handled :
          (x : Outcome (Unit {0}) × W)
          → Post (λ _. Inv) Inv x
          → Post {A = Unit {0}}
              (λ _. Inv)
              Inv
              (elim x.0 [ ok a ↦ (ok a, x.1) | err e ↦ handler e x.1 | running ↦ (running, x.1) ])
      handled (ok a, w) h = h
      handled (err e, w) h = (l e).at w h
      handled (running, w) h = h

module _ {W TSnapshot TEvent : Type 0} {client : SyncClient W}
    {binding : SyncBinding W TSnapshot TEvent} {applied : W → TargetBindingKey → ℕ}
    {Inv : W → Type 0} (store : StoreContract client binding applied Inv)
    (transport : TransportContract client binding applied Inv) (fuel : ℕ)
    (runtime : Runtime W) where
  apply_frame-Keeps :
      (batch : Option GatewayBatch) → Keeps Inv (apply_frame runtime client binding fuel batch)
  unfolding apply_frame
  apply_frame-Keeps none = Keeps-pure Inv tt
  apply_frame-Keeps (some batch) =
      Keeps-if Inv _ _ _ (Keeps-pure Inv tt)
        (Keeps-bind Inv _ _ (apply_batch-Keeps store transport batch) (λ _. Keeps-pure Inv tt))

  on_frame-Keeps :
      (status : CatchUpStatus) (batch : Option GatewayBatch)
      → Keeps Inv (on_frame runtime client binding fuel status batch)
  unfolding on_frame
  on_frame-Keeps CatchUpStatus.too_long batch =
      Keeps-bind Inv _ _ (recover_from_snapshot-Keeps store transport)
        λ _. Keeps-bind Inv _ _ (catch_up-Keeps store transport fuel) (λ _. Keeps-pure Inv tt)
  on_frame-Keeps CatchUpStatus.ok batch = apply_frame-Keeps batch
  on_frame-Keeps CatchUpStatus.none batch = Keeps-pure Inv tt

  pub handle_subscribe_response-Keeps :
      (response : GatewaySubscribeResponse)
      → Keeps Inv (handle_subscribe_response runtime client binding fuel response)
  unfolding handle_subscribe_response
  handle_subscribe_response-Keeps response =
      Keeps-if Inv _ _ _ (Keeps-pure Inv tt)
        (Keeps-if Inv _ _ _ (on_frame-Keeps response.status response.batch) (Keeps-pure Inv tt))

  pub stream_loop-Keeps :
      (rounds : ℕ) (iterator : AsyncIterator W)
      → Keeps Inv iterator.next
      → Keeps Inv (stream_loop runtime client binding fuel rounds iterator)
  unfolding stream_loop
  stream_loop-Keeps zero iterator k = record { at = λ w h. h }
  stream_loop-Keeps (suc rounds) iterator k = unless_aborted-Keeps runtime Inv _ (
      Keeps-bind Inv _ _ k λ frame. on_next-Keeps runtime Inv _ frame λ response.
        unless_aborted-Keeps runtime Inv _ (
          Keeps-bind Inv _ _ (handle_subscribe_response-Keeps response)
            (λ _. stream_loop-Keeps rounds iterator k)))

module _ {W TSnapshot TEvent : Type 0} {runtime : Runtime W} {client : SyncClient W}
    {binding : SyncBinding W TSnapshot TEvent} {applied : W → TargetBindingKey → ℕ}
    {Inv : W → Type 0} (store : StoreContract client binding applied Inv)
    (transport : TransportContract client binding applied Inv)
    (stream : StreamContract client binding applied Inv runtime) (fuel : ℕ) where
  listened-Keeps :
      (iterator : AsyncIterator W)
      → Triple
          (λ w. Inv w × Keeps Inv iterator.next)
          (listened runtime client binding fuel iterator)
          (λ _. Inv)
          Inv
  unfolding listened
  listened-Keeps iterator = record {
    at = λ w h. after-Post Inv _ _ (stream.remove_event_listener _) (
        (stream_loop-Keeps store transport fuel runtime fuel iterator h.1).at _
          (stream.add_event_listener _ _ (stream.new_function w h.0)));
  }

  pub run_subscription-Keeps : Keeps Inv (run_subscription runtime client binding fuel)
  unfolding run_subscription
  run_subscription-Keeps = Keeps-bind Inv _ _ (catch_up-Keeps store transport fuel) λ _.
      Keeps-bind_fact Inv (λ iterator _. Keeps Inv iterator.next) _ _ (stream.subscribe _)
        listened-Keeps

  subscribe_loop-Keeps :
      (rounds attempt : ℕ) → Keeps Inv (subscribe_loop runtime client binding fuel rounds attempt)
  unfolding subscribe_loop
  subscribe_loop-Keeps zero attempt = record { at = λ w h. h }
  subscribe_loop-Keeps (suc rounds) attempt =
      let ms = delay client (attempt + 1) in
      let retry = λ (v : W).
        subscribe_loop runtime client binding fuel rounds (attempt + 1) (runtime.wait ms v) in
      let retry-Keeps : Keeps Inv retry = record {
        at = λ w h.
            (subscribe_loop-Keeps rounds (attempt + 1)).at (runtime.wait ms w) (stream.wait ms w h);
      } in
      unless_aborted-Keeps runtime Inv _ (
        caught-Keeps runtime Inv _ (λ e. unless_aborted runtime retry) run_subscription-Keeps
          (λ e. unless_aborted-Keeps runtime Inv retry retry-Keeps))

  pub subscribe-Keeps : Keeps Inv (subscribe runtime client binding fuel)
  unfolding subscribe
  subscribe-Keeps = subscribe_loop-Keeps fuel 0
