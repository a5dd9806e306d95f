-- ===== src/Client/Subscribe.antt =====
-- ts/synclog/src/client.ts: the live subscription, its frames, and the loop that starts it anew
-- after an error. Each loop takes `fuel`, a bound on its rounds: a subscription that nobody stops
-- has no end.
pub mod Keeps
pub mod Ends
use synclog.Prelude.{
  ℕ, zero, suc, ◌+◌, Bool, true, false, [], ◌∷◌, Option, none, some, coalesce, is_empty,
  if◌then◌else◌,
}
use synclog.Io.{Error, Outcome, ok, err, running, Io, pure, ◌>>=◌, ◌>>◌}
use synclog.Protocol.Service.{CatchUpStatus}
use synclog.Protocol.Gateway.{GatewayBatch, GatewaySubscribeRequest, GatewaySubscribeResponse}
use synclog.Transport.{AsyncIterator, Listener, close_iterator, Runtime, SyncGatewayTransport}
use synclog.Client.{SyncBinding, SyncClient, matches_binding}
use synclog.Client.Sync.{recover_from_snapshot, apply_batch, catch_up}
use synclog.Client.Backoff.{delay}

module _ {W A : Type 0} where
  abbrev pub after : Outcome A → (W → W) → Io W A
  after (ok a) cleanup w = (ok a, cleanup w)
  after (err e) cleanup w = (err e, cleanup w)
  after running cleanup w = (running, w)

  -- `try { … } finally { … }`; a body that is still running has not come to its `finally`.
  abbrev pub finally : Io W A → (W → W) → Io W A
  finally m cleanup w = let (r, w') = m w in after r cleanup w'

-- `if (signal.aborted) { return; }` in front of the rest.
unfoldable pub unless_aborted : {W : Type 0} → Runtime W → Io W (Unit {0}) → Io W (Unit {0})
unless_aborted runtime rest w = elim (runtime.aborted w) [ true ↦ (ok tt, w) | false ↦ rest w ]

-- `try { await m } catch (err) { … }`, with nothing behind it where `m` returns.
unfoldable pub caught : {W : Type 0} → Io W (Unit {0}) → (Error → Io W (Unit {0})) → Io W (Unit {0})
caught m handler w =
    let (r, v) = m w in elim r [ ok a ↦ (ok a, v) | err e ↦ handler e v | running ↦ (running, v) ]

module _ {W TSnapshot TEvent : Type 0} (runtime : Runtime W) (client : SyncClient W)
    (binding : SyncBinding W TSnapshot TEvent) (fuel : ℕ) where
  -- The frames of status OK.
  unfoldable pub apply_frame : Option GatewayBatch → Io W (Unit {0})
  apply_frame none = pure tt
  apply_frame (some batch) =
      if is_empty batch.events then pure tt else do apply_batch client binding batch; pure tt

  unfoldable pub on_frame : CatchUpStatus → Option GatewayBatch → Io W (Unit {0})
  unfolding apply_frame
  on_frame CatchUpStatus.too_long batch = do
    recover_from_snapshot client binding
    catch_up client binding fuel
    pure tt
  on_frame CatchUpStatus.ok batch = apply_frame batch
  on_frame CatchUpStatus.none batch = pure tt

  unfoldable pub handle_subscribe_response : GatewaySubscribeResponse → Io W (Unit {0})
  unfolding on_frame
  handle_subscribe_response response =
      if response.heartbeat
      then pure tt
      else if matches_binding response.binding_key binding.binding_key
      then on_frame response.status response.batch
      else pure tt

  -- The loop over the frames of a stream, of which none is its end.
  unfoldable pub stream_loop : ℕ → AsyncIterator W → Io W (Unit {0})
  unfolding unless_aborted
  stream_loop zero iterator w = (running, w)
  stream_loop (suc rounds) iterator w =
      unless_aborted runtime
        (iterator.next >>= λ frame. elim frame [
          | none ↦ pure tt
          | some response ↦
              unless_aborted runtime
                (handle_subscribe_response response >>= λ _. stream_loop rounds iterator)
        ])
        w

  unfoldable pub subscribe_request : GatewaySubscribeRequest
  subscribe_request = record {
    subscriber_id = client.subscriber_id;
    targets = binding.target ∷ [];
    batch_limit_per_target = coalesce binding.limit_per_target client.batch_limit_per_target;
    max_in_flight_per_target = client.max_in_flight_per_target;
    subscription_id = coalesce binding.subscription_id "";
  }

  -- The stream from its first frame on, with the listener in place.
  unfoldable pub listened : AsyncIterator W → Io W (Unit {0})
  listened iterator w =
      let (id, w') = runtime.new_function w in
      finally (stream_loop fuel iterator)
        (runtime.remove_event_listener (close_iterator id iterator))
        (runtime.add_event_listener (close_iterator id iterator) w')

  unfoldable pub run_subscription : Io W (Unit {0})
  unfolding listened subscribe_request
  run_subscription = do
    catch_up client binding fuel
    iterator ← client.transport.subscribe subscribe_request
    listened iterator

  unfoldable pub subscribe_loop : ℕ → ℕ → Io W (Unit {0})
  unfolding unless_aborted caught
  subscribe_loop zero attempt w = (running, w)
  subscribe_loop (suc rounds) attempt w =
      unless_aborted runtime
        (caught run_subscription (λ e.
          unless_aborted runtime (λ v.
            subscribe_loop rounds (attempt + 1) (runtime.wait (delay client (attempt + 1)) v))))
        w

  -- `subscribe`: what its `done` comes to. Its `stop` aborts the signal of the runtime.
  unfoldable pub subscribe : Io W (Unit {0})
  subscribe = subscribe_loop fuel 0
