-- ===== src/Session/Safety.antt =====
-- What holds of a whole sync with the memory store, whatever the gateway answers, whatever the
-- decoders throw and whenever the subscription is stopped.
use synclog.Prelude.{ℕ, Bool, arith}
use synclog.Io.Triples.{Keeps-world}
use synclog.Memory.{MemorySyncStore}
use synclog.Memory.Growth.{IsKept, Grows, AllValid, AllValid-IsKept, any-IsKept, reached-IsKept}
use synclog.Transport.{Milliseconds, SyncGatewayTransport}
use synclog.Client.{SyncClient, SyncBinding}
use synclog.Client.Sync.{catch_up}
use synclog.Client.Sync.Keeps.{catch_up-Keeps}
use synclog.Client.Subscribe.{subscribe}
use synclog.Client.Subscribe.Keeps.{subscribe-Keeps}
use synclog.Session.{World, applied, AcksApplied, client_over, stored, runtime_over}
use synclog.Session.Contracts.{Sound, store-contract, transport-contract, stream-contract}

module _ {N TSnapshot TEvent : Type 0} (gateway : SyncGatewayTransport N)
    (client : SyncClient (World N TSnapshot TEvent))
    (binding : SyncBinding (World N TSnapshot TEvent) TSnapshot TEvent) (fuel : ℕ) where
  catch_up-Sound :
      (P : MemorySyncStore TSnapshot TEvent → Type 0)
      → IsKept P
      → (w : World N TSnapshot TEvent) → Sound P w
      → Sound P (catch_up (client_over gateway client) (stored binding) fuel w).1
  catch_up-Sound P kept = Keeps-world (Sound P) _ (
      catch_up-Keeps (store-contract P kept gateway client binding)
        (transport-contract P kept gateway client binding) fuel)

  subscribe-Sound :
      (P : MemorySyncStore TSnapshot TEvent → Type 0)
      → IsKept P
      → (is_aborted : N → Bool) (wait : Milliseconds → N → N) (w : World N TSnapshot TEvent)
      → Sound P w
      → Sound P
          (subscribe
            (runtime_over is_aborted wait)
            (client_over gateway client)
            (stored binding)
            fuel
            w).1
  subscribe-Sound P kept is_aborted wait = Keeps-world (Sound P) _ (
      subscribe-Keeps (store-contract P kept gateway client binding)
        (transport-contract P kept gateway client binding)
        (stream-contract P kept gateway client binding is_aborted wait) fuel)

  -- An ack is never ahead of the store: if every ack sent so far is for a seq that the store has
  -- applied under the ack's key, this holds again after a `catchUp`, whether it returned, threw or
  -- is still running.
  pub catch_up-AcksApplied :
      (w : World N TSnapshot TEvent)
      → AcksApplied w
      → AcksApplied (catch_up (client_over gateway client) (stored binding) fuel w).1
  catch_up-AcksApplied w h = (catch_up-Sound _ any-IsKept w (h, tt)).0

  -- An ack is never ahead of the store: if every ack sent so far is for a seq that the store has
  -- applied under the ack's key, this holds again after any part of a live subscription, through
  -- every frame, error, retry and abort.
  pub subscribe-AcksApplied :
      (is_aborted : N → Bool) (wait : Milliseconds → N → N) (w : World N TSnapshot TEvent)
      → AcksApplied w
      → AcksApplied
          (subscribe
            (runtime_over is_aborted wait)
            (client_over gateway client)
            (stored binding)
            fuel
            w).1
  subscribe-AcksApplied is_aborted wait w h =
      (subscribe-Sound _ any-IsKept is_aborted wait w (h, tt)).0

  -- From a world where every ack sent so far is for an applied seq, a live subscription keeps every
  -- record of the store in order: the seqs of its events rise strictly up to its applied seq, and its
  -- snapshot is not ahead of that.
  pub subscribe-AllValid :
      (is_aborted : N → Bool) (wait : Milliseconds → N → N) (w : World N TSnapshot TEvent)
      → AcksApplied w
      → AllValid w.store
      → AllValid
          (subscribe
            (runtime_over is_aborted wait)
            (client_over gateway client)
            (stored binding)
            fuel
            w).1.store
  subscribe-AllValid is_aborted wait w h v =
      (subscribe-Sound _ AllValid-IsKept is_aborted wait w (h, v)).1

  -- From a world where every ack sent so far is for an applied seq, a live subscription takes no
  -- key of the store back: the applied seq of each is at the end at least what it was at the start.
  pub subscribe-Grows :
      (is_aborted : N → Bool) (wait : Milliseconds → N → N) (w : World N TSnapshot TEvent)
      → AcksApplied w
      → Grows w.store
          (subscribe
            (runtime_over is_aborted wait)
            (client_over gateway client)
            (stored binding)
            fuel
            w).1.store
  subscribe-Grows is_aborted wait w h j =
      (subscribe-Sound _ (reached-IsKept j (applied w j)) is_aborted wait w (h, omega arith)).1
