-- ===== src/Session/Contracts.antt =====
-- The memory store and any gateway meet the client's contracts, for every invariant of the store
-- that its methods keep.
use synclog.Prelude.{Bool, ◌∷◌, All-map, arith}
use synclog.Io.{Outcome, ok, err, running, Io}
use synclog.Io.Triples.{Post, Keeps}
use synclog.Memory.{MemorySyncStore, get_applied_seq, apply_snapshot, apply_events}
use synclog.Memory.Views.{get_applied_seq_lem}
use synclog.Memory.Growth.{
  IsKept, Grows, get_applied_seq-Grows, apply_snapshot-Grows, apply_events-Grows,
  apply_snapshot-reaches,
}
use synclog.Transport.{Milliseconds, AsyncIterator, SyncGatewayTransport}
use synclog.Client.{SyncClient, SyncBinding, ack_request, key_of}
use synclog.Client.Contract.{StoreContract, TransportContract, StreamContract}
use synclog.Session.{
  World, acked_key, applied, AcksApplied, runtime_over, over_net, subscribed, client_over, stored,
}

module _ {N TSnapshot TEvent : Type 0} (P : MemorySyncStore TSnapshot TEvent → Type 0) where
  -- The acks are covered, and the store has the invariant.
  abbrev pub Sound : World N TSnapshot TEvent → Type 0
  Sound w = AcksApplied w × P w.store

  grown-Sound :
      (w : World N TSnapshot TEvent) (t : MemorySyncStore TSnapshot TEvent)
      → Grows w.store t
      → P t
      → AcksApplied w
      → Sound (record w { store = t })
  grown-Sound w t g p h = (All-map _ _ w.acks (λ r k. omega (arith, g (acked_key r))) h, p)

  net-Post :
      {A : Type 0} (r : Outcome A) (w : World N TSnapshot TEvent)
      → Sound w
      → Post {A = A} (λ _. Sound) Sound (r, w)
  net-Post (ok a) w h = h
  net-Post (err e) w h = h
  net-Post running w h = h

  over_net-Keeps : {A : Type 0} (m : Io N A) → Keeps Sound (over_net m)
  over_net-Keeps m = record { at = λ w h. net-Post (m w.net).0 _ h }

  subscribed-Post :
      (o : Outcome (AsyncIterator N)) (w : World N TSnapshot TEvent)
      → Sound w
      → Post (λ iterator v. Sound v × Keeps Sound iterator.next) Sound (subscribed o w)
  subscribed-Post (ok i) w h = (h, over_net-Keeps i.next)
  subscribed-Post (err e) w h = h
  subscribed-Post running w h = h

  module _ (kept : IsKept P) (gateway : SyncGatewayTransport N)
      (client : SyncClient (World N TSnapshot TEvent))
      (binding : SyncBinding (World N TSnapshot TEvent) TSnapshot TEvent) where
    pub store-contract : StoreContract (client_over gateway client) (stored binding) applied Sound
    store-contract = record {
      get_applied_seq = λ o. record {
        at = λ w h.
            let k = key_of (client_over gateway client) (stored binding) o in
            (
              grown-Sound w (get_applied_seq k w.store).1 (get_applied_seq-Grows k w.store)
                  (kept.on_read k w.store h.1) h.0,
              omega (arith, get_applied_seq_lem k k w.store, get_applied_seq-Grows k w.store k),
            );
      };
      apply_snapshot = λ o snapshot. record {
        at = λ w h.
            let k = key_of (client_over gateway client) (stored binding) o in
            (
              grown-Sound w (apply_snapshot k snapshot w.store)
                  (apply_snapshot-Grows k snapshot w.store)
                  (kept.on_snapshot k snapshot w.store h.1) h.0,
              apply_snapshot-reaches k snapshot w.store,
            );
      };
      apply_events = λ o events. record {
        at = λ w h.
            let k = key_of (client_over gateway client) (stored binding) o in
            grown-Sound w (apply_events k events w.store) (apply_events-Grows k events w.store)
              (kept.on_events k events w.store h.1) h.0;
      };
    }

    pub transport-contract :
        TransportContract (client_over gateway client) (stored binding) applied Sound
    unfolding key_of
    transport-contract = record {
      catch_up = λ r. over_net-Keeps (gateway.catch_up r);
      get_latest_snapshot = λ r. over_net-Keeps (gateway.get_latest_snapshot r);
      ack = λ o seq. record {
        at = λ w h.
            let r =
              ack_request (key_of (client_over gateway client) (stored binding) o) seq
                client.subscriber_id in
            (over_net-Keeps (gateway.ack r)).at (record w { acks = r ∷ w.acks })
              ((h.1, h.0.0), h.0.1);
      };
    }

    pub stream-contract :
        (is_aborted : N → Bool) (wait : Milliseconds → N → N)
        → StreamContract
            (client_over gateway client)
            (stored binding)
            applied
            Sound
            (runtime_over is_aborted wait)
    stream-contract is_aborted wait = record {
      subscribe = λ r. record { at = λ w h. subscribed-Post (gateway.subscribe r w.net).0 _ h };
      new_function = λ w h. h;
      add_event_listener = λ l w h. h;
      remove_event_listener = λ l w h. h;
      wait = λ ms w h. h;
    }
