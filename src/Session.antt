-- ===== src/Session.antt =====
-- The SDK put together: a `SyncClient` whose bindings have the `MemorySyncStore` of
-- ts/synclog/src/memory-store.ts, over an arbitrary gateway whose state is of type `N`. The world
-- also records the acks that were sent, and which listeners the client has on its signal, by their
-- identities.
pub mod Contracts
pub mod Safety
pub mod Batch
pub mod Listeners
pub mod Recovery
pub mod Head
pub mod Overrun
pub mod Misfiling
use synclog.Prelude.{
  ℕ, ◌+◌, ◌≤◌, Bool, true, false, ◌||◌, nat_eq, if◌then◌else◌, List, [], ◌∷◌, ◌++◌, Option, none,
  some, All, coalesce,
}
use synclog.Io.{Outcome, ok, err, running, Io}
use synclog.Protocol.Gateway.{
  SyncTarget, GatewayAckRequest, GatewaySubscribeResponse, GatewaySubscribeRequest,
}
use synclog.Target.{TargetBindingKey}
use synclog.Store.{ProjectionStore}
use synclog.Memory
use synclog.Memory.{MemorySyncStore, get_record}
use synclog.Transport.{
  Milliseconds, AsyncIterator, Listener, close_iterator, Runtime, SyncGatewayTransport,
}
use synclog.Client.{SyncClient, SyncBinding}

pub record World (N TSnapshot TEvent : Type 0) : Type 0 where
  pub store : MemorySyncStore TSnapshot TEvent
  pub net : N
  pub acks : List GatewayAckRequest
  pub listeners : List ℕ
  pub functions : ℕ

-- The key that an ack is for.
abbrev pub acked_key : GatewayAckRequest → TargetBindingKey
acked_key r = record {
  subscriber_id = r.subscriber_id;
  target = coalesce r.target (record { namespace = ""; id = ""; view = "" });
  binding_key = r.binding_key;
}

-- A signal's list of listeners takes each function object once.
unfoldable pub has : ℕ → List ℕ → Bool
has id [] = false
has id (x ∷ xs) = nat_eq x id || has id xs

unfoldable pub added : ℕ → List ℕ → List ℕ
unfolding has
added id listeners = if has id listeners then listeners else listeners ++ id ∷ []

unfoldable pub removed : ℕ → List ℕ → List ℕ
removed id [] = []
removed id (x ∷ xs) = let rest = removed id xs in if nat_eq x id then xs else x ∷ rest

abbrev identity : {W : Type 0} → Listener W → ℕ
identity (close_iterator id iterator) = id

module _ {N TSnapshot TEvent : Type 0} where
  -- How far the store has got with a key.
  abbrev pub applied : World N TSnapshot TEvent → TargetBindingKey → ℕ
  applied w key = (get_record key w.store).applied_seq

  -- Every ack that was sent is for what the store has applied.
  abbrev pub AcksApplied : World N TSnapshot TEvent → Type 0
  AcksApplied w = All (λ r. r.seq ≤ applied w (acked_key r)) w.acks

  abbrev pub over_net : {A : Type 0} → Io N A → Io (World N TSnapshot TEvent) A
  over_net m w = let (r, n) = m w.net in (r, record w { net = n })

  -- A computation of the store that cannot fail.
  abbrev pub over_store :
      (MemorySyncStore TSnapshot TEvent → MemorySyncStore TSnapshot TEvent)
      → Io (World N TSnapshot TEvent) (Unit {0})
  over_store f w = (ok tt, record w { store = f w.store })

  abbrev pub memory_store : ProjectionStore (World N TSnapshot TEvent) TSnapshot TEvent
  memory_store = record {
    get_applied_seq =
        λ key w. let (n, s) = Memory.get_applied_seq key w.store in (ok n, record w { store = s });
    apply_snapshot = λ key snapshot. over_store (Memory.apply_snapshot key snapshot);
    apply_events = λ key events. over_store (Memory.apply_events key events);
    clear_target = some (λ target. over_store (Memory.clear_target target));
  }

  abbrev pub iterator_over : AsyncIterator N → AsyncIterator (World N TSnapshot TEvent)
  iterator_over i = record { next = over_net i.next; close = λ w. record w { net = i.close w.net } }

  abbrev subscribed :
      Outcome (AsyncIterator N)
      → World N TSnapshot TEvent
      → Outcome (AsyncIterator (World N TSnapshot TEvent)) × World N TSnapshot TEvent
  subscribed (ok i) w = (ok (iterator_over i), w)
  subscribed (err e) w = (err e, w)
  subscribed running w = (running, w)

  -- The gateway's transport, each ack of which is noted as it is sent.
  abbrev pub transport_over :
      SyncGatewayTransport N → SyncGatewayTransport (World N TSnapshot TEvent)
  transport_over t = record {
    «open» = λ r. over_net (t.«open» r);
    catch_up = λ r. over_net (t.catch_up r);
    ack = λ r w. over_net (t.ack r) (record w { acks = r ∷ w.acks });
    get_latest_snapshot = λ r. over_net (t.get_latest_snapshot r);
    modify_subscription = λ r. over_net (t.modify_subscription r);
    subscribe = λ r w. let (o, n) = t.subscribe r w.net in subscribed o (record w { net = n });
  }

  -- A signal and a timer that the rest of the page drives.
  abbrev pub runtime_over : (N → Bool) → (Milliseconds → N → N) → Runtime (World N TSnapshot TEvent)
  runtime_over is_aborted wait = record {
    aborted = λ w. is_aborted w.net;
    new_function = λ w. (w.functions, record w { functions = w.functions + 1 });
    add_event_listener = λ l w. record w { listeners = added (identity l) w.listeners };
    remove_event_listener = λ l w. record w { listeners = removed (identity l) w.listeners };
    wait = λ ms w. record w { net = wait ms w.net };
  }

  -- A client of the gateway, and a binding with the memory store.
  abbrev pub client_over :
      SyncGatewayTransport N
      → SyncClient (World N TSnapshot TEvent)
      → SyncClient (World N TSnapshot TEvent)
  client_over t client = record client { transport = transport_over t }

  abbrev pub stored :
      SyncBinding (World N TSnapshot TEvent) TSnapshot TEvent
      → SyncBinding (World N TSnapshot TEvent) TSnapshot TEvent
  stored binding = record binding { store = memory_store }
