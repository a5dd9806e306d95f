-- ===== src/Client/Contract.antt =====
-- What the client may assume of its store and its transport, for an invariant `Inv` of the world.
-- `applied` is how far the store has got with a key. The transport is owed something too: an ack
-- is only sent for what is applied.
use synclog.Prelude.{ℕ, ◌≤◌, String, Option, List}
use synclog.Io.Triples.{Triple, Keeps}
use synclog.Protocol.Gateway.{
  GatewayCatchUpRequest, GatewayGetLatestSnapshotRequest, GatewaySubscribeRequest,
}
use synclog.Target.{TargetBindingKey}
use synclog.Store.{DecodedGatewayEvent, DecodedGatewaySnapshot}
use synclog.Transport.{Milliseconds, Listener, Runtime}
use synclog.Client.{SyncClient, SyncBinding, ack_request, key_of}

module _ {W TSnapshot TEvent : Type 0} (client : SyncClient W)
    (binding : SyncBinding W TSnapshot TEvent) (applied : W → TargetBindingKey → ℕ)
    (Inv : W → Type 0) where
  pub record StoreContract : Type 0 where
    pub get_applied_seq :
        (o : Option String)
        → Triple Inv
            (binding.store.get_applied_seq (key_of client binding o))
            (λ n w. Inv w × (n ≤ applied w (key_of client binding o)))
            Inv
    pub apply_snapshot :
        (o : Option String) (snapshot : DecodedGatewaySnapshot TSnapshot)
        → Triple Inv
            (binding.store.apply_snapshot (key_of client binding o) snapshot)
            (λ _ w. Inv w × (snapshot.seq ≤ applied w (key_of client binding o)))
            Inv
    pub apply_events :
        (o : Option String) (events : List (DecodedGatewayEvent TEvent))
        → Keeps Inv (binding.store.apply_events (key_of client binding o) events)

  pub record TransportContract : Type 0 where
    pub catch_up : (r : GatewayCatchUpRequest) → Keeps Inv (client.transport.catch_up r)
    pub get_latest_snapshot :
        (r : GatewayGetLatestSnapshotRequest) → Keeps Inv (client.transport.get_latest_snapshot r)
    pub ack :
        (o : Option String) (seq : ℕ)
        → Triple
            (λ w. Inv w × (seq ≤ applied w (key_of client binding o)))
            (client.transport.ack (ack_request (key_of client binding o) seq client.subscriber_id))
            (λ _. Inv)
            Inv

  -- A stream, and the runtime around it. Every frame that is awaited keeps the invariant.
  pub record StreamContract (runtime : Runtime W) : Type 0 where
    pub subscribe :
        (r : GatewaySubscribeRequest)
        → Triple Inv
            (client.transport.subscribe r)
            (λ iterator w. Inv w × Keeps Inv iterator.next)
            Inv
    pub new_function : (w : W) → Inv w → Inv (runtime.new_function w).1
    pub add_event_listener : (l : Listener W) (w : W) → Inv w → Inv (runtime.add_event_listener l w)
    pub remove_event_listener :
        (l : Listener W) (w : W) → Inv w → Inv (runtime.remove_event_listener l w)
    pub wait : (ms : Milliseconds) (w : W) → Inv w → Inv (runtime.wait ms w)
