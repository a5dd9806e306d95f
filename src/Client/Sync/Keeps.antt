-- ===== src/Client/Sync/Keeps.antt =====
-- Every step of a sync keeps an invariant that the store and the transport keep, and sends only
-- acks that the transport is owed.
use synclog.Prelude.{ℕ, zero, suc, ◌≤◌, String, List, [], ◌∷◌, Option, none, some, length}
use synclog.Io.{Io, pure}
use synclog.Io.Triples.{
  Triple, Keeps, Keeps-pure, Keeps-lift, Keeps-if, Keeps-bind, Keeps-bind_fact, Keeps-bind_owed,
  Keeps-forget,
}
use synclog.Protocol.Service.{CatchUpStatus}
use synclog.Protocol.Gateway.{GatewayBatch, GatewaySnapshot, GatewayCatchUpResult}
use synclog.Target.{TargetBindingKey}
use synclog.Store.{DecodedGatewayEvent}
use synclog.Client.{SyncClient, SyncBinding, SyncCatchUpSummary, ack, key_of}
use synclog.Client.Sync.{
  Round, again, stop, use_snapshot, apply_if_any, ack_reached, apply_decoded, on_batch, on_status,
  on_result, recover_from_snapshot, apply_batch, catch_up_round, catch_up_loop, catch_up,
  no_progress,
}
use synclog.Client.Contract.{StoreContract, TransportContract}

module _ {W TSnapshot TEvent : Type 0} {client : SyncClient W}
    {binding : SyncBinding W TSnapshot TEvent} {applied : W → TargetBindingKey → ℕ}
    {Inv : W → Type 0} (store : StoreContract client binding applied Inv)
    (transport : TransportContract client binding applied Inv) where
  ack-owed :
      (o : Option String) (seq : ℕ)
      → Triple
          (λ w. Inv w × (seq ≤ applied w (key_of client binding o)))
          (ack client (key_of client binding o) seq)
          (λ _. Inv)
          Inv
  unfolding ack
  ack-owed o seq = Keeps-bind_owed Inv _ _ _ (transport.ack o seq) (λ _. Keeps-pure Inv tt)

  use_snapshot-Keeps : (s : Option GatewaySnapshot) → Keeps Inv (use_snapshot client binding s)
  unfolding use_snapshot
  use_snapshot-Keeps none = record { at = λ w h. h }
  use_snapshot-Keeps (some s) =
      let o = some s.binding_key in
      Keeps-bind Inv _ _ (Keeps-lift Inv _) λ value.
        Keeps-bind_fact Inv (λ _ w. s.seq ≤ applied w (key_of client binding o)) _ _
          (store.apply_snapshot o _)
          (λ _. Keeps-bind_owed Inv _ _ _ (ack-owed o s.seq) (λ _. Keeps-pure Inv s.seq))

  pub recover_from_snapshot-Keeps : Keeps Inv (recover_from_snapshot client binding)
  unfolding recover_from_snapshot
  recover_from_snapshot-Keeps =
      Keeps-bind Inv _ _ (transport.get_latest_snapshot _)
        (λ response. use_snapshot-Keeps response.snapshot)

  apply_if_any-Keeps :
      (o : Option String) (events : List (DecodedGatewayEvent TEvent))
      → Keeps Inv (apply_if_any client binding (key_of client binding o) events)
  unfolding apply_if_any
  apply_if_any-Keeps o [] = Keeps-pure Inv tt
  apply_if_any-Keeps o (e ∷ es) = store.apply_events o (e ∷ es)

  ack_reached-Keeps :
      (o : Option String) (count : ℕ)
      → Keeps Inv (ack_reached client binding (key_of client binding o) count)
  unfolding ack_reached
  ack_reached-Keeps o count =
      Keeps-bind_fact Inv _ _ _ (store.get_applied_seq o)
        λ acked. Keeps-bind_owed Inv _ _ _ (ack-owed o acked) (λ _. Keeps-pure Inv _)

  pub apply_batch-Keeps : (batch : GatewayBatch) → Keeps Inv (apply_batch client binding batch)
  unfolding apply_batch apply_decoded
  apply_batch-Keeps batch =
      let o = some batch.binding_key in
      Keeps-bind_fact Inv _ _ _ (store.get_applied_seq o) λ n. Keeps-forget Inv _ _ (
        Keeps-bind Inv _ _ (Keeps-lift Inv _) λ events.
          Keeps-bind Inv _ _ (apply_if_any-Keeps o events)
            (λ _. ack_reached-Keeps o (length events)))

  on_batch-Keeps :
      (summary : SyncCatchUpSummary) (batch : Option GatewayBatch)
      → Keeps Inv (on_batch client binding summary batch)
  unfolding on_batch
  on_batch-Keeps summary none = Keeps-pure Inv _
  on_batch-Keeps summary (some batch) =
      Keeps-if Inv _ _ _ (Keeps-pure Inv _)
        (Keeps-bind Inv _ _ (apply_batch-Keeps batch) (λ _. Keeps-pure Inv _))

  on_status-Keeps :
      (summary : SyncCatchUpSummary) (status : CatchUpStatus) (batch : Option GatewayBatch)
      → Keeps Inv (on_status client binding summary status batch)
  unfolding on_status
  on_status-Keeps summary CatchUpStatus.too_long batch =
      Keeps-bind Inv _ _ recover_from_snapshot-Keeps (λ _. Keeps-pure Inv _)
  on_status-Keeps summary CatchUpStatus.ok batch = on_batch-Keeps summary batch
  on_status-Keeps summary CatchUpStatus.none batch = Keeps-pure Inv _

  on_result-Keeps :
      (summary : SyncCatchUpSummary) (result : Option GatewayCatchUpResult)
      → Keeps Inv (on_result client binding summary result)
  unfolding on_result
  on_result-Keeps summary none = Keeps-pure Inv _
  on_result-Keeps summary (some result) = on_status-Keeps summary result.status result.batch

  pub catch_up_round-Keeps :
      (summary : SyncCatchUpSummary) → Keeps Inv (catch_up_round client binding summary)
  unfolding catch_up_round
  catch_up_round-Keeps summary =
      Keeps-bind Inv _ _ (transport.catch_up _)
        λ response. Keeps-bind Inv _ _ (Keeps-lift Inv _) (on_result-Keeps summary)

  go_on-Keeps :
      (rest : SyncCatchUpSummary → Io W SyncCatchUpSummary) (r : Round SyncCatchUpSummary)
      → ((s : SyncCatchUpSummary) → Keeps Inv (rest s))
      → Keeps Inv (elim r [ stop result ↦ pure result | again next ↦ rest next ])
  go_on-Keeps rest (stop s) k = Keeps-pure Inv s
  go_on-Keeps rest (again s) k = k s

  pub catch_up_loop-Keeps :
      (fuel : ℕ) (summary : SyncCatchUpSummary)
      → Keeps Inv (catch_up_loop client binding fuel summary)
  unfolding catch_up_loop
  catch_up_loop-Keeps zero summary = record { at = λ w h. h }
  catch_up_loop-Keeps (suc fuel) summary =
      Keeps-bind Inv _ _ (catch_up_round-Keeps summary)
        (λ r. go_on-Keeps _ r (catch_up_loop-Keeps fuel))

  pub catch_up-Keeps : (fuel : ℕ) → Keeps Inv (catch_up client binding fuel)
  unfolding catch_up
  catch_up-Keeps fuel = catch_up_loop-Keeps fuel no_progress
