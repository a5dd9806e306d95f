-- ===== src/Session/Misfiling.antt =====
-- A binding of client.ts whose key is the empty string: `selectResult` takes it for a binding without
-- a key, `#key` for one that has a key.
use text.Mathlib.TextLemmas.{append_cancel_left}
use synclog.Prelude.{
  String, ◌≡◌, ◌≢◌, refl, sym, subst, ◌∙◌, List, [], ◌∷◌, some, eq_iff, false, Bool-cases, inl, inr,
  if◌then◌else◌, ap, is_empty,
}
use synclog.Io.{Outcome, ok, err, running, pure, lift, continue, ◌>>=◌}
use synclog.Protocol.Service.{CatchUpStatus}
use synclog.Protocol.Gateway.{SyncTarget, GatewayBatch, GatewayCatchUpResult}
use synclog.Target.{
  TargetBindingKey, target_key, target_binding_key, normalize_binding_key, default_binding_key,
}
use synclog.Store.{DecodedGatewayEvent}
use synclog.Memory.{get_record, push_events}
use synclog.Memory.Views.{same_key}
use synclog.Transport.{SyncGatewayTransport}
use synclog.Client.{SyncClient, SyncBinding, SyncCatchUpSummary, ack_request, key_of, select_result}
use synclog.Client.Choice.{select_result-Unnamed}
use synclog.Client.Sync.{apply_batch, on_result, on_status, on_batch}
use synclog.Session.{World, client_over, stored}
use synclog.Session.Batch.{batch_key, fresh, apply_batch_lem}

abbrev pub binding_key_for : String → SyncTarget → String → TargetBindingKey
binding_key_for subscriber_id target binding_key = record {
  subscriber_id = subscriber_id;
  target = target;
  binding_key = binding_key;
}

-- Two bindings of a target are filed apart.
other_binding :
    (subscriber_id : String) (target : SyncTarget) (a b : String)
    → a ≢ b
    → same_key (binding_key_for subscriber_id target a) (binding_key_for subscriber_id target b)
      ≡ false
unfolding target_binding_key
other_binding subscriber_id target a b differ =
    let one = binding_key_for subscriber_id target a in
    let two = binding_key_for subscriber_id target b in
    elim (Bool-cases (same_key one two)) [
      | inl same ↦
          let whole = (eq_iff (target_binding_key one) (target_binding_key two)).0 same in
          absurd (
            differ (
              append_cancel_left "#" a b (
                append_cancel_left (target_key target) _ _
                  (append_cancel_left ":" _ _ (append_cancel_left subscriber_id _ _ whole)))))
      | inr apart ↦ apart
    ]

-- A computation that goes on to a value leaves the world as it is.
returned-world :
    {W A B : Type 0} (x : Outcome A × W) (f : A → B) → (continue x.0 (λ a. pure (f a)) x.1).1 ≡ x.1
returned-world (ok a, w) f = refl
returned-world (err e, w) f = refl
returned-world (running, w) f = refl

module _ {N TSnapshot TEvent : Type 0} (gateway : SyncGatewayTransport N)
    (client : SyncClient (World N TSnapshot TEvent))
    (binding : SyncBinding (World N TSnapshot TEvent) TSnapshot TEvent) (batch : GatewayBatch)
    (w : World N TSnapshot TEvent) (events : List (DecodedGatewayEvent TEvent)) where
  abbrev pub default_key : TargetBindingKey
  default_key = binding_key_for client.subscriber_id binding.target default_binding_key

  abbrev pub own_key : TargetBindingKey
  own_key = binding_key_for client.subscriber_id binding.target batch.binding_key

  -- The world behind what `catchUp` does with the results of a response in one round.
  abbrev pub on_results : List GatewayCatchUpResult → SyncCatchUpSummary → World N TSnapshot TEvent
  on_results results summary =
      ((lift (select_result results binding.binding_key)
          >>= on_result (client_over gateway client) (stored binding) summary)
        w).1

  on_result_batch :
      (summary : SyncCatchUpSummary) (result : GatewayCatchUpResult)
      → result.status ≡ CatchUpStatus.ok
      → result.batch ≡ some batch
      → is_empty batch.events ≡ false
      → (on_result (client_over gateway client) (stored binding) summary (some result) w).1
        ≡ (apply_batch (client_over gateway client) (stored binding) batch w).1
  unfolding on_result on_status on_batch
  on_result_batch summary result status it events =
      rw (status, it, events) (returned-world (apply_batch _ _ batch w) _)

  filed_key : binding.binding_key ≡ some "" → batch_key gateway client binding batch w ≡ default_key
  unfolding key_of normalize_binding_key
  filed_key empty = rw empty refl

  -- `apply_batch_lem` for this binding.
  applied_default :
      binding.binding_key ≡ some ""
      → batch.binding_key ≢ default_binding_key
      → fresh gateway client binding batch w ≡ ok events
      → (get_record default_key
            (apply_batch (client_over gateway client) (stored binding) batch w).1.store
          ≡ push_events (get_record default_key w.store) events)
        × (get_record own_key
              (apply_batch (client_over gateway client) (stored binding) batch w).1.store
            ≡ get_record own_key w.store)
        × ((apply_batch (client_over gateway client) (stored binding) batch w).1.acks
            ≡ ack_request default_key
                (push_events (get_record default_key w.store) events).applied_seq
                client.subscriber_id
              ∷ w.acks)
  applied_default empty other decodes =
      let filed = filed_key empty in
      let after = (apply_batch (client_over gateway client) (stored binding) batch w).1 in
      let at =
        λ (j : TargetBindingKey). apply_batch_lem gateway client binding batch w events j decodes in
      let moved : (j : TargetBindingKey)
          → get_record j after.store ≡ (
              if same_key default_key j
              then push_events (get_record default_key w.store) events
              else get_record j w.store) =
        λ j.
          subst
            (λ k. get_record j after.store ≡ (
              if same_key k j
              then push_events (get_record k w.store) events
              else get_record j w.store))
            filed ((at j).0) in
      (
        moved default_key
            ∙ rw ((eq_iff (target_binding_key default_key) (target_binding_key default_key)).1 refl)
                refl,
        moved own_key
            ∙ rw
                (other_binding client.subscriber_id binding.target default_binding_key
                  batch.binding_key (λ e. other (sym e)))
                refl,
        subst
            (λ k.
              after.acks
              ≡ ack_request k (push_events (get_record k w.store) events).applied_seq
                  client.subscriber_id
                ∷ w.acks)
            filed ((at default_key).1),
      )

  -- A binding whose key is the empty string takes the one result of a response, whichever binding's
  -- it is, as a binding without a key does. Where that is OK with a batch that has events, and they
  -- decode, `catchUp` pushes them onto the record under the default key and acks them there; where
  -- the batch is of a binding with another key, the record under the batch's own key stays as it
  -- was.
  pub empty_key-misfiles :
      (result : GatewayCatchUpResult) (summary : SyncCatchUpSummary)
      → binding.binding_key ≡ some ""
      → result.status ≡ CatchUpStatus.ok
      → result.batch ≡ some batch
      → is_empty batch.events ≡ false
      → batch.binding_key ≢ default_binding_key
      → fresh gateway client binding batch w ≡ ok events
      → (select_result (result ∷ []) binding.binding_key ≡ ok (some result))
        × (get_record default_key (on_results (result ∷ []) summary).store
            ≡ push_events (get_record default_key w.store) events)
        × (get_record own_key (on_results (result ∷ []) summary).store ≡ get_record own_key w.store)
        × ((on_results (result ∷ []) summary).acks
            ≡ ack_request default_key
                (push_events (get_record default_key w.store) events).applied_seq
                client.subscriber_id
              ∷ w.acks)
  empty_key-misfiles result summary empty status it some_events other decodes =
      let chosen =
        (select_result-Unnamed (result ∷ []) binding.binding_key result (rw empty refl)).2.1 refl in
      let world : on_results (result ∷ []) summary
          ≡ (apply_batch (client_over gateway client) (stored binding) batch w).1 =
        ap (λ o. ((lift o >>= on_result (client_over gateway client) (stored binding) summary) w).1)
          chosen
        ∙ on_result_batch summary result status it some_events in
      let (default, own, acked) = applied_default empty other decodes in
      (
        chosen,
        ap (λ v. get_record default_key v.store) world ∙ default,
        ap (λ v. get_record own_key v.store) world ∙ own,
        ap (λ v. v.acks) world ∙ acked,
      )
