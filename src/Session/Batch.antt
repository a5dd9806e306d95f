-- ===== src/Session/Batch.antt =====
-- What `#applyBatch` does with the memory store: the record of the batch's key becomes that record
-- with the decoded events pushed, one ack tells the gateway how far the record got, and an event
-- that does not decode leaves all as it was.
use text.Mathlib.TextPositions.{eq_refl}
use synclog.Prelude.{
  ℕ, ◌≡◌, refl, sym, ap, ◌∙◌, List, [], ◌∷◌, some, arith, inl, inr, filter, length, ltb,
  if◌then◌else◌,
}
use synclog.Io.{Error, Outcome, ok, err, running, Outcome-cases}
use synclog.Protocol.Gateway.{GatewayBatch, GatewayAckRequest, GatewayAckResponse}
use synclog.Target.{TargetBindingKey, target_binding_key}
use synclog.Store.{DecodedGatewayEvent}
use synclog.Memory.{
  MemorySyncRecord, MemorySyncStore, get_record, get_applied_seq, apply_events, push_events,
}
use synclog.Memory.Views.{
  same_key, get_record-get_applied_seq, get_applied_seq_lem, get_record-apply_events,
  apply_events-nil,
}
use synclog.Transport.{SyncGatewayTransport}
use synclog.Client.{SyncClient, SyncBinding, ack, ack_request, key_of}
use synclog.Client.Sync.{AppliedBatch, decode_events, ack_reached, apply_decoded, apply_batch}
use synclog.Session.{World, client_over, stored}

-- What a batch comes to once the gateway has answered its ack.
abbrev pub answered : ℕ → ℕ → Outcome GatewayAckResponse → Outcome AppliedBatch
answered count seq (ok response) = ok (record { count = count; seq = seq })
answered count seq (err e) = err e
answered count seq running = running

module _ {N TSnapshot TEvent : Type 0} (gateway : SyncGatewayTransport N)
    (client : SyncClient (World N TSnapshot TEvent))
    (binding : SyncBinding (World N TSnapshot TEvent) TSnapshot TEvent) (batch : GatewayBatch)
    (w : World N TSnapshot TEvent) where
  abbrev pub batch_key : TargetBindingKey
  batch_key = key_of (client_over gateway client) (stored binding) (some batch.binding_key)

  abbrev pub old_record : MemorySyncRecord TSnapshot TEvent
  old_record = get_record batch_key w.store

  -- The events that the client hands to the store, decoded.
  abbrev pub fresh : Outcome (List (DecodedGatewayEvent TEvent))
  fresh =
      decode_events binding.projection
        (filter (λ event. ltb old_record.applied_seq event.seq) batch.events)

  abbrev pub finish :
      ℕ
      → MemorySyncStore TSnapshot TEvent
      → Outcome GatewayAckResponse × N
      → Outcome AppliedBatch × World N TSnapshot TEvent
  finish count s x = (
    answered count (get_applied_seq batch_key s).0 x.0,
    record w {
      store = (get_applied_seq batch_key s).1;
      net = x.1;
      acks = ack_request batch_key (get_applied_seq batch_key s).0 client.subscriber_id ∷ w.acks;
    },
  )

  -- The ack that is sent from a store.
  abbrev pub sent : MemorySyncStore TSnapshot TEvent → GatewayAckRequest
  sent s = ack_request batch_key (get_applied_seq batch_key s).0 client.subscriber_id

  ack_reached_run :
      (count : ℕ) (s : MemorySyncStore TSnapshot TEvent)
      → ack_reached
          (client_over gateway client)
          (stored binding)
          batch_key
          count
          (record w { store = s })
        ≡ finish count s (gateway.ack (sent s) w.net)
  unfolding ack_reached ack
  ack_reached_run count s = elim (Outcome-cases (gateway.ack (sent s) w.net).0) [
    | inl (a, e) ↦ rw e
    | inr (inl (x, e)) ↦ rw e
    | inr (inr e) ↦ rw e
  ]

  apply_decoded_run :
      (events : List (DecodedGatewayEvent TEvent)) (s : MemorySyncStore TSnapshot TEvent)
      → apply_decoded
          (client_over gateway client)
          (stored binding)
          batch_key
          events
          (record w { store = s })
        ≡ finish
            (length events)
            (apply_events batch_key events s)
            (gateway.ack (sent (apply_events batch_key events s)) w.net)
  unfolding apply_decoded
  apply_decoded_run [] s =
      ack_reached_run 0 s
      ∙ ap (λ t. finish 0 t (gateway.ack (sent t) w.net)) (sym (apply_events-nil batch_key s))
  apply_decoded_run (x ∷ xs) s =
      ack_reached_run (length (x ∷ xs)) (apply_events batch_key (x ∷ xs) s)

  decoded :
      {r : Outcome (List (DecodedGatewayEvent TEvent))}
      → fresh ≡ r
      → decode_events binding.projection
          (filter (λ event. ltb (get_applied_seq batch_key w.store).0 event.seq) batch.events)
        ≡ r
  decoded e =
      ap (λ n. decode_events binding.projection (filter (λ event. ltb n event.seq) batch.events))
        (get_applied_seq_lem batch_key batch_key w.store)
      ∙ e

  abbrev pub read_store : MemorySyncStore TSnapshot TEvent
  read_store = (get_applied_seq batch_key w.store).1

  pub apply_batch_run :
      (events : List (DecodedGatewayEvent TEvent))
      → fresh ≡ ok events
      → apply_batch (client_over gateway client) (stored binding) batch w
        ≡ finish
            (length events)
            (apply_events batch_key events read_store)
            (gateway.ack (sent (apply_events batch_key events read_store)) w.net)
  unfolding apply_batch
  apply_batch_run events e = rw (decoded e) (apply_decoded_run events read_store)

  apply_batch_stop :
      (x : Error)
      → fresh ≡ err x
      → apply_batch (client_over gateway client) (stored binding) batch w
        ≡ (err x, record w { store = read_store })
  unfolding apply_batch
  apply_batch_stop x e = rw (decoded e)

  module _ (events : List (DecodedGatewayEvent TEvent)) (j : TargetBindingKey) where
    store_after : MemorySyncStore TSnapshot TEvent
    store_after = apply_events batch_key events read_store

    records_after :
        get_record j store_after
        ≡ (if same_key batch_key j then push_events old_record events else get_record j w.store)
    unfolding store_after
    records_after = ground (
      arith,
      get_record-apply_events batch_key j read_store events,
      get_record-get_applied_seq batch_key batch_key w.store,
      get_record-get_applied_seq batch_key j w.store,
    )

    reached_seq :
        (get_applied_seq batch_key store_after).0 ≡ (push_events old_record events).applied_seq
    unfolding store_after
    reached_seq = ground (
      arith,
      get_applied_seq_lem batch_key batch_key store_after,
      get_record-apply_events batch_key batch_key read_store events,
      get_record-get_applied_seq batch_key batch_key w.store,
      eq_refl (target_binding_key batch_key),
    )

    -- Where the events above the record's applied seq decode, a batch pushes them onto the record
    -- of its key and leaves every other record alone; it sends one ack, of the seq that the record
    -- has then; and it returns the number of those events and that seq if the gateway takes the
    -- ack, and the gateway's error if not.
    pub apply_batch_lem :
        fresh ≡ ok events
        → (get_record j (apply_batch (client_over gateway client) (stored binding) batch w).1.store
            ≡ (if same_key batch_key j
                then push_events old_record events
                else get_record j w.store))
          × ((apply_batch (client_over gateway client) (stored binding) batch w).1.acks
              ≡ ack_request batch_key
                  (push_events old_record events).applied_seq
                  client.subscriber_id
                ∷ w.acks)
          × ((apply_batch (client_over gateway client) (stored binding) batch w).0
              ≡ answered
                  (length events)
                  (push_events old_record events).applied_seq
                  (gateway.ack
                    (ack_request batch_key
                      (push_events old_record events).applied_seq
                      client.subscriber_id)
                    w.net).0)
    unfolding store_after
    apply_batch_lem e = rw (apply_batch_run events e) (
      get_record-get_applied_seq batch_key j store_after ∙ records_after,
      ap (λ n. ack_request batch_key n client.subscriber_id ∷ w.acks) reached_seq,
      ap
          (λ n.
            answered (length events) n
              (gateway.ack (ack_request batch_key n client.subscriber_id) w.net).0)
          reached_seq,
    )

  -- Where one of those events does not decode, the batch throws the decoder's error, no record
  -- changes and no ack is sent.
  pub apply_batch_undecodable :
      (x : Error) (j : TargetBindingKey)
      → fresh ≡ err x
      → ((apply_batch (client_over gateway client) (stored binding) batch w).0 ≡ err x)
        × (get_record j (apply_batch (client_over gateway client) (stored binding) batch w).1.store
            ≡ get_record j w.store)
        × ((apply_batch (client_over gateway client) (stored binding) batch w).1.acks ≡ w.acks)
  apply_batch_undecodable x j e =
      rw (apply_batch_stop x e) (refl, get_record-get_applied_seq batch_key j w.store, refl)
