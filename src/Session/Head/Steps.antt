-- ===== src/Session/Head/Steps.antt =====
-- A batch and a snapshot of the served log each move the cursor and keep the record whole.
use text.Mathlib.TextPositions.{eq_refl}
use synclog.Prelude.{
  ℕ, ◌+◌, ◌≤◌, ◌<◌, ◌≡◌, refl, sym, ap, subst, ◌∙◌, some, List, ◌∷◌, arith, length,
}
use synclog.Io.{Outcome, ok}
use synclog.Protocol.Gateway.{
  GatewayEvent, GatewayBatch, GatewaySnapshot, GatewayAckResponse, GatewayGetLatestSnapshotResponse,
}
use synclog.Target.{TargetBindingKey, target_binding_key}
use synclog.Store.{DecodedGatewayEvent, DecodedGatewaySnapshot}
use synclog.Memory.{
  MemorySyncRecord, MemorySyncStore, get_record, get_applied_seq, apply_events, apply_snapshot,
  push_events, snapshot_record,
}
use synclog.Memory.Views.{
  get_record-get_applied_seq, get_applied_seq_lem, get_record-apply_events,
  get_record-apply_snapshot,
}
use synclog.Memory.Records.{snapshot_seq, push_events-reaches, snapshot_record-reaches}
use synclog.Memory.Coverage.{Covers, push_events-Covers, snapshot_record-Covers}
use synclog.Transport.{SyncGatewayTransport}
use synclog.Client.{SyncClient, SyncBinding, ack_request}
use synclog.Client.Sync.{
  AppliedBatch, apply_batch, decoded_snapshot, snapshot_request, recover_from_snapshot,
}
use synclog.Session.{World, client_over, stored}
use synclog.Session.Batch.{batch_key, finish, read_store, apply_batch_run}
use synclog.Session.Recovery.{snapshot_key, taken, offered, recovered, recover_run}
use synclog.Session.Head.{Consecutive}
use synclog.Session.Head.Fresh.{fresh-Run}

module _ {N TSnapshot TEvent : Type 0} (cursor head : N → ℕ) where
  -- The record of a key is whole, and the gateway's cursor is not ahead of it.
  pub record Ready (key : TargetBindingKey) (w : World N TSnapshot TEvent) : Type 0 where
    pub behind : cursor w.net ≤ (get_record key w.store).applied_seq
    pub within : (get_record key w.store).applied_seq ≤ head w.net
    pub snapshot : snapshot_seq (get_record key w.store) ≤ cursor w.net
    pub covers : Covers (get_record key w.store)

  -- The world after a step from `w` that moved the cursor to `low` at least.
  pub record Moved (key : TargetBindingKey) (w v : World N TSnapshot TEvent) (low : ℕ)
      : Type 0 where
    pub ready : Ready key v
    pub advanced : low ≤ cursor v.net
    pub same_head : head v.net ≡ head w.net

  ready_with :
      (key : TargetBindingKey) (w v : World N TSnapshot TEvent) (low : ℕ)
      (r : MemorySyncRecord TSnapshot TEvent)
      → get_record key v.store ≡ r
      → low ≤ cursor v.net
      → cursor v.net ≤ r.applied_seq
      → r.applied_seq ≤ head v.net
      → snapshot_seq r ≤ cursor v.net
      → Covers r
      → head v.net ≡ head w.net
      → Moved key w v low
  ready_with key w v low r e l b h s c q = record {
    ready = record {
      behind = omega (arith, ap (λ x. x.applied_seq) e);
      within = omega (arith, ap (λ x. x.applied_seq) e);
      snapshot = omega (arith, ap snapshot_seq e);
      covers = subst Covers (sym e) c;
    };
    advanced = l;
    same_head = q;
  }

  module _ (gateway : SyncGatewayTransport N) (client : SyncClient (World N TSnapshot TEvent))
      (binding : SyncBinding (World N TSnapshot TEvent) TSnapshot TEvent)
      (decodes : (event : GatewayEvent)
        → (value : TEvent) × (binding.projection.decode_event event ≡ ok value)) where
    -- An ack between the cursor and the head moves the cursor there.
    abbrev pub Acks : TargetBindingKey → Type 0
    Acks key =
        (n : N) (seq : ℕ)
        → cursor n ≤ seq
        → seq ≤ head n
        → (response : GatewayAckResponse) × (later : N) × (gateway.ack
              (ack_request key seq client.subscriber_id) n
            ≡ (ok response, later))
          × (cursor later ≡ seq)
          × (head later ≡ head n)

    -- The outcome of a batch.
    abbrev pub Applied : TargetBindingKey → GatewayBatch → World N TSnapshot TEvent → ℕ → Type 0
    Applied key batch w start =
        (applied : AppliedBatch) × (v : World N TSnapshot TEvent) × (apply_batch
            (client_over gateway client) (stored binding) batch w
          ≡ (ok applied, v))
        × Moved key w v (start + length batch.events)

    module _ (batch : GatewayBatch) (w : World N TSnapshot TEvent) where
      abbrev key : TargetBindingKey
      key = batch_key gateway client binding batch w

      abbrev r : MemorySyncRecord TSnapshot TEvent
      r = get_record key w.store

      abbrev store_with : List (DecodedGatewayEvent TEvent) → MemorySyncStore TSnapshot TEvent
      store_with ds = apply_events key ds (read_store gateway client binding batch w)

      record_with :
          (ds : List (DecodedGatewayEvent TEvent))
          → get_record key (store_with ds) ≡ push_events r ds
      record_with ds = ground (
        arith,
        get_record-apply_events key key (read_store gateway client binding batch w) ds,
        get_record-get_applied_seq key key w.store,
        eq_refl (target_binding_key key),
      )

      pub batch_moves :
          (start : ℕ)
          → Acks key
          → Ready key w
          → start ≤ cursor w.net
          → Consecutive start batch.events
          → start + length batch.events ≤ head w.net
          → Applied key batch w start
      batch_moves start acks ready from next fits =
          let (ds, decoded, run, total) =
            fresh-Run binding.projection decodes r.applied_seq start batch.events
              (omega (arith, ready.behind)) next in
          let (reached, same) = push_events-reaches r ds run in
          let seq : (get_applied_seq key (store_with ds)).0 ≡ r.applied_seq + length ds =
            get_applied_seq_lem key key (store_with ds)
            ∙ ap (λ x. x.applied_seq) (record_with ds)
            ∙ reached in
          let (response, later, answer, at, top) =
            acks w.net (get_applied_seq key (store_with ds)).0 (omega (arith, ready.behind))
              (omega (arith, ready.within)) in
          (
            record { count = length ds; seq = (get_applied_seq key (store_with ds)).0 },
            (finish gateway client binding batch w (length ds) (store_with ds)
                (ok response, later)).1,
            apply_batch_run gateway client binding batch w ds decoded
                ∙ ap (finish gateway client binding batch w (length ds) (store_with ds)) answer,
            ready_with key w _ (start + length batch.events) (push_events r ds)
                (get_record-get_applied_seq key key (store_with ds) ∙ record_with ds) (omega arith)
                (omega arith) (omega (arith, ready.within))
                (omega
                  (arith, ready.snapshot, ap (λ x. snapshot_seq (record r { snapshot = x })) same))
                (push_events-Covers r r.applied_seq ds run (omega arith) ready.covers) top,
          )

    module _ (w : World N TSnapshot TEvent) (response : GatewayGetLatestSnapshotResponse)
        (snapshot : GatewaySnapshot) (value : TSnapshot) (given : N)
        (replies : gateway.get_latest_snapshot
            (snapshot_request (client_over gateway client) (stored binding))
            w.net
          ≡ (ok response, given))
        (offers : response.snapshot ≡ some snapshot)
        (decoded : binding.projection.decode_snapshot snapshot.payload snapshot.payload_version
          ≡ ok value) where
      abbrev s_key : TargetBindingKey
      s_key = snapshot_key gateway client binding w snapshot

      abbrev s_old : MemorySyncRecord TSnapshot TEvent
      s_old = get_record s_key w.store

      abbrev s_taken : DecodedGatewaySnapshot TSnapshot
      s_taken = taken gateway client binding w snapshot value

      is_offered : offered binding.projection response.snapshot ≡ ok (snapshot, value)
      is_offered = rw offers (rw decoded refl)

      record_after :
          get_record s_key (apply_snapshot s_key s_taken w.store)
          ≡ snapshot_record (some s_old) s_taken
      record_after = ground (
        arith,
        get_record-apply_snapshot s_key s_key w.store s_taken,
        eq_refl (target_binding_key s_key),
      )

      taken_seq : s_taken.seq ≡ snapshot.seq
      unfolding decoded_snapshot
      taken_seq = refl

      -- The end of a recovery, from what the gateway makes of the ack.
      abbrev acknowledged : Outcome GatewayAckResponse × N → Outcome ℕ × World N TSnapshot TEvent
      acknowledged x = (
        recovered snapshot.seq x.0,
        record w {
          store = apply_snapshot s_key s_taken w.store;
          net = x.1;
          acks = ack_request s_key snapshot.seq client.subscriber_id ∷ w.acks;
        },
      )

      -- The outcome of a recovery.
      abbrev pub Recovered : TargetBindingKey → Type 0
      Recovered k =
          (seq : ℕ) × (v : World N TSnapshot TEvent) × (recover_from_snapshot
              (client_over gateway client) (stored binding) w
            ≡ (ok seq, v))
          × Moved k w v snapshot.seq

      pub snapshot_moves :
          Acks s_key
          → Ready s_key w
          → cursor w.net < snapshot.seq
          → snapshot.seq ≤ head w.net
          → cursor given ≡ cursor w.net
          → head given ≡ head w.net
          → Recovered s_key
      snapshot_moves acks ready above fits c h =
          let (reached, shown) = snapshot_record-reaches s_old s_taken in
          let (answer, later, acked, at, top) =
            acks given snapshot.seq (omega arith) (omega arith) in
          let run =
            recover_run gateway client binding w snapshot value (ok response)
              (ap (λ x. x.0) replies) is_offered in
          (
            snapshot.seq,
            record w {
              store = apply_snapshot s_key s_taken w.store;
              net = later;
              acks = ack_request s_key snapshot.seq client.subscriber_id ∷ w.acks;
            },
            run
                ∙ ap (λ x. acknowledged x)
                    (ap (λ n. gateway.ack (ack_request s_key snapshot.seq client.subscriber_id) n)
                        (ap (λ x. x.1) replies)
                      ∙ acked),
            ready_with s_key w _ snapshot.seq (snapshot_record (some s_old) s_taken) record_after
                (omega arith) (omega (arith, reached, taken_seq))
                (omega (arith, reached, taken_seq, ready.within)) (omega (arith, shown, taken_seq))
                (snapshot_record-Covers s_old s_taken (omega (arith, taken_seq, ready.snapshot))
                  ready.covers)
                (omega arith),
          )
