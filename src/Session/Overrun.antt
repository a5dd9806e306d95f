-- ===== src/Session/Overrun.antt =====
-- What `catchUp` does where every answer is TOO_LONG.
use synclog.Prelude.{ℕ, zero, suc, ◌≡◌, refl, ap, ◌∙◌, some, [], ◌∷◌}
use synclog.Io.{Outcome, ok, running}
use synclog.Protocol.Service.{CatchUpStatus}
use synclog.Protocol.Gateway.{
  GatewayCatchUpResult, GatewayAckResponse, GatewaySnapshot, GatewayGetLatestSnapshotResponse,
}
use synclog.Transport.{SyncGatewayTransport}
use synclog.Memory.{apply_snapshot}
use synclog.Client.{SyncClient, SyncBinding, SyncCatchUpSummary, ack_request, select_result, key_of}
use synclog.Client.Sync.{
  again, catch_up_request, snapshot_request, recover_from_snapshot, on_result, on_status,
  catch_up_round, catch_up_loop, catch_up, with_snapshot, no_progress,
}
use synclog.Session.{World, client_over, stored}
use synclog.Session.Recovery.{snapshot_key, taken, offered, recovered, recover_run}

module _ {N TSnapshot TEvent : Type 0} (gateway : SyncGatewayTransport N)
    (client : SyncClient (World N TSnapshot TEvent))
    (binding : SyncBinding (World N TSnapshot TEvent) TSnapshot TEvent) (Stuck : N → Type 0) where
  abbrev sdk : SyncClient (World N TSnapshot TEvent)
  sdk = client_over gateway client

  abbrev bound : SyncBinding (World N TSnapshot TEvent) TSnapshot TEvent
  bound = stored binding

  -- In the states of `Stuck` the gateway answers a catch-up with TOO_LONG, has a snapshot that
  -- decodes and takes the ack of that snapshot, and none of these leads out of them. The one of
  -- pkg/gateway is so where `totalLimitPerTarget` allows fewer events than are behind the subscriber's
  -- cursor, with its latest snapshot at or before the cursor.
  pub record Overrunning : Type 0 where
    pub catch_up :
        (n : N)
        → Stuck n
        → (result : GatewayCatchUpResult) × (later : N) × (gateway.catch_up
              (catch_up_request sdk bound)
              n
            ≡ (ok (record { results = result ∷ [] }), later))
          × (select_result (result ∷ []) binding.binding_key ≡ ok (some result))
          × (result.status ≡ CatchUpStatus.too_long)
          × Stuck later
    pub get_latest_snapshot :
        (n : N)
        → Stuck n
        → (response : GatewayGetLatestSnapshotResponse) × (snapshot : GatewaySnapshot)
          × (value : TSnapshot) × (later : N) × (answer : GatewayAckResponse) × (after : N)
          × (gateway.get_latest_snapshot (snapshot_request sdk bound) n ≡ (ok response, later))
          × (response.snapshot ≡ some snapshot)
          × (binding.projection.decode_snapshot snapshot.payload snapshot.payload_version
              ≡ ok value)
          × (gateway.ack
                (ack_request
                  (key_of sdk bound (some snapshot.binding_key))
                  snapshot.seq
                  client.subscriber_id)
                later
              ≡ (ok answer, after))
          × Stuck after

  -- The end of a recovery, from what the gateway makes of the ack.
  abbrev the_rest :
      World N TSnapshot TEvent
      → GatewaySnapshot
      → TSnapshot
      → Outcome GatewayAckResponse × N
      → Outcome ℕ × World N TSnapshot TEvent
  the_rest w snapshot value x =
      let key = snapshot_key gateway client binding w snapshot in
      (
        recovered snapshot.seq x.0,
        record w {
          store = apply_snapshot key (taken gateway client binding w snapshot value) w.store;
          net = x.1;
          acks = ack_request key snapshot.seq client.subscriber_id ∷ w.acks;
        },
      )

  module _ (overrun : Overrunning) where
    recovers :
        (w : World N TSnapshot TEvent)
        → Stuck w.net
        → (seq : ℕ) × (v : World N TSnapshot TEvent) × (recover_from_snapshot sdk bound w
            ≡ (ok seq, v))
          × Stuck v.net
    recovers w h =
        let (response, snapshot, value, later, answer, after, replies, offers, decoded, acked, l) =
          overrun.get_latest_snapshot w.net h in
        let key = snapshot_key gateway client binding w snapshot in
        let request = ack_request key snapshot.seq client.subscriber_id in
        let is_offered : offered binding.projection response.snapshot ≡ ok (snapshot, value) =
          rw offers (rw decoded refl) in
        let F = λ (x : Outcome GatewayAckResponse × N). the_rest w snapshot value x in
        (
          snapshot.seq,
          (F (ok answer, after)).1,
          recover_run gateway client binding w snapshot value (ok response) (ap (λ x. x.0) replies)
                is_offered
              ∙ ap F (ap (λ n. gateway.ack request n) (ap (λ x. x.1) replies) ∙ acked),
          l,
        )

    round_again :
        (summary : SyncCatchUpSummary) (w : World N TSnapshot TEvent)
        → Stuck w.net
        → (next : SyncCatchUpSummary) × (v : World N TSnapshot TEvent) × (catch_up_round sdk bound
              summary w
            ≡ (ok (again next), v))
          × Stuck v.net
    unfolding catch_up_round on_result on_status
    round_again summary w h =
        let (result, later, answer, chosen, long, k) = overrun.catch_up w.net h in
        let (seq, v, run, l) = recovers (record w { net = later }) k in
        (with_snapshot sdk bound summary seq, v, rw (answer, chosen, long, on_status, run) refl, l)

    loop_runs :
        (fuel : ℕ) (summary : SyncCatchUpSummary) (w : World N TSnapshot TEvent)
        → Stuck w.net
        → (catch_up_loop sdk bound fuel summary w).0 ≡ running
    unfolding catch_up_loop
    loop_runs zero summary w h = refl
    loop_runs (suc fuel) summary w h =
        let (next, v, run, k) = round_again summary w h in rw run (loop_runs fuel next v k)

    -- Where the gateway, in states that it does not leave, answers each catch-up with TOO_LONG and has
    -- a snapshot that decodes and whose ack it takes, a `catchUp` from such a state never ends, however
    -- many rounds it is given: it takes the snapshot again and again.
    pub catch_up-never-ends :
        (fuel : ℕ) (w : World N TSnapshot TEvent)
        → Stuck w.net
        → (catch_up sdk bound fuel w).0 ≡ running
    unfolding catch_up
    catch_up-never-ends fuel w h = loop_runs fuel no_progress w h
