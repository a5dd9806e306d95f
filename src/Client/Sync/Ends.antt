-- ===== src/Client/Sync/Ends.antt =====
-- `catchUp` ends where each of the gateway's answers settles it or brings a measure of the world
-- down, which nothing else in a round brings up.
use synclog.Prelude.{
  ◌≡◌, refl, ◌⊎◌, inl, inr, true, is_empty, if◌then◌else◌, ℕ, zero, suc, ◌<◌, ◌≢◌, List, [], ◌∷◌,
  Option, none, some, arith, String,
}
use synclog.Io.{Outcome, ok, err, running, Io, pure, lift, ◌>>=◌}
use synclog.Io.Endings.{
  Ends, Ends-bind, Ends-pure, Ends-lift, Ends-if, Ends-weaken, ended-ne-running,
}
use synclog.Protocol.Service.{CatchUpStatus}
use synclog.Protocol.Gateway.{
  GatewayBatch, GatewayEvent, GatewaySnapshot, GatewayCatchUpRequest, GatewayCatchUpResult,
  GatewayCatchUpResponse, GatewayAckRequest, GatewayGetLatestSnapshotRequest,
}
use synclog.Target.{TargetBindingKey}
use synclog.Store.{DecodedGatewayEvent, DecodedGatewaySnapshot}
use synclog.Client.{
  SyncClient, SyncBinding, SyncProjection, SyncCatchUpSummary, ack, select_result, only_result,
}
use synclog.Client.Sync.{
  Round, again, stop, decode_events, use_snapshot, recover_from_snapshot, apply_if_any, ack_reached,
  apply_decoded, apply_batch, on_batch, on_status, on_result, catch_up_round, catch_up_loop,
  catch_up, no_progress, AppliedBatch, with_batch,
}

-- The answers behind which `catchUp` has nothing left to do: no result for the binding; a status that
-- is neither OK nor TOO_LONG; an OK without a batch, or with one that is empty or final.
abbrev pub LastBatch : Option GatewayBatch → Type 0
LastBatch none = Unit
LastBatch (some batch) = (is_empty batch.events ≡ true) ⊎ (batch.final ≡ true)

abbrev pub SettlesAt : CatchUpStatus → Option GatewayBatch → Type 0
SettlesAt CatchUpStatus.none batch = Unit
SettlesAt CatchUpStatus.ok batch = LastBatch batch
SettlesAt CatchUpStatus.too_long batch = ⊥

abbrev pub Settles : Option GatewayCatchUpResult → Type 0
Settles none = Unit
Settles (some result) = SettlesAt result.status result.batch

-- The computation ends, and does not bring the measure up.
abbrev pub Holds : {W A : Type 0} → (W → ℕ) → Io W A → Type 0
Holds {W} measure m =
    (k : ℕ) → Ends (λ w. measure w < k) m (λ _ w. measure w < k) (λ _. Unit {0}) (λ _. ⊥)

module _ {W TSnapshot TEvent : Type 0} (client : SyncClient W)
    (binding : SyncBinding W TSnapshot TEvent) (measure : W → ℕ) where
  abbrev pub Settled : GatewayCatchUpResponse → Type 0
  Settled response =
      (result : Option GatewayCatchUpResult)
      → select_result response.results binding.binding_key ≡ ok result
      → Settles result

  -- The store's and the transport's calls end, and so do the decoders; an answer to a catch-up
  -- brings the measure down, or it settles the catch-up and does not bring the measure up.
  pub record IsMeasured : Type 0 where
    pub catch_up :
        (r : GatewayCatchUpRequest) (k : ℕ)
        → Ends
            (λ w. measure w < suc k)
            (client.transport.catch_up r)
            (λ response w. (measure w < k) ⊎ ((measure w < suc k) × Settled response))
            (λ _. Unit {0})
            (λ _. ⊥)
    pub ack : (r : GatewayAckRequest) → Holds measure (client.transport.ack r)
    pub get_latest_snapshot :
        (r : GatewayGetLatestSnapshotRequest)
        → Holds measure (client.transport.get_latest_snapshot r)
    pub get_applied_seq :
        (key : TargetBindingKey) → Holds measure (binding.store.get_applied_seq key)
    pub apply_snapshot :
        (key : TargetBindingKey) (s : DecodedGatewaySnapshot TSnapshot)
        → Holds measure (binding.store.apply_snapshot key s)
    pub apply_events :
        (key : TargetBindingKey) (es : List (DecodedGatewayEvent TEvent))
        → Holds measure (binding.store.apply_events key es)
    pub decode_snapshot :
        (payload : List ℕ) (version : ℕ)
        → binding.projection.decode_snapshot payload version ≢ running
    pub decode_event : (event : GatewayEvent) → binding.projection.decode_event event ≢ running

decode_events-ends :
    {TSnapshot TEvent : Type 0} (projection : SyncProjection TSnapshot TEvent)
    → ((event : GatewayEvent) → projection.decode_event event ≢ running)
    → (events : List GatewayEvent) → decode_events projection events ≢ running
unfolding decode_events
decode_events-ends projection h [] = cc
decode_events-ends projection h (e ∷ es) = ground (arith, h e, decode_events-ends projection h es)

select_result-ends :
    (results : List GatewayCatchUpResult) (o : Option String) → select_result results o ≢ running
unfolding select_result only_result
select_result-ends results none = ground arith
select_result-ends results (some k) = ground arith

module _ {W TSnapshot TEvent : Type 0} {client : SyncClient W}
    {binding : SyncBinding W TSnapshot TEvent} {measure : W → ℕ}
    (m : IsMeasured client binding measure) where
  abbrev Still : {A : Type 0} → Io W A → Type 0
  Still x = Holds measure x

  Still-bind :
      {A B : Type 0} (x : Io W A) (f : A → Io W B)
      → Still x
      → ((a : A) → Still (f a))
      → Still (x >>= f)
  Still-bind x f h k n = Ends-bind _ _ _ _ _ x f (h n) (λ a. k a n)

  Still-pure : {A : Type 0} (a : A) → Still (pure a)
  Still-pure a n = Ends-pure _ _ _ a

  Still-lift : {A : Type 0} (r : Outcome A) → r ≢ running → Still (lift r)
  Still-lift r h n = Ends-lift _ _ _ r h (λ w _. tt)

  ack-ends : (key : TargetBindingKey) (seq : ℕ) → Still (ack client key seq)
  unfolding ack
  ack-ends key seq = Still-bind _ _ (m.ack _) (λ _. Still-pure tt)

  use_snapshot-ends : (s : Option GatewaySnapshot) → Still (use_snapshot client binding s)
  unfolding use_snapshot
  use_snapshot-ends none = λ n. record { at = λ w h. tt }
  use_snapshot-ends (some s) = Still-bind _ _ (Still-lift _ (m.decode_snapshot _ _)) λ value.
      Still-bind _ _ (m.apply_snapshot _ _) λ _. Still-bind _ _ (ack-ends _ _) (λ _. Still-pure _)

  recover_from_snapshot-ends : Still (recover_from_snapshot client binding)
  unfolding recover_from_snapshot
  recover_from_snapshot-ends =
      Still-bind _ _ (m.get_latest_snapshot _) (λ response. use_snapshot-ends response.snapshot)

  apply_if_any-ends :
      (key : TargetBindingKey) (es : List (DecodedGatewayEvent TEvent))
      → Still (apply_if_any client binding key es)
  unfolding apply_if_any
  apply_if_any-ends key [] = Still-pure tt
  apply_if_any-ends key (e ∷ es) = m.apply_events key (e ∷ es)

  apply_batch-ends : (batch : GatewayBatch) → Still (apply_batch client binding batch)
  unfolding apply_batch apply_decoded ack_reached
  apply_batch-ends batch = Still-bind _ _ (m.get_applied_seq _) λ n.
      Still-bind _ _ (Still-lift _ (decode_events-ends _ m.decode_event _)) λ es.
        Still-bind _ _ (apply_if_any-ends _ es) λ _.
          Still-bind _ _ (m.get_applied_seq _)
            λ acked. Still-bind _ _ (ack-ends _ acked) (λ _. Still-pure _)

  on_batch-ends :
      (summary : SyncCatchUpSummary) (batch : Option GatewayBatch)
      → Still (on_batch client binding summary batch)
  unfolding on_batch
  on_batch-ends summary none = Still-pure _
  on_batch-ends summary (some batch) = λ n.
      Ends-if _ _ _ _ _ _ _ (Still-pure _ n)
        (Still-bind _ _ (apply_batch-ends batch) (λ _. Still-pure _) n)

  on_status-ends :
      (summary : SyncCatchUpSummary) (status : CatchUpStatus) (batch : Option GatewayBatch)
      → Still (on_status client binding summary status batch)
  unfolding on_status
  on_status-ends summary CatchUpStatus.too_long batch =
      Still-bind _ _ recover_from_snapshot-ends (λ _. Still-pure _)
  on_status-ends summary CatchUpStatus.ok batch = on_batch-ends summary batch
  on_status-ends summary CatchUpStatus.none batch = Still-pure _

  on_result-ends :
      (summary : SyncCatchUpSummary) (result : Option GatewayCatchUpResult)
      → Still (on_result client binding summary result)
  unfolding on_result
  on_result-ends summary none = Still-pure _
  on_result-ends summary (some result) = on_status-ends summary result.status result.batch

  abbrev IsStop : Round SyncCatchUpSummary → Type 0
  IsStop (stop summary) = Unit
  IsStop (again summary) = ⊥

  -- The computation ends, and a round that it is stops.
  abbrev Stops : Io W (Round SyncCatchUpSummary) → Type 0
  Stops x = (k : ℕ) → Ends (λ w. measure w < k) x (λ r _. IsStop r) (λ _. Unit {0}) (λ _. ⊥)

  abbrev applied_round : SyncCatchUpSummary → GatewayBatch → AppliedBatch → Round SyncCatchUpSummary
  applied_round summary batch applied =
      if batch.final
      then stop (with_batch client binding summary applied)
      else again (with_batch client binding summary applied)

  abbrev applied_last : SyncCatchUpSummary → GatewayBatch → Io W (Round SyncCatchUpSummary)
  applied_last summary batch =
      apply_batch client binding batch >>= λ applied. pure (applied_round summary batch applied)

  applied_round-IsStop :
      (summary : SyncCatchUpSummary) (batch : GatewayBatch) (applied : AppliedBatch)
      → batch.final ≡ true
      → IsStop (applied_round summary batch applied)
  applied_round-IsStop summary batch applied last = rw last tt

  applied_last-Stops :
      (summary : SyncCatchUpSummary) (batch : GatewayBatch)
      → batch.final ≡ true
      → Stops (applied_last summary batch)
  applied_last-Stops summary batch last k =
      Ends-bind _ _ _ _ _ (apply_batch client binding batch)
        (λ applied. pure (applied_round summary batch applied)) (apply_batch-ends batch k)
        (λ applied. record { at = λ w h. applied_round-IsStop summary batch applied last })

  on_batch-Stops :
      (summary : SyncCatchUpSummary) (batch : Option GatewayBatch)
      → LastBatch batch
      → Stops (on_batch client binding summary batch)
  unfolding on_batch
  on_batch-Stops summary none last k = record { at = λ w h. tt }
  on_batch-Stops summary (some batch) (inl empty) k = record { at = λ w h. rw empty tt }
  on_batch-Stops summary (some batch) (inr last) k =
      Ends-if _ _ _ _ (is_empty batch.events) (pure (stop summary)) (applied_last summary batch)
        (record { at = λ w h. tt }) (applied_last-Stops summary batch last k)

  on_status-Stops :
      (summary : SyncCatchUpSummary) (status : CatchUpStatus) (batch : Option GatewayBatch)
      → SettlesAt status batch
      → Stops (on_status client binding summary status batch)
  unfolding on_status
  on_status-Stops summary CatchUpStatus.too_long batch last = absurd last
  on_status-Stops summary CatchUpStatus.ok batch last = on_batch-Stops summary batch last
  on_status-Stops summary CatchUpStatus.none batch last = λ k. record { at = λ w h. tt }

  on_result-Stops :
      (summary : SyncCatchUpSummary) (result : Option GatewayCatchUpResult)
      → Settles result
      → Stops (on_result client binding summary result)
  unfolding on_result
  on_result-Stops summary none last = λ k. record { at = λ w h. tt }
  on_result-Stops summary (some result) last =
      on_status-Stops summary result.status result.batch last

  settled-Stops :
      (summary : SyncCatchUpSummary) (r : Outcome (Option GatewayCatchUpResult))
      → r ≢ running
      → ((result : Option GatewayCatchUpResult) → r ≡ ok result → Settles result)
      → Stops (lift r >>= on_result client binding summary)
  settled-Stops summary (ok result) n last k = on_result-Stops summary result (last result refl) k
  settled-Stops summary (err e) n last k = record { at = λ w h. tt }
  settled-Stops summary running n last k = absurd (n refl)

  -- A round brings the measure down or is the last one.
  abbrev Nearer : ℕ → Round SyncCatchUpSummary → W → Type 0
  Nearer k r w = (measure w < k) ⊎ IsStop r

  catch_up_round-ends :
      (summary : SyncCatchUpSummary) (k : ℕ)
      → Ends
          (λ w. measure w < suc k)
          (catch_up_round client binding summary)
          (Nearer k)
          (λ _. Unit {0})
          (λ _. ⊥)
  unfolding catch_up_round
  catch_up_round-ends summary k = Ends-bind _ _ _ _ _ _ _ (m.catch_up _ k) λ response.
      let chosen = select_result response.results binding.binding_key in
      let ends = select_result-ends response.results binding.binding_key in
      record {
        at = λ w h. elim h [
          | inl low ↦
              (Ends-weaken (λ _ v. measure v < k) (Nearer k) _ _ (λ r v less. inl less) _ _
                  (Still-bind _ _ (Still-lift chosen ends) (on_result-ends summary) k)).at
                w low
          | inr (low, settled) ↦
              (Ends-weaken (λ r _. IsStop r) (Nearer k) _ _ (λ r v last. inr last) _ _
                  (settled-Stops summary chosen ends settled (suc k))).at
                w low
        ];
      }

  go_on-ends :
      (rest : SyncCatchUpSummary → Io W SyncCatchUpSummary) (r : Round SyncCatchUpSummary) (k : ℕ)
      → ((s : SyncCatchUpSummary)
          → Ends (λ w. measure w < k) (rest s) (λ _ _. Unit {0}) (λ _. Unit {0}) (λ _. ⊥))
      → Ends
          (Nearer k r)
          (elim r [ stop result ↦ pure result | again next ↦ rest next ])
          (λ _ _. Unit {0})
          (λ _. Unit {0})
          (λ _. ⊥)
  go_on-ends rest (stop s) k h = record { at = λ w _. tt }
  go_on-ends rest (again s) k h = record {
    at = λ w nearer. elim nearer [ inl low ↦ (h s).at w low | inr last ↦ absurd last ];
  }

  catch_up_loop-ends :
      (fuel : ℕ) (summary : SyncCatchUpSummary)
      → Ends
          (λ w. measure w < fuel)
          (catch_up_loop client binding fuel summary)
          (λ _ _. Unit {0})
          (λ _. Unit {0})
          (λ _. ⊥)
  unfolding catch_up_loop
  catch_up_loop-ends zero summary = record { at = λ w h. absurd (omega arith) }
  catch_up_loop-ends (suc fuel) summary =
      Ends-bind _ _ _ _ _ _ _ (catch_up_round-ends summary fuel)
        (λ r. go_on-ends _ r fuel (catch_up_loop-ends fuel))

  -- Where the calls of the store and the transport end, and the decoders, `catchUp` ends, by its
  -- result or by a throw, if each answer to a catch-up settles it (no result for the binding, a status
  -- that is neither OK nor TOO_LONG, or an OK whose batch is missing, empty or final) or brings a
  -- measure of the world down, which no other call brings up; it takes no more rounds than the
  -- measure at the start, and one.
  pub catch_up-ne-running :
      (fuel : ℕ) (w : W) → measure w < fuel → (catch_up client binding fuel w).0 ≢ running
  unfolding catch_up
  catch_up-ne-running fuel w h = ended-ne-running _ ((catch_up_loop-ends fuel no_progress).at w h)
