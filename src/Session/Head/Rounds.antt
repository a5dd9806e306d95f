-- ===== src/Session/Head/Rounds.antt =====
-- One round of a `catchUp` from a gateway that serves a log: its batch, its snapshot or its end.
use synclog.Prelude.{
  ℕ, ◌+◌, ◌≤◌, ◌<◌, ◌≡◌, refl, subst, ◌∙◌, ◌⊎◌, inl, inr, true, false, Option, none, some, List, [],
  ◌∷◌, arith, Bool-cases, is_empty, length,
}
use synclog.Io.{Outcome, ok}
use synclog.Protocol.Service.{CatchUpStatus}
use synclog.Protocol.Gateway.{
  GatewaySnapshot, GatewayGetLatestSnapshotResponse, GatewayEvent, GatewayBatch,
  GatewayCatchUpResult,
}
use synclog.Target.{TargetBindingKey}
use synclog.Transport.{SyncGatewayTransport}
use synclog.Client.{SyncClient, SyncBinding, SyncCatchUpSummary, key_of, select_result}
use synclog.Client.Sync.{
  Round, again, stop, on_batch, on_status, on_result, with_batch, with_snapshot, catch_up_round,
  recover_from_snapshot, catch_up_request, snapshot_request,
}
use synclog.Session.{World, client_over, stored}
use synclog.Session.Head.{Consecutive, NoEvents, Served, at_head, behind, too_long, ServesLog}
use synclog.Session.Head.Steps.{Ready, Moved, batch_moves, snapshot_moves, Applied, Recovered, Acks}

module _ {N TSnapshot TEvent : Type 0} (gateway : SyncGatewayTransport N)
    (client : SyncClient (World N TSnapshot TEvent))
    (binding : SyncBinding (World N TSnapshot TEvent) TSnapshot TEvent) (key : TargetBindingKey)
    (cursor head : N → ℕ)
    (decodes : (event : GatewayEvent)
      → (value : TEvent) × (binding.projection.decode_event event ≡ ok value))
    (serves : ServesLog gateway client binding key cursor head) where
  abbrev sdk : SyncClient (World N TSnapshot TEvent)
  sdk = client_over gateway client

  abbrev bound : SyncBinding (World N TSnapshot TEvent) TSnapshot TEvent
  bound = stored binding

  abbrev Left : World N TSnapshot TEvent → World N TSnapshot TEvent → ℕ → Type 0
  Left w v low = Moved cursor head key w v low

  -- A round that stops has brought the cursor to the head, and one that does not has moved it.
  abbrev Progress :
      World N TSnapshot TEvent
      → Outcome (Round SyncCatchUpSummary) × World N TSnapshot TEvent
      → Type 0
  Progress w x =
      ((s : SyncCatchUpSummary) × (v : World N TSnapshot TEvent) × (x ≡ (ok (stop s), v))
        × Left w v (head w.net))
      ⊎ ((s : SyncCatchUpSummary) × (v : World N TSnapshot TEvent) × (x ≡ (ok (again s), v))
          × Left w v (cursor w.net + 1))

  no_events :
      (summary : SyncCatchUpSummary) (o : Option GatewayBatch) (w : World N TSnapshot TEvent)
      → NoEvents o
      → on_batch sdk bound summary o w ≡ (ok (stop summary), w)
  unfolding on_batch
  no_events summary none w h = refl
  no_events summary (some batch) w h = rw h refl

  pub batch-Applied :
      (batch : GatewayBatch) (w : World N TSnapshot TEvent) (start : ℕ)
      → key_of sdk bound (some batch.binding_key) ≡ key
      → Ready cursor head key w
      → start ≤ cursor w.net
      → Consecutive start batch.events
      → start + length batch.events ≤ head w.net
      → Applied cursor head gateway client binding decodes key batch w start
  batch-Applied batch w start same =
      subst
        (λ k.
          Acks cursor head gateway client binding decodes k
          → Ready cursor head k w
          → start ≤ cursor w.net
          → Consecutive start batch.events
          → start + length batch.events ≤ head w.net
          → Applied cursor head gateway client binding decodes k batch w start)
        same (batch_moves cursor head gateway client binding decodes batch w start) serves.ack

  some_length : (es : List GatewayEvent) → is_empty es ≡ false → 0 < length es
  some_length [] h = cc
  some_length (e ∷ es) h = omega arith

  weaker :
      (w v : World N TSnapshot TEvent) (low low' : ℕ) → Left w v low → low' ≤ low → Left w v low'
  weaker w v low low' m h = record {
    ready = m.ready;
    advanced = omega (arith, m.advanced);
    same_head = m.same_head;
  }

  after_batch :
      (summary : SyncCatchUpSummary) (batch : GatewayBatch) (w : World N TSnapshot TEvent)
      → is_empty batch.events ≡ false
      → (batch.final ≡ true → cursor w.net + length batch.events ≡ head w.net)
      → Applied cursor head gateway client binding decodes key batch w (cursor w.net)
      → Progress w (on_batch sdk bound summary (some batch) w)
  unfolding on_batch
  after_batch summary batch w full last (applied, v, run, moved) =
      let n = some_length batch.events full in
      elim (Bool-cases batch.final) [
        | inl final ↦ inl (
          with_batch sdk bound summary applied,
          v,
          rw (full, run, final) refl,
          weaker w v _ (head w.net) moved (omega (arith, last final)),
        )
        | inr more ↦ inr (
          with_batch sdk bound summary applied,
          v,
          rw (full, run, more) refl,
          weaker w v _ (cursor w.net + 1) moved (omega arith),
        )
      ]

  after_snapshot :
      (summary : SyncCatchUpSummary) (o : Option GatewayBatch) (w : World N TSnapshot TEvent)
      (seq : ℕ) (v : World N TSnapshot TEvent)
      → recover_from_snapshot sdk bound w ≡ (ok seq, v)
      → Left w v (cursor w.net + 1)
      → Progress w (on_status sdk bound summary CatchUpStatus.too_long o w)
  unfolding on_status
  after_snapshot summary o w seq v run moved =
      inr (with_snapshot sdk bound summary seq, v, rw run refl, moved)

  pub served-Recovered :
      (w : World N TSnapshot TEvent) (response : GatewayGetLatestSnapshotResponse)
      (snapshot : GatewaySnapshot) (value : TSnapshot) (given : N)
      (replies : gateway.get_latest_snapshot (snapshot_request sdk bound) w.net
        ≡ (ok response, given))
      (offers : response.snapshot ≡ some snapshot)
      (decoded : binding.projection.decode_snapshot snapshot.payload snapshot.payload_version
        ≡ ok value)
      → key_of sdk bound (some snapshot.binding_key) ≡ key
      → Ready cursor head key w
      → cursor w.net < snapshot.seq
      → snapshot.seq ≤ head w.net
      → cursor given ≡ cursor w.net
      → head given ≡ head w.net
      → Recovered cursor head gateway client binding decodes w response snapshot value given replies
          offers decoded key
  served-Recovered w response snapshot value given replies offers decoded same =
      subst
        (λ k.
          Acks cursor head gateway client binding decodes k
          → Ready cursor head k w
          → cursor w.net < snapshot.seq
          → snapshot.seq ≤ head w.net
          → cursor given ≡ cursor w.net
          → head given ≡ head w.net
          → Recovered cursor head gateway client binding decodes w response snapshot value given
              replies offers decoded k)
        same
        (snapshot_moves cursor head gateway client binding decodes w response snapshot value given
          replies offers decoded)
        serves.ack

  after_answer :
      (summary : SyncCatchUpSummary) (w : World N TSnapshot TEvent) (result : GatewayCatchUpResult)
      → Ready cursor head key w
      → Served gateway client binding key cursor head w.net result
      → Progress w (on_status sdk bound summary result.status result.batch w)
  unfolding on_status
  after_answer summary w result ready (at_head reached st none_left) = inl (
    summary,
    w,
    rw st (no_events summary result.batch w none_left),
    record { ready = ready; advanced = reached; same_head = refl },
  )
  after_answer summary w result ready (behind batch st is full next fits last same) =
      rw (st, is)
        (after_batch summary batch w full last
          (batch-Applied batch w (cursor w.net) same ready (omega arith) next fits))
  after_answer summary w result ready
        (too_long response snapshot value given st replies offers decoded above fits c h same) =
      let (seq, v, run, moved) =
        served-Recovered w response snapshot value given replies offers decoded same ready above
          fits c h in
      rw st (
        after_snapshot summary result.batch w seq v run
          (weaker w v _ (cursor w.net + 1) moved (omega arith)))

  round_run :
      (summary : SyncCatchUpSummary) (w : World N TSnapshot TEvent) (result : GatewayCatchUpResult)
      (later : N)
      → gateway.catch_up (catch_up_request sdk bound) w.net
        ≡ (ok (record { results = result ∷ [] }), later)
      → select_result (result ∷ []) binding.binding_key ≡ ok (some result)
      → catch_up_round sdk bound summary w
        ≡ on_status sdk bound summary result.status result.batch (record w { net = later })
  unfolding catch_up_round on_result
  round_run summary w result later answer chosen = rw (answer, chosen) refl

  -- What is found of a round after the gateway's answer is found of it before.
  moved_from :
      (w : World N TSnapshot TEvent) (later : N) (v : World N TSnapshot TEvent) (low low' : ℕ)
      → head later ≡ head w.net
      → low' ≤ low
      → Left (record w { net = later }) v low
      → Left w v low'
  moved_from w later v low low' h le m = record {
    ready = m.ready;
    advanced = omega (arith, m.advanced);
    same_head = m.same_head ∙ h;
  }

  pub round-Progress :
      (summary : SyncCatchUpSummary) (w : World N TSnapshot TEvent)
      → Ready cursor head key w
      → Progress w (catch_up_round sdk bound summary w)
  round-Progress summary w ready =
      let (result, later, answer, chosen, c, h, served) = serves.catch_up w.net in
      let ready' : Ready cursor head key (record w { net = later }) = record {
        behind = omega (arith, ready.behind);
        within = omega (arith, ready.within);
        snapshot = omega (arith, ready.snapshot);
        covers = ready.covers;
      } in
      rw (round_run summary w result later answer chosen)
        (elim (after_answer summary (record w { net = later }) result ready' served) [
          | inl (s, v, e, m) ↦ inl (s, v, e, moved_from w later v _ (head w.net) h (omega arith) m)
          | inr (s, v, e, m) ↦
              inr (s, v, e, moved_from w later v _ (cursor w.net + 1) h (omega arith) m)
        ])
