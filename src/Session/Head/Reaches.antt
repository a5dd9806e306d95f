-- ===== src/Session/Head/Reaches.antt =====
-- A `catchUp` from a gateway that serves a log ends at its head.
use synclog.Prelude.{ℕ, zero, suc, ◌-◌, ◌<◌, ◌≡◌, refl, ◌∙◌, inl, inr, arith}
use synclog.Io.{Outcome, ok}
use synclog.Protocol.Gateway.{GatewayEvent}
use synclog.Target.{TargetBindingKey}
use synclog.Memory.{get_record}
use synclog.Memory.Coverage.{Covers}
use synclog.Transport.{SyncGatewayTransport}
use synclog.Client.{SyncClient, SyncBinding, SyncCatchUpSummary}
use synclog.Client.Sync.{catch_up_loop, catch_up, no_progress}
use synclog.Session.{World, client_over, stored}
use synclog.Session.Head.{ServesLog}
use synclog.Session.Head.Steps.{Ready, Moved}
use synclog.Session.Head.Rounds.{round-Progress}

module _ {N TSnapshot TEvent : Type 0} (gateway : SyncGatewayTransport N)
    (client : SyncClient (World N TSnapshot TEvent))
    (binding : SyncBinding (World N TSnapshot TEvent) TSnapshot TEvent) (key : TargetBindingKey)
    (cursor head : N → ℕ)
    (decodes : (event : GatewayEvent)
      → (value : TEvent) × (binding.projection.decode_event event ≡ ok value))
    (serves : ServesLog gateway client binding key cursor head) where
  abbrev sdk : SyncClient (World N TSnapshot TEvent)
  sdk = client_over gateway client

  abbrev bound : SyncBinding (World N TSnapshot TEvent) TSnapshot TEvent
  bound = stored binding

  abbrev Left : World N TSnapshot TEvent → World N TSnapshot TEvent → ℕ → Type 0
  Left w v low = Moved cursor head key w v low

  -- What a `catchUp` comes to.
  abbrev Reached :
      World N TSnapshot TEvent → Outcome SyncCatchUpSummary × World N TSnapshot TEvent → Type 0
  Reached w x =
      (s : SyncCatchUpSummary) × (v : World N TSnapshot TEvent) × (x ≡ (ok s, v))
      × Left w v (head w.net)

  loop_reaches :
      (fuel : ℕ) (summary : SyncCatchUpSummary) (w : World N TSnapshot TEvent)
      → Ready cursor head key w
      → head w.net - cursor w.net < fuel
      → Reached w (catch_up_loop sdk bound fuel summary w)
  unfolding catch_up_loop
  loop_reaches zero summary w ready h = absurd (omega arith)
  loop_reaches (suc fuel) summary w ready h =
      elim (round-Progress gateway client binding key cursor head decodes serves summary w ready) [
        | inl (s, v, e, m) ↦ (s, v, rw e refl, m)
        | inr (s, v, e, m) ↦
            let (s', v', e', m') =
              loop_reaches fuel s v m.ready
                (omega (arith, m.advanced, m.same_head, m.ready.within, m.ready.behind)) in
            (
              s',
              v',
              rw e e',
              record {
                ready = m'.ready;
                advanced = omega (arith, m'.advanced, m.same_head);
                same_head = m'.same_head ∙ m.same_head;
              },
            )
      ]

  -- Where the gateway serves a log (`ServesLog`, with one key for its batches and snapshots) that
  -- does not grow meanwhile, events decode, and the key's record has no gap, is at or past the
  -- gateway's cursor and not past its head, and has no snapshot past the cursor: `catchUp` returns a
  -- summary, in more rounds than the cursor is behind the head; the record is then at the head,
  -- still without a gap, and so is the cursor.
  pub catch_up-reaches-head :
      (fuel : ℕ) (w : World N TSnapshot TEvent)
      → Ready cursor head key w
      → head w.net - cursor w.net < fuel
      → (summary : SyncCatchUpSummary) × (v : World N TSnapshot TEvent) × (catch_up sdk bound fuel w
          ≡ (ok summary, v))
        × ((get_record key v.store).applied_seq ≡ head w.net)
        × Covers (get_record key v.store)
        × (cursor v.net ≡ head w.net)
        × (head v.net ≡ head w.net)
  unfolding catch_up
  catch_up-reaches-head fuel w ready h =
      let (s, v, e, m) = loop_reaches fuel no_progress w ready h in
      (
        s,
        v,
        e,
        omega (arith, m.advanced, m.same_head, m.ready.within, m.ready.behind),
        m.ready.covers,
        omega (arith, m.advanced, m.same_head, m.ready.within, m.ready.behind),
        m.same_head,
      )
