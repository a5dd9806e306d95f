-- ===== src/Tests/Settling.antt =====
-- A gateway that answers a number of catch-ups with TOO_LONG, and each one after them with the same
-- final batch.
use synclog.Prelude.{
  ℕ, zero, suc, ◌<◌, ◌⊎◌, ◌≡◌, ◌≢◌, refl, subst, List, [], ◌∷◌, Option, none, some, arith, inl, inr,
}
use synclog.Io.{Outcome, ok, err, running, thrown}
use synclog.Io.Endings.{Ending}
use synclog.Protocol.Service.{CatchUpStatus}
use synclog.Protocol.Gateway.{GatewayBatch, GatewayCatchUpResult, GatewayCatchUpResponse}
use synclog.Transport.{SyncGatewayTransport}
use synclog.Client.{SyncClient, SyncBinding, select_result}
use synclog.Client.Sync.{catch_up}
use synclog.Client.Sync.Ends.{IsMeasured, Settles, Settled, catch_up-ne-running}
use synclog.Session.{World, client_over, stored, transport_over}
use synclog.Tests.Samples.{
  Payload, event_of, batch_of, result_of, answer_of, offer_of, binding_of, client_of, world_of,
  decode,
}

abbrev last : Option GatewayBatch
last = some (batch_of (event_of 4 (40 ∷ []) ∷ []) 4)

-- The state is the number of TOO_LONG answers that are left.
abbrev answered : ℕ → Outcome GatewayCatchUpResponse × ℕ
answered zero = (ok (answer_of CatchUpStatus.ok last), zero)
answered (suc n) = (ok (answer_of CatchUpStatus.too_long none), n)

abbrev transport : SyncGatewayTransport ℕ
transport = record {
  «open» = λ r n. (ok (record { targets = [] }), n);
  catch_up = λ r n. answered n;
  ack = λ r n. (ok (record { state = none }), n);
  get_latest_snapshot = λ r n. (ok (offer_of 3 (30 ∷ [])), n);
  modify_subscription = λ r n. (err (thrown "no subscription"), n);
  subscribe = λ r n. (err (thrown "no stream"), n);
}

abbrev Net : Type 0
Net = World ℕ Payload Payload

abbrev client : SyncClient Net
client = client_over transport (client_of (transport_over transport))

abbrev binding : SyncBinding Net Payload Payload
binding = stored (binding_of none)

abbrev too_long_left : Net → ℕ
too_long_left w = w.net

settled :
    (result : Option GatewayCatchUpResult)
    → select_result (result_of "default" CatchUpStatus.ok last ∷ []) none ≡ ok result
    → Settles result
unfolding select_result
settled result h =
    subst Settles {x = some (result_of "default" CatchUpStatus.ok last)} (ground (arith, h))
      (inr refl)

catch_up_Ending :
    (k n : ℕ) (w : Net)
    → n < suc k
    → Ending {A = GatewayCatchUpResponse}
        (λ response v.
          (v.net < k) ⊎ ((v.net < suc k) × Settled client binding too_long_left response))
        (λ _. Unit {0})
        (λ _. ⊥)
        ((answered n).0, record w { net = (answered n).1 })
catch_up_Ending k zero w h = inr (h, settled)
catch_up_Ending k (suc n) w h = inl (omega (arith, h))

decode-ne-running : (bytes : List ℕ) → decode bytes ≢ running
decode-ne-running [] = cc
decode-ne-running (b ∷ bytes) = cc

transport-IsMeasured : IsMeasured client binding too_long_left
transport-IsMeasured = record {
  catch_up = λ r k. record { at = λ w h. catch_up_Ending k w.net w h };
  ack = λ r k. record { at = λ w h. h };
  get_latest_snapshot = λ r k. record { at = λ w h. h };
  get_applied_seq = λ key k. record { at = λ w h. h };
  apply_snapshot = λ key s k. record { at = λ w h. h };
  apply_events = λ key es k. record { at = λ w h. h };
  decode_snapshot = λ bytes version. decode-ne-running bytes;
  decode_event = λ event. decode-ne-running event.payload;
}

-- Two snapshots, and the final batch.
catch_up-ne-running_example : (catch_up client binding 3 (world_of 2)).0 ≢ running
catch_up-ne-running_example = catch_up-ne-running transport-IsMeasured 3 (world_of 2) (omega arith)
