-- ===== src/Tests/Choice.antt =====
-- Bindings, keys and delays on sample data.
use synclog.Prelude.{
  ℕ, arith, String, ◌≡◌, ◌≢◌, ◌⊎◌, ◌↔◌, refl, List, [], ◌∷◌, none, some, All, ◌<◌, ◌*◌, min, ◌≤◌,
  true, false,
}
use synclog.Io.{ok, err, binding_key_required}
use synclog.Protocol.Service.{CatchUpStatus}
use synclog.Protocol.Gateway.{GatewayCatchUpResult}
use synclog.Target.{default_binding_key}
use synclog.Client.{SyncBinding, select_result, key_of}
use synclog.Client.Choice.{IsFirst, Names, select_result-named, select_result-Unnamed, key_of_iff}
use synclog.Transport.{finite}
use synclog.Client.Backoff.{delay, Wait, start, on_timer, Reach, here, next, timer_fires}
use synclog.Client.Backoff.Laws.{delay-doubles, wait-phases}
use synclog.Fake.{FakeState}
use synclog.Session.{World}
use synclog.Tests.Samples.{Payload, result_of, fake_client, binding_of}

abbrev draft_key : String
draft_key = "draft"

abbrev live_key : String
live_key = "live"

abbrev draft : GatewayCatchUpResult
draft = result_of "draft" CatchUpStatus.ok none

abbrev live : GatewayCatchUpResult
live = result_of "live" CatchUpStatus.ok none

abbrev both : List GatewayCatchUpResult
both = draft ∷ live ∷ []

select_result-named_example :
    ((result : GatewayCatchUpResult) × (select_result both (some "live") ≡ ok (some result))
      × IsFirst "live" result both)
    ⊎ ((select_result both (some "live") ≡ ok none) × All (λ r. r.binding_key ≢ "live") both)
select_result-named_example = select_result-named both "live" (cc)

select_result-Unnamed_example :
    ((select_result both none ≡ err binding_key_required) ↔ (1 < 2))
    × ((select_result both none ≡ ok none) ↔ (both ≡ []))
    × ((select_result both none ≡ ok (some live)) ↔ (both ≡ live ∷ []))
select_result-Unnamed_example = select_result-Unnamed both none live tt

abbrev named : SyncBinding (World FakeState Payload Payload) Payload Payload
named = binding_of (some "live")

key_of_iff_example : ((key_of fake_client named (some "draft")).binding_key ≡ "live") ↔ (
    Names (some live_key) live_key
    ⊎ ((some live_key ≡ none) × (draft_key ≡ live_key) × (live_key ≢ ""))
    ⊎ ((live_key ≡ default_binding_key)
        × ((some live_key ≡ some "") ⊎ ((some live_key ≡ none) × (draft_key ≡ "")))))
key_of_iff_example = key_of_iff fake_client named "draft" "live"

-- The retries of the tests' client, at the fifth.
delay-doubles_example :
    (delay fake_client 1 ≡ finite (min 30_000 500))
    × (before : ℕ) × (delay fake_client 5 ≡ finite before)
    × (delay fake_client 6 ≡ finite (min 30_000 (2 * before)))
    × (before ≤ 30_000)
    × (30_000 ≤ 4 → before ≡ 30_000)
delay-doubles_example = delay-doubles fake_client 4 (omega arith)

fired : Wait
fired = on_timer (start false)

fired-Reach : Reach (start false) fired
unfolding fired start
fired-Reach = next here (timer_fires (start false) refl)

wait-phases_example :
    ((fired.resolved ≡ 0)
      × (fired.timer ≡ true)
      × (fired.listening ≡ true)
      × (fired.aborted ≡ false))
    ⊎ ((fired.resolved ≡ 1) × (fired.timer ≡ false) × (fired.listening ≡ false))
wait-phases_example = wait-phases false fired-Reach
