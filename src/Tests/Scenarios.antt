-- ===== src/Tests/Scenarios.antt =====
-- The two tests of ts/synclog/test/memory-sync.test.ts, run.
use synclog.Prelude.{ℕ, ◌≡◌, refl, List, [], ◌∷◌, Option, none, some, map}
use synclog.Io.{Outcome, ok}
use synclog.JsMap
use synclog.Target.{target_binding_key, normalize_binding_key}
use synclog.Memory.{get_record, get_applied_seq, record_at, apply_events, apply_snapshot}
use synclog.Client.{SyncCatchUpSummary, select_result, ack, key_of, max_seq}
use synclog.Client.Sync.{
  catch_up, catch_up_round, recover_from_snapshot, apply_batch, decode_events, apply_decoded,
  ack_reached,
}
use synclog.Fake.{FakeState}
use synclog.Tests.Samples.{
  Payload, tasks, key_for, binding_of, two_events, overrun, world_of, fake_client,
}

-- The summary, the record's applied seq, its snapshot's value and its events' values, and the seqs
-- that were acked, the last one first.
abbrev Report : Type 0
Report = Outcome SyncCatchUpSummary × ℕ × Option Payload × List Payload × List ℕ

report : FakeState → Report
unfolding catch_up catch_up_round recover_from_snapshot select_result apply_batch decode_events
    apply_decoded ack_reached ack key_of get_applied_seq record_at apply_events apply_snapshot
    get_record target_binding_key normalize_binding_key max_seq JsMap.get JsMap.set JsMap.empty
report net =
    let (summary, w) = catch_up fake_client (binding_of none) 5 (world_of net) in
    let r = get_record (key_for tasks "default") w.store in
    (
      summary,
      r.applied_seq,
      elim r.snapshot [ none ↦ none | some s ↦ some s.value ],
      map (λ e. e.value) r.events,
      map (λ a. a.seq) w.acks,
    )

events_applied_and_acked : report two_events ≡ (
  ok (record { applied_events = 2; applied_snapshots = 0; acked_seq = 2 }),
  2,
  none,
  (10 ∷ []) ∷ (20 ∷ []) ∷ [],
  2 ∷ [],
)
unfolding report
events_applied_and_acked = refl

too_long_recovers_from_snapshot : report overrun ≡ (
  ok (record { applied_events = 1; applied_snapshots = 1; acked_seq = 4 }),
  4,
  some (30 ∷ []),
  (40 ∷ []) ∷ [],
  4 ∷ 3 ∷ [],
)
unfolding report
too_long_recovers_from_snapshot = refl
