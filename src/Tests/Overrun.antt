-- ===== src/Tests/Overrun.antt =====
-- A gateway whose log has 2000 events, with a snapshot at 5 and a subscriber's cursor at 10, and a
-- catch-up that may replay 100 events in all.
use synclog.Prelude.{ℕ, ◌-◌, ◌≡◌, refl, max, [], ◌∷◌, none, some, ltb, if◌then◌else◌, arith}
use synclog.Io.{ok, err, running, thrown}
use synclog.Protocol.Service.{CatchUpStatus}
use synclog.Transport.{SyncGatewayTransport}
use synclog.Client.{SyncClient, SyncBinding, select_result}
use synclog.Client.Sync.{catch_up, catch_up_request}
use synclog.Session.{World, client_over, stored, transport_over}
use synclog.Session.Overrun.{Overrunning, catch_up-never-ends}
use synclog.Tests.Samples.{Payload, result_of, snapshot_of, client_of, binding_of, world_of}

-- The gateway's state is the cursor.
abbrev budget_transport : SyncGatewayTransport ℕ
budget_transport = record {
  «open» = λ r n. (ok (record { targets = [] }), n);
  catch_up = λ r n. (
    ok (record {
      results =
          result_of "default"
            (if ltb r.total_limit_per_target (2_000 - n)
              then CatchUpStatus.too_long
              else CatchUpStatus.ok)
            none
          ∷ [];
    }),
    n,
  );
  ack = λ r n. (ok (record { state = none }), max n r.seq);
  get_latest_snapshot =
      λ r n. (ok (record { snapshot = some (snapshot_of 5 (5 ∷ [])); state = none }), n);
  modify_subscription = λ r n. (err (thrown "no subscription"), n);
  subscribe = λ r n. (err (thrown "no stream"), n);
}

abbrev budget_binding : SyncBinding (World ℕ Payload Payload) Payload Payload
budget_binding = record (binding_of none) { total_limit_per_target = some 100 }

abbrev budget_client : SyncClient (World ℕ Payload Payload)
budget_client = client_of (transport_over budget_transport)

abbrev AtTen : ℕ → Type 0
AtTen n = n ≡ 10

budget-Overrunning : Overrunning budget_transport budget_client budget_binding AtTen
unfolding select_result catch_up_request
budget-Overrunning = record {
  catch_up = λ n h. (result_of "default" CatchUpStatus.too_long none, n, rw h refl, refl, refl, h);
  get_latest_snapshot = λ n h. (
    record { snapshot = some (snapshot_of 5 (5 ∷ [])); state = none },
    snapshot_of 5 (5 ∷ []),
    5 ∷ [],
    n,
    record { state = none },
    max n 5,
    refl,
    refl,
    refl,
    refl,
    omega (arith, h),
  );
}

catch_up-never-ends_example :
    (catch_up
      (client_over budget_transport budget_client)
      (stored budget_binding)
      50
      (world_of 10)).0
    ≡ running
catch_up-never-ends_example =
    catch_up-never-ends budget_transport budget_client budget_binding AtTen budget-Overrunning 50
      (world_of 10) refl
