-- ===== src/Fake.antt =====
-- The gateways of ts/synclog/test/memory-sync.test.ts. `FakeTransport` answers catch-ups from a
-- list and snapshots from one reply, takes every ack, and has no live events.
use synclog.Prelude.{Bool, true, List, [], ◌∷◌, ◌++◌, Option, none, some}
use synclog.Io.{ok, err, thrown, Io}
use synclog.Protocol.Gateway.{
  GatewayCatchUpResponse, GatewayGetLatestSnapshotResponse, GatewaySubscribeRequest,
  GatewaySubscribeResponse, GatewayAckRequest, ModifySubscriptionRequest,
}
use synclog.Transport.{AsyncIterator, SyncGatewayTransport}

pub record FakeState : Type 0 where
  pub catch_ups : List GatewayCatchUpResponse
  pub snapshot : Option GatewayGetLatestSnapshotResponse

abbrev pub shift : List GatewayCatchUpResponse → Io FakeState GatewayCatchUpResponse
shift [] s = (err (thrown "unexpected catchUp call"), s)
shift (next ∷ rest) s = (ok next, record s { catch_ups = rest })

abbrev pub prepared :
    Option GatewayGetLatestSnapshotResponse → Io FakeState GatewayGetLatestSnapshotResponse
prepared none s = (err (thrown "unexpected getLatestSnapshot call"), s)
prepared (some reply) s = (ok reply, s)

abbrev no_frames : AsyncIterator FakeState
no_frames = record { next = λ s. (ok none, s); close = λ s. s }

abbrev pub fake_transport : SyncGatewayTransport FakeState
fake_transport = record {
  «open» = λ r s. (ok (record { targets = [] }), s);
  catch_up = λ r s. shift s.catch_ups s;
  ack = λ r s. (ok (record { state = none }), s);
  get_latest_snapshot = λ r s. prepared s.snapshot s;
  modify_subscription = λ r s. (err (thrown "unexpected modifySubscription call"), s);
  subscribe = λ r s. (ok no_frames, s);
}

-- `LiveTransport`: no results for a catch-up, and a stream of given responses that then idles until
-- the subscription is stopped, as the test stops it.
pub record LiveState : Type 0 where
  pub responses : List GatewaySubscribeResponse
  pub acks : List GatewayAckRequest
  pub modifies : List ModifySubscriptionRequest
  pub last_subscribe_req : Option GatewaySubscribeRequest
  pub subscribe_aborted : Bool

-- The stream's next response, or its end once the signal is aborted.
abbrev pub yielded : List GatewaySubscribeResponse → Io LiveState (Option GatewaySubscribeResponse)
yielded [] s = (ok none, record s { subscribe_aborted = true })
yielded (r ∷ rest) s = (ok (some r), record s { responses = rest })

abbrev pub live_frames : AsyncIterator LiveState
live_frames = record {
  next = λ s. yielded s.responses s;
  close = λ s. record s { subscribe_aborted = true };
}

abbrev pub live_transport : SyncGatewayTransport LiveState
live_transport = record {
  «open» = λ r s. (ok (record { targets = [] }), s);
  catch_up = λ r s. (ok (record { results = [] }), s);
  ack = λ r s. (ok (record { state = none }), record s { acks = s.acks ++ r ∷ [] });
  get_latest_snapshot = λ r s. (err (thrown "unexpected getLatestSnapshot call"), s);
  modify_subscription = λ r s.
      (ok (record { added = []; rejected = [] }), record s { modifies = s.modifies ++ r ∷ [] });
  subscribe = λ r s. (ok live_frames, record s { last_subscribe_req = some r });
}
