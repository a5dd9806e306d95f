-- ===== src/Transport.antt =====
-- ts/synclog/src/transport.ts: the network boundary. A product supplies it, so its methods are
-- arbitrary steps of the world. A stream hands out its next frame, or nothing at its end.
use synclog.Prelude.{ℕ, Option, Bool}
use synclog.Io.{Io}
use synclog.Protocol.Gateway.{
  OpenRequest, OpenResponse, GatewayCatchUpRequest, GatewayCatchUpResponse, GatewayAckRequest,
  GatewayAckResponse, GatewayGetLatestSnapshotRequest, GatewayGetLatestSnapshotResponse,
  ModifySubscriptionRequest, ModifySubscriptionResponse, GatewaySubscribeRequest,
  GatewaySubscribeResponse,
}

-- `next` and `return` of an `AsyncIterator`.
pub record AsyncIterator (W : Type 0) : Type 0 where
  pub next : Io W (Option GatewaySubscribeResponse)
  pub close : W → W

-- What the client lets an abort call: a function object, by its identity, and the iterator of a
-- stream, whose `return` it calls.
pub data Listener (W : Type 0) : Type 0 where
  close_iterator : ℕ → AsyncIterator W → Listener W

abbrev pub on_abort : {W : Type 0} → Listener W → W → W
on_abort (close_iterator id iterator) w = iterator.close w

-- The number that a timer is set to: of milliseconds, or `NaN`.
pub data Milliseconds : Type 0 where
  finite : ℕ → Milliseconds
  nan : Milliseconds

-- The runtime that a subscription runs on: the identity of each function object that is made, its
-- `AbortSignal`, and the wait for a timer or an abort, which leaves the world as it is when the wait
-- is over.
pub record Runtime (W : Type 0) : Type 0 where
  pub aborted : W → Bool
  pub new_function : W → ℕ × W
  pub add_event_listener : Listener W → W → W
  pub remove_event_listener : Listener W → W → W
  pub wait : Milliseconds → W → W

pub record SyncGatewayTransport (W : Type 0) : Type 0 where
  pub «open» : OpenRequest → Io W OpenResponse
  pub catch_up : GatewayCatchUpRequest → Io W GatewayCatchUpResponse
  pub ack : GatewayAckRequest → Io W GatewayAckResponse
  pub get_latest_snapshot : GatewayGetLatestSnapshotRequest → Io W GatewayGetLatestSnapshotResponse
  pub modify_subscription : ModifySubscriptionRequest → Io W ModifySubscriptionResponse
  pub subscribe : GatewaySubscribeRequest → Io W (AsyncIterator W)
