-- ===== src/Gateway/Types.antt =====
-- pkg/gateway/types.go: the bindings of targets, and the hooks that the product writes, which may
-- keep a state of their own in `S`. `Actor` is the type of the actors, Go's `any`.
use synclog.Prelude.{ℕ, String, Bool, List, Option}
use synclog.Protocol.Gateway.{SyncTarget}
use synclog.Log.Result.{Op}

pub data Operation : Type 0 where
  «open» catch_up subscribe ack get_snapshot : Operation

pub record StreamBinding : Type 0 where
  pub binding_key : String
  pub stream_id : String
  pub payload_types : List String
  pub snapshot_types : List String

pub record TargetResolution : Type 0 where
  pub target : Option SyncTarget
  pub bindings : List StreamBinding

pub record AuthRequest (Actor : Type 0) : Type 0 where
  pub actor : Actor
  pub operation : Operation
  pub target : SyncTarget
  pub payload_type : String
  pub subscriber_id : String

-- A hook that only allows or refuses gives no value.
pub record Hooks (S Actor : Type 0) : Type 0 where
  pub resolve_subscriber : Actor → String → Op S String
  pub resolve_target : Actor → SyncTarget → Op S TargetResolution
  pub authorize : AuthRequest Actor → Op S (Unit {0})
  pub allow_payload : Actor → SyncTarget → String → Op S (Unit {0})
  pub allow_snapshot : Actor → SyncTarget → String → Op S (Unit {0})
  pub can_decode : String → ℕ → Bool
