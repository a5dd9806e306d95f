-- ===== src/Gateway/Engine.antt =====
-- pkg/gateway/engine.go: the gateway's calls. A field of a message that is a pointer may be nil; the
-- lists of targets have none.
use synclog.Prelude.{ℕ, String, false, List, [], ◌∷◌, ◌++◌, Option, none, some, ◌==◌, if◌then◌else◌}
use synclog.Prelude.Int.{pos}
use synclog.Protocol.Service.{CatchUpStatus as PbStatus}
use synclog.Protocol.Gateway.{
  SyncTarget, TargetState, TargetRejection, OpenRequest, OpenResponse, GatewayCatchUpRequest,
  GatewayCatchUpResult, GatewayCatchUpResponse, GatewaySubscribeRequest, GatewaySubscribeResponse,
}
use synclog.Log.Types.{CatchUpStatus, CatchUpResult}
use synclog.Log.Result.{
  error_text, Op, Result, done, failed, Failure, return, invalid, not_nil, handle, ◌>>=◌, ◌>>◌,
}
use synclog.Log.Storage.{SnapshotStore}
use synclog.Log.Engine as Log
use synclog.Gateway.Types.{StreamBinding, Operation, Hooks}
use synclog.Gateway.Bindings.{validate_targets, resolve_bindings, rejection_code}
use synclog.Gateway.State.{target_state}
use synclog.Gateway.Batch.{Asking, auth_request, gateway_batch}

-- The gateway's engine, with the snapshot store that WithSnapshotStore sets.
pub record Engine (S Actor : Type 0) : Type 0 where
  pub core : Log.Engine S
  pub snapshots : Option (SnapshotStore S)
  pub hooks : Hooks S Actor

unfoldable pub to_pb_catch_up_status : CatchUpStatus → PbStatus
to_pb_catch_up_status CatchUpStatus.none = PbStatus.none
to_pb_catch_up_status CatchUpStatus.ok = PbStatus.ok
to_pb_catch_up_status CatchUpStatus.too_long = PbStatus.too_long

unfoldable pub rejection : SyncTarget → Failure → TargetRejection
unfolding rejection_code error_text
rejection target e = record {
  target = some target;
  code = rejection_code e;
  message = error_text e;
}

module _ {S Actor : Type 0} (e : Engine S Actor) where
  unfoldable pub resolve_subscriber : Actor → String → Op S String
  resolve_subscriber actor requested =
      if requested == ""
      then invalid "subscriber id is required"
      else e.hooks.resolve_subscriber actor requested >>= λ subscriber_id.
          if subscriber_id == ""
          then invalid "subscriber resolver returned empty subscriber id"
          else return subscriber_id

  -- The bindings of a target, once the actor is authorized for it.
  unfoldable pub authorized_bindings : Asking Actor → Op S (List StreamBinding)
  unfolding resolve_bindings
  authorized_bindings ask = resolve_bindings e.hooks ask.actor ask.target >>= λ bindings.
      e.hooks.authorize (auth_request ask "") >> return bindings

  -- Resolving, authorizing and the state of one target: resolveSubscribeTarget, and Open's loop.
  unfoldable pub resolve_target_state : Asking Actor → Op S TargetState
  unfolding authorized_bindings target_state
  resolve_target_state ask = authorized_bindings ask >>= λ bindings.
      target_state e.core ask.subscriber_id ask.target bindings

  unfoldable pub open_each : Actor → String → List SyncTarget → Op S (List TargetState)
  unfolding resolve_target_state
  open_each actor subscriber_id [] = return []
  open_each actor subscriber_id (target ∷ targets) =
      let rest = open_each actor subscriber_id targets in
      resolve_target_state (record {
        actor = actor;
        operation = Operation.«open»;
        target = target;
        subscriber_id = subscriber_id;
      })
      >>= λ state. (rest >>= λ states. return (state ∷ states))

  unfoldable pub open_targets : Actor → Option OpenRequest → Op S OpenResponse
  unfolding resolve_subscriber validate_targets open_each
  open_targets actor request = not_nil "open request is required" request λ req.
      resolve_subscriber actor req.subscriber_id >>= λ subscriber_id.
      (validate_targets req.targets
        >> (open_each actor subscriber_id req.targets >>= λ states.
            return (record { targets = states })))

  -- What ResolveSubscribeTargets makes of one target: its state, or its rejection.
  unfoldable pub joined :
      SyncTarget
      → Result TargetState
      → List TargetState × List TargetRejection
      → List TargetState × List TargetRejection
  unfolding rejection
  joined target (done state) (states, rejections) = (state ∷ states, rejections)
  joined target (failed err) (states, rejections) = (states, rejection target err ∷ rejections)

  unfoldable pub resolve_each :
      Actor → String → List SyncTarget → Op S (List TargetState × List TargetRejection)
  unfolding resolve_target_state joined
  resolve_each actor subscriber_id [] = return ([], [])
  resolve_each actor subscriber_id (target ∷ targets) =
      let rest = resolve_each actor subscriber_id targets in
      handle
        (resolve_target_state (record {
          actor = actor;
          operation = Operation.subscribe;
          target = target;
          subscriber_id = subscriber_id;
        }))
        (λ r. rest >>= λ others. return (joined target r others))

  unfoldable pub resolve_subscribe_targets :
      Actor → String → List SyncTarget → Op S (List TargetState × List TargetRejection)
  unfolding resolve_subscriber resolve_each
  resolve_subscribe_targets actor requested targets =
      resolve_subscriber actor requested >>= λ subscriber_id.
      resolve_each actor subscriber_id targets

  unfoldable pub result_for :
      Asking Actor → TargetState → StreamBinding → CatchUpResult → Op S GatewayCatchUpResult
  unfolding gateway_batch to_pb_catch_up_status
  result_for ask state binding result = elim result.status [
    | CatchUpStatus.ok ↦ gateway_batch e.hooks ask binding result.batch >>= λ batch.
        return (record {
          target = some ask.target;
          status = PbStatus.ok;
          batch = some batch;
          state = some state;
          binding_key = binding.binding_key;
        })
    | status ↦ return (record {
      target = some ask.target;
      status = to_pb_catch_up_status status;
      batch = none;
      state = some state;
      binding_key = binding.binding_key;
    })
  ]

  -- The loop of catchUp over the bindings of a target.
  unfoldable pub catch_up_bindings :
      Asking Actor → ℕ → ℕ → TargetState → List StreamBinding → Op S (List GatewayCatchUpResult)
  unfolding result_for Log.catch_up
  catch_up_bindings ask limit total_limit state [] = return []
  catch_up_bindings ask limit total_limit state (binding ∷ bindings) =
      let rest = catch_up_bindings ask limit total_limit state bindings in
      Log.catch_up e.core (record {
        subscriber_id = ask.subscriber_id;
        stream_id = binding.stream_id;
        limit = pos limit;
        total_limit = pos total_limit;
      })
      >>= λ result.
          (result_for ask state binding result >>= λ mine.
          (rest >>= λ others. return (mine ∷ others)))

  unfoldable pub catch_up_target : Asking Actor → ℕ → ℕ → Op S (List GatewayCatchUpResult)
  unfolding authorized_bindings target_state catch_up_bindings
  catch_up_target ask limit total_limit = authorized_bindings ask >>= λ bindings.
      (target_state e.core ask.subscriber_id ask.target bindings >>= λ state.
      catch_up_bindings ask limit total_limit state bindings)

  -- The loop of catchUp over the targets.
  unfoldable pub catch_up_each :
      Actor → String → Operation → ℕ → ℕ → List SyncTarget → Op S (List GatewayCatchUpResult)
  unfolding catch_up_target
  catch_up_each actor subscriber_id operation limit total_limit [] = return []
  catch_up_each actor subscriber_id operation limit total_limit (target ∷ targets) =
      let rest = catch_up_each actor subscriber_id operation limit total_limit targets in
      catch_up_target
        (record {
          actor = actor;
          operation = operation;
          target = target;
          subscriber_id = subscriber_id;
        })
        limit total_limit
      >>= λ results. (rest >>= λ others. return (results ++ others))

  unfoldable pub catch_up :
      Actor → String → List SyncTarget → ℕ → ℕ → Operation → Op S GatewayCatchUpResponse
  unfolding resolve_subscriber validate_targets catch_up_each
  catch_up actor requested targets limit total_limit operation =
      resolve_subscriber actor requested >>= λ subscriber_id.
      (validate_targets targets
        >> (catch_up_each actor subscriber_id operation limit total_limit targets >>= λ results.
            return (record { results = results })))

  unfoldable pub gateway_catch_up :
      Actor → Option GatewayCatchUpRequest → Op S GatewayCatchUpResponse
  unfolding catch_up
  gateway_catch_up actor request = not_nil "catch-up request is required" request λ req.
      catch_up actor req.subscriber_id req.targets req.limit_per_target req.total_limit_per_target
        Operation.catch_up

  abbrev pub subscribe_response : GatewayCatchUpResult → GatewaySubscribeResponse
  subscribe_response result = record {
    status = result.status;
    batch = result.batch;
    state = result.state;
    heartbeat = false;
    server_time_unix_ms = pos 0;
    binding_key = result.binding_key;
  }

  unfoldable pub subscribe_responses : List GatewayCatchUpResult → List GatewaySubscribeResponse
  subscribe_responses [] = []
  subscribe_responses (r ∷ rs) = subscribe_response r ∷ subscribe_responses rs

  unfoldable pub gateway_subscribe_poll :
      Actor → Option GatewaySubscribeRequest → Op S (List GatewaySubscribeResponse)
  unfolding catch_up subscribe_responses
  gateway_subscribe_poll actor request = not_nil "subscribe request is required" request λ req.
      catch_up actor req.subscriber_id req.targets req.batch_limit_per_target 0 Operation.subscribe
      >>= λ response. return (subscribe_responses response.results)
