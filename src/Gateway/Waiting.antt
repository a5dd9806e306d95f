-- ===== src/Gateway/Waiting.antt =====
-- pkg/gateway/engine.go: Engine.WaitGatewaySubscribe up to its wait, and what it waits for. Its
-- goroutines and its timer are not modelled.
use synclog.Prelude.{ℕ, String, Bool, List, [], ◌∷◌, ◌++◌, Option, none, some, if◌then◌else◌, ltb}
use synclog.Prelude.Text.{◌+++◌}
use synclog.GoMap.{GoMap, get, string_key}
use synclog.Protocol.Gateway.{SyncTarget, GatewaySubscribeRequest}
use synclog.Log.Result.{Op, return, invalid, not_nil, ◌>>=◌, ◌>>◌}
use synclog.Log.Engine as Log
use synclog.Gateway.Types.{StreamBinding, Operation}
use synclog.Gateway.Bindings.{validate_targets}
use synclog.Gateway.Batch.{Asking}
use synclog.Gateway.Engine.{Engine, resolve_subscriber, authorized_bindings}

-- The wait: for the time to pass only, for nothing, or for one of the streams, each to have events
-- above a seq.
pub data Waiting : Type 0 where
  for_time for_nothing : Waiting
  for_streams : List (String × ℕ) → Waiting

unfoldable pub target_key : SyncTarget → String
target_key target = target.namespace +++ "/" +++ target.id +++ "/" +++ target.view

unfoldable pub target_binding_key : SyncTarget → String → String
unfolding target_key
target_binding_key target binding_key = target_key target +++ "#" +++ binding_key

-- `after[key]`
unfoldable pub seq_after : GoMap String ℕ → String → ℕ
seq_after after key = elim (get key after) [ none ↦ 0 | some seq ↦ seq ]

unfoldable pub with_watches :
    List (String × ℕ) → Option (List (String × ℕ)) → Option (List (String × ℕ))
with_watches ws none = none
with_watches ws (some more) = some (ws ++ more)

-- Behind the loop over the targets.
unfoldable pub wait_answer : {S : Type 0} → Option (List (String × ℕ)) → Op S Waiting
wait_answer none = return for_nothing
wait_answer (some []) = invalid "at least one target binding is required"
wait_answer (some (w ∷ ws)) = return (for_streams (w ∷ ws))

module _ {S Actor : Type 0} (e : Engine S Actor) where
  abbrev pub asking : Actor → String → SyncTarget → Asking Actor
  asking actor subscriber_id target = record {
    actor = actor;
    operation = Operation.subscribe;
    target = target;
    subscriber_id = subscriber_id;
  }

  -- The loop over the targets where there is no watcher.
  unfoldable pub allow_each : Actor → String → List SyncTarget → Op S (Unit {0})
  unfolding authorized_bindings
  allow_each actor subscriber_id [] = return tt
  allow_each actor subscriber_id (target ∷ targets) =
      let rest = allow_each actor subscriber_id targets in
      authorized_bindings e (asking actor subscriber_id target) >> rest

  -- The loop over the bindings of a target: `none` where a head is past its seq already.
  unfoldable pub watch_bindings :
      SyncTarget → GoMap String ℕ → List StreamBinding → Op S (Option (List (String × ℕ)))
  unfolding target_binding_key seq_after with_watches
  watch_bindings target after [] = return (some [])
  watch_bindings target after (binding ∷ bindings) =
      let rest = watch_bindings target after bindings in
      let seq = seq_after after (target_binding_key target binding.binding_key) in
      Log.get_head e.core binding.stream_id >>= λ head.
      if ltb seq head.cursor.seq
      then return none
      else rest >>= λ more. return (with_watches ((binding.stream_id, seq) ∷ []) more)

  unfoldable pub watch_targets :
      Actor → String → GoMap String ℕ → List SyncTarget → Op S (Option (List (String × ℕ)))
  unfolding watch_bindings authorized_bindings with_watches
  watch_targets actor subscriber_id after [] = return (some [])
  watch_targets actor subscriber_id after (target ∷ targets) =
      let rest = watch_targets actor subscriber_id after targets in
      authorized_bindings e (asking actor subscriber_id target) >>= λ bindings.
      watch_bindings target after bindings >>= λ watches. elim watches [
        | none ↦ return none
        | some ws ↦ rest >>= λ more. return (with_watches ws more)
      ]

  -- `has_watcher`: WithStreamWatcher has set one.
  unfoldable pub wait_gateway_subscribe :
      Bool → Actor → Option GatewaySubscribeRequest → GoMap String ℕ → Op S Waiting
  unfolding resolve_subscriber validate_targets allow_each watch_targets wait_answer
  wait_gateway_subscribe has_watcher actor request after =
      not_nil "subscribe request is required" request λ req.
        resolve_subscriber e actor req.subscriber_id >>= λ subscriber_id.
        validate_targets req.targets
        >> (if has_watcher
            then watch_targets actor subscriber_id after req.targets >>= wait_answer
            else allow_each actor subscriber_id req.targets >> return for_time)
