-- ===== src/Gateway/Adding.antt =====
-- What Engine.ResolveSubscribeTargets of pkg/gateway/engine.go answers for each target.
use synclog.Prelude.{◌≡◌, refl, sym, ap, ◌∙◌, String, List, [], ◌∷◌, some, inl, inr, arith}
use synclog.Protocol.Gateway.{SyncTarget, TargetState, TargetRejection}
use synclog.Log.Result.{
  error_text, Op, Result, done, failed, Failure, Result-cases, proceed, return, ◌>>=◌,
}
use synclog.Log.Types.{SubscriberCursor}
use synclog.Log.Engine as Log
use synclog.Gateway.Types.{StreamBinding}
use synclog.Gateway.Bindings.{rejection_code}
use synclog.Gateway.State.{
  Gathered, gather, gather_bindings, target_state, binding_state, nothing_gathered,
}
use synclog.Gateway.Engine.{
  Engine, resolve_each, joined, rejection, authorized_bindings, resolve_target_state,
  resolve_subscribe_targets, resolve_subscriber,
}
use synclog.Gateway.Waiting.{asking}
use synclog.Gateway.Watching.{Subscribes, authorized_bindings-Subscribes}
use synclog.Gateway.Passing.{proceed_done}

module _ {S Actor : Type 0} (e : Engine S Actor) where
  gather_bindings-target :
      (subscriber_id : String) (bindings : List StreamBinding) (g : Gathered) (s s' : S)
      (state : TargetState)
      → gather_bindings e.core subscriber_id bindings g s ≡ (done state, s')
      → state.target ≡ g.state.target
  unfolding gather_bindings gather
  gather_bindings-target subscriber_id [] g s s' state h =
      let same : g.state ≡ state = ground (arith, ap (λ r. r.0) h) in ap (λ t. t.target) (sym same)
  gather_bindings-target subscriber_id (binding ∷ bindings) g s s' state h =
      let heads : SubscriberCursor → Op S TargetState = λ cursor.
        Log.get_head e.core binding.stream_id >>= λ head.
        gather_bindings e.core subscriber_id bindings
          (gather g (binding_state binding cursor head)) in
      let (cursor, s1, one, h1) =
        proceed_done (Log.get_cursor e.core subscriber_id binding.stream_id) heads s s' state h in
      let (head, s2, two, h2) =
        proceed_done (Log.get_head e.core binding.stream_id)
          (λ head.
            gather_bindings e.core subscriber_id bindings
              (gather g (binding_state binding cursor head)))
          s1 s' state h1 in
      gather_bindings-target subscriber_id bindings (gather g (binding_state binding cursor head))
        s2 s' state h2

  module _ (actor : Actor) (subscriber_id : String) where
    -- The answers to targets, one for each in its place, from a state to a state: a state that
    -- names the target, for whose subscription the actor was authorized; or a rejection that names
    -- it, with the code and the text of the error that resolving it gave.
    pub data Answered
        : S → List SyncTarget → List TargetState → List TargetRejection → S → Type 0 where
      no_more : (s : S) → Answered s [] [] [] s
      accepted :
          (s s1 s2 : S) (target : SyncTarget) (state : TargetState) (targets : List SyncTarget)
          (states : List TargetState) (rejections : List TargetRejection)
          → resolve_target_state e (asking e actor subscriber_id target) s ≡ (done state, s1)
          → state.target ≡ some target
          → Subscribes e actor subscriber_id target
          → Answered s1 targets states rejections s2
          → Answered s (target ∷ targets) (state ∷ states) rejections s2
      rejected :
          (s s1 s2 : S) (target : SyncTarget) (err : Failure) (r : TargetRejection)
          (targets : List SyncTarget) (states : List TargetState)
          (rejections : List TargetRejection)
          → resolve_target_state e (asking e actor subscriber_id target) s ≡ (failed err, s1)
          → r.target ≡ some target
          → r.code ≡ rejection_code err
          → r.message ≡ error_text err
          → Answered s1 targets states rejections s2
          → Answered s (target ∷ targets) states (r ∷ rejections) s2

    accepted_target :
        (target : SyncTarget) (s s' : S) (state : TargetState)
        → resolve_target_state e (asking e actor subscriber_id target) s ≡ (done state, s')
        → (state.target ≡ some target) × Subscribes e actor subscriber_id target
    unfolding resolve_target_state target_state nothing_gathered
    accepted_target target s s' state h =
        let (bindings, s1, allowed, h1) =
          proceed_done (authorized_bindings e (asking e actor subscriber_id target))
            (λ bindings. target_state e.core subscriber_id target bindings) s s' state h in
        (
          gather_bindings-target subscriber_id bindings (nothing_gathered target) s1 s' state h1,
          authorized_bindings-Subscribes e actor subscriber_id target s s1 bindings allowed,
        )

    resolve_each-Answered :
        (targets : List SyncTarget) (s : S)
        → (states : List TargetState) × (rejections : List TargetRejection) × (s' : S)
          × (resolve_each e actor subscriber_id targets s ≡ (done (states, rejections), s'))
          × Answered s targets states rejections s'
    unfolding resolve_each joined rejection
    resolve_each-Answered [] s = ([], [], s, refl, no_more s)
    resolve_each-Answered (target ∷ targets) s =
        let one = resolve_target_state e (asking e actor subscriber_id target) s in
        let (states, rejections, s', ran, rest) = resolve_each-Answered targets one.1 in
        let joins : (r : Result TargetState)
            → proceed (resolve_each e actor subscriber_id targets one.1).0
                (λ others. return (joined e target r others))
                (resolve_each e actor subscriber_id targets one.1).1
              ≡ (done (joined e target r (states, rejections)), s') =
          λ r. ap (λ p. proceed p.0 (λ others. return (joined e target r others)) p.1) ran in
        elim (Result-cases one.0) [
          | inl (state, ok) ↦
              let found : one ≡ (done state, one.1) = ap (λ r. (r, one.1)) ok in
              let (named, allowed) = accepted_target target s one.1 state found in
              (
                state ∷ states,
                rejections,
                s',
                joins one.0 ∙ ap (λ r. (done (joined e target r (states, rejections)), s')) ok,
                accepted s one.1 s' target state targets states rejections found named allowed rest,
              )
          | inr (err, stopped) ↦ (
            states,
            rejection target err ∷ rejections,
            s',
            joins one.0 ∙ ap (λ r. (done (joined e target r (states, rejections)), s')) stopped,
            rejected s one.1 s' target err (rejection target err) targets states rejections
                (ap (λ r. (r, one.1)) stopped) refl refl refl rest,
          )
        ]

  -- Adding targets to a live subscription never fails for a target: once the subscriber resolves,
  -- the call succeeds, and it answers each target in its place. A target that resolves, and for
  -- which the actor is authorized, gets a state that names it; any other gets a rejection that names
  -- it, with the code and the text of its error; and those behind it are resolved all the same.
  pub resolve_subscribe_targets-Answered :
      (actor : Actor) (requested subscriber_id : String) (targets : List SyncTarget) (s s1 : S)
      → resolve_subscriber e actor requested s ≡ (done subscriber_id, s1)
      → (states : List TargetState) × (rejections : List TargetRejection) × (s' : S)
        × (resolve_subscribe_targets e actor requested targets s ≡ (done (states, rejections), s'))
        × Answered actor subscriber_id s1 targets states rejections s'
  unfolding resolve_subscribe_targets
  resolve_subscribe_targets-Answered actor requested subscriber_id targets s s1 h =
      let (states, rejections, s', ran, each) =
        resolve_each-Answered actor subscriber_id targets s1 in
      (states, rejections, s', rw h ran, each)
