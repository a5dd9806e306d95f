-- ===== src/Gateway/Answers.antt =====
-- How the calls of pkg/gateway/engine.go answer where a target is bad or the actor is refused.
use synclog.Prelude.{◌≡◌, refl, sym, ap, ◌∙◌, String, Option, none, some}
use synclog.Protocol.Gateway.{GatewayAckRequest}
use synclog.Log.Result.{
  Op, Result, done, failed, Failure, proceed, invalid_error, not_nil, from_result, return, ◌>>=◌,
  ◌>>◌,
}
use synclog.Gateway.Types.{Operation, AuthRequest}
use synclog.Gateway.Bindings.{resolve_bindings, select_binding, validate_target}
use synclog.Gateway.Batch.{Asking, auth_request}
use synclog.Gateway.Engine.{Engine, resolve_subscriber}
use synclog.Gateway.Calls.{selected, gateway_ack, ack_binding}

-- Two calls that fail alike in every state.
abbrev FailAlike : {S A : Type 0} → Op S A → Op S A → Type 0
FailAlike {S} m n = (s : S) → (m s ≡ n s) × ((err : Failure) × ((m s).0 ≡ failed err))

proceed-failed :
    {S A B : Type 0} (r : Result A) (f : A → Op S B) (s : S) (err : Failure)
    → r ≡ failed err
    → proceed r f s ≡ (failed err, s)
proceed-failed r f s err h = ap (λ q. proceed q f s) h

-- Behind a call of its own, whatever it does.
after-FailAlike :
    {S A B : Type 0} (m : Op S A) (f g : A → Op S B)
    → ((a : A) → FailAlike (f a) (g a))
    → FailAlike (m >>= f) (m >>= g)
after-FailAlike m f g h s = go (m s).0 (m s).1
  where
    go :
        (r : Result _) (s' : _)
        → (proceed r f s' ≡ proceed r g s') × ((err : Failure) × ((proceed r f s').0 ≡ failed err))
    go (done a) s' = h a s'
    go (failed err) s' = (refl, (err, refl))

before-FailAlike :
    {S A B : Type 0} (m n : Op S A) (f g : A → Op S B)
    → FailAlike m n
    → FailAlike (m >>= f) (n >>= g)
before-FailAlike m n f g h s =
    let (same, (err, no_result)) = h s in
    let left = proceed-failed (m s).0 f (m s).1 err no_result in
    let right = proceed-failed (n s).0 g (n s).1 err (sym (ap (λ p. p.0) same) ∙ no_result) in
    (left ∙ ap (λ p. (failed err, p.1)) same ∙ sym right, (err, ap (λ p. p.0) left))

not_nil-FailAlike :
    {S A B : Type 0} (message : String) (o : Option B) (f g : B → Op S A)
    → ((b : B) → FailAlike (f b) (g b))
    → FailAlike (not_nil message o f) (not_nil message o g)
not_nil-FailAlike message none f g h s = (refl, (invalid_error message, refl))
not_nil-FailAlike message (some b) f g h s = h b s

module _ {S Actor : Type 0} (e : Engine S Actor) where
  -- The authorizer refuses whatever it is asked.
  abbrev pub Refuses : Type 0
  Refuses =
      (r : AuthRequest Actor) (s : S)
      → (err : Failure) × (s' : S) × (e.hooks.authorize r s ≡ (failed err, s'))

  refused-FailAlike :
      {A : Type 0} (r : AuthRequest Actor) (m n : Op S A)
      → Refuses
      → FailAlike (e.hooks.authorize r >> m) (e.hooks.authorize r >> n)
  refused-FailAlike r m n refuses s =
      let (err, s', refused) = refuses r s in
      (
        ap (λ p. proceed p.0 (λ _. m) p.1) refused
            ∙ sym (ap (λ p. proceed p.0 (λ _. n) p.1) refused),
        (err, ap (λ p. (proceed p.0 (λ _. m) p.1).0) refused),
      )

  selected-FailAlike :
      (ask : Asking Actor) (type key key' : String)
      → Refuses
      → FailAlike (selected e ask type key) (selected e ask type key')
  unfolding selected
  selected-FailAlike ask type key key' refuses =
      after-FailAlike (resolve_bindings e.hooks ask.actor ask.target) _ _ λ bindings.
        refused-FailAlike (auth_request ask type)
          (from_result (select_binding bindings key) >>= λ binding. return (bindings, binding))
          (from_result (select_binding bindings key') >>= λ binding. return (bindings, binding))
          refuses

  -- Where the authorizer refuses whatever it is asked, an ack fails, and with the same error and
  -- the same state whichever binding key it names.
  pub gateway_ack-refused :
      (actor : Actor) (req : GatewayAckRequest) (key : String) (s : S)
      → Refuses
      → (gateway_ack e actor (some req) s
          ≡ gateway_ack e actor (some (record req { binding_key = key })) s)
        × ((err : Failure) × ((gateway_ack e actor (some req) s).0 ≡ failed err))
  unfolding gateway_ack
  gateway_ack-refused actor req key s refuses =
      after-FailAlike (resolve_subscriber e actor req.subscriber_id) _ _
        (λ subscriber_id. not_nil-FailAlike "target is required" req.target _ _ λ target.
          let ask : Asking Actor = record {
            actor = actor;
            operation = Operation.ack;
            target = target;
            subscriber_id = subscriber_id;
          } in
          after-FailAlike (validate_target target) _ _ λ _.
            before-FailAlike (selected e ask "" req.binding_key) (selected e ask "" key)
              (ack_binding e ask req) (ack_binding e ask (record req { binding_key = key }))
              (selected-FailAlike ask "" req.binding_key key refuses))
        s
