-- ===== src/Gateway/Watching.antt =====
-- What Engine.WaitGatewaySubscribe of pkg/gateway/engine.go waits for.
use synclog.Prelude.{
  ℕ, ◌≤◌, ◌≡◌, ◌≢◌, refl, sym, ap, ◌∙◌, subst, String, Bool, true, List, [], ◌∷◌, Option, none,
  some, arith, if◌then◌else◌, ltb, Bool-cases, Option-cases, inl, inr, All, All-append,
}
use synclog.GoMap.{GoMap, string_key}
use synclog.Protocol.Gateway.{SyncTarget, GatewaySubscribeRequest}
use synclog.Log.Types.{StreamHead}
use synclog.Log.Result.{Op, Result, done, return, ◌>>=◌, ◌>>◌}
use synclog.Log.Engine as Log
use synclog.Gateway.Types.{StreamBinding}
use synclog.Gateway.Bindings.{validate_targets, resolve_bindings}
use synclog.Gateway.Batch.{auth_request}
use synclog.Gateway.Engine.{Engine, resolve_subscriber, authorized_bindings}
use synclog.Gateway.Waiting.{
  Waiting, for_time, for_nothing, for_streams, asking, watch_bindings, watch_targets, wait_answer,
  wait_gateway_subscribe, seq_after, target_binding_key, with_watches, allow_each,
}
use synclog.Gateway.Passing.{Succeeded, proceed_done, failed-not_done}

none-not_some :
    (ws : List (String × ℕ))
    → ◌≡◌ {A = Result (Option (List (String × ℕ)))} (done none) (done (some ws))
    → ⊥
none-not_some ws h = cc h

nothing-not_streams :
    (ws : List (String × ℕ))
    → ◌≡◌ {A = Result Waiting} (done for_nothing) (done (for_streams ws))
    → ⊥
nothing-not_streams ws h = cc h

time-not_streams :
    (ws : List (String × ℕ)) → ◌≡◌ {A = Result Waiting} (done for_time) (done (for_streams ws)) → ⊥
time-not_streams ws h = cc h

module _ {S Actor : Type 0} (e : Engine S Actor) where
  -- The stream's head was looked at, and was not above the seq.
  abbrev pub Seen : String × ℕ → Type 0
  Seen w =
      (s : S) × (head : StreamHead) × (s' : S) × (Log.get_head e.core w.0 s ≡ (done head, s'))
      × (head.cursor.seq ≤ w.1)

  abbrev pub SeenAll : Option (List (String × ℕ)) → Type 0
  SeenAll none = Unit
  SeenAll (some ws) = All Seen ws

  with_watches-SeenAll :
      (ws : List (String × ℕ)) (o : Option (List (String × ℕ)))
      → All Seen ws
      → SeenAll o
      → SeenAll (with_watches ws o)
  unfolding with_watches
  with_watches-SeenAll ws none h k = tt
  with_watches-SeenAll ws (some more) h k = All-append Seen ws more h k

  returned :
      {A : Type 0} (P : A → Type 0) (a b : A) (s s' : S) → return a s ≡ (done b, s') → P a → P b
  returned P a b s s' h p = subst P (ground (arith, ap (λ r. r.0) h)) p

  watch_bindings-SeenAll :
      (target : SyncTarget) (after : GoMap String ℕ) (bindings : List StreamBinding) (s s' : S)
      (o : Option (List (String × ℕ)))
      → watch_bindings e target after bindings s ≡ (done o, s')
      → SeenAll o
  unfolding watch_bindings
  watch_bindings-SeenAll target after [] s s' o h = returned SeenAll (some []) o s s' h tt
  watch_bindings-SeenAll target after (binding ∷ bindings) s s' o h =
      let seq = seq_after after (target_binding_key target binding.binding_key) in
      let rest = watch_bindings e target after bindings in
      let answers : Option (List (String × ℕ)) → Op S (Option (List (String × ℕ))) =
        λ more. return (with_watches ((binding.stream_id, seq) ∷ []) more) in
      let (head, s1, looked, h1) =
        proceed_done (Log.get_head e.core binding.stream_id)
          (λ head. if ltb seq head.cursor.seq then return none else rest >>= answers) s s' o h in
      elim (Bool-cases (ltb seq head.cursor.seq)) [
        | inl past ↦ returned SeenAll none o s1 s' (sym (rw past refl) ∙ h1) tt
        | inr waits ↦
            let (more, s2, ran, h2) =
              proceed_done rest answers s1 s' o (sym (rw waits refl) ∙ h1) in
            returned SeenAll (with_watches ((binding.stream_id, seq) ∷ []) more) o s2 s' h2 (
              with_watches-SeenAll ((binding.stream_id, seq) ∷ []) more
                ((s, head, s1, looked, ground (arith, waits)), tt)
                (watch_bindings-SeenAll target after bindings s1 s2 more ran))
      ]

  -- The actor was authorized to subscribe to the target.
  abbrev pub Subscribes : Actor → String → SyncTarget → Type 0
  Subscribes actor subscriber_id target =
      Succeeded (e.hooks.authorize (auth_request (asking e actor subscriber_id target) ""))

  pub authorized_bindings-Subscribes :
      (actor : Actor) (subscriber_id : String) (target : SyncTarget) (s s' : S)
      (bindings : List StreamBinding)
      → authorized_bindings e (asking e actor subscriber_id target) s ≡ (done bindings, s')
      → Subscribes actor subscriber_id target
  unfolding authorized_bindings
  authorized_bindings-Subscribes actor subscriber_id target s s' bindings h =
      let authorizes = e.hooks.authorize (auth_request (asking e actor subscriber_id target) "") in
      let (resolved, s1, found, h1) =
        proceed_done (resolve_bindings e.hooks actor target)
          (λ bindings. authorizes >> return bindings) s s' bindings h in
      let (u, s2, allowed, h2) = proceed_done authorizes (λ _. return resolved) s1 s' bindings h1 in
      (s1, u, s2, allowed)

  joined-SeenAll :
      (P : Type 0) (rest : Op S (Option (List (String × ℕ)))) (watches : Option (List (String × ℕ)))
      (s s' : S) (ws : List (String × ℕ))
      → ((s1 s2 : S) (more : List (String × ℕ))
          → rest s1 ≡ (done (some more), s2)
          → All Seen more × P)
      → SeenAll watches
      → ◌≡◌ {A = Result (Option (List (String × ℕ))) × S}
          ((elim watches as (λ _. Op S (Option (List (String × ℕ)))) [
            | none ↦ return none
            | some seen ↦ rest >>= λ more. return (with_watches seen more)
          ])
            s)
          (done (some ws), s')
      → All Seen ws × P
  unfolding with_watches
  joined-SeenAll P rest none s s' ws others seen h = absurd (none-not_some ws (ap (λ r. r.0) h))
  joined-SeenAll P rest (some first) s s' ws others seen h =
      let answers : Option (List (String × ℕ)) → Op S (Option (List (String × ℕ))) =
        λ more. return (with_watches first more) in
      let (o, s1, ran, h1) = proceed_done rest answers s s' (some ws) h in
      elim (Option-cases o) [
        | inl nothing ↦ absurd (
            none-not_some ws
              (sym (ap (λ m. done (with_watches first m)) nothing) ∙ ap (λ r. r.0) h1))
        | inr (more, others_too) ↦
            let (found, p) = others s s1 more (ran ∙ ap (λ m. (done m, s1)) others_too) in
            (
              returned SeenAll (with_watches first o) (some ws) s1 s' h1
                  (with_watches-SeenAll first o seen (subst SeenAll (sym others_too) found)),
              p,
            )
      ]

  watch_targets-SeenAll :
      (actor : Actor) (subscriber_id : String) (after : GoMap String ℕ) (targets : List SyncTarget)
      (s s' : S) (ws : List (String × ℕ))
      → watch_targets e actor subscriber_id after targets s ≡ (done (some ws), s')
      → All Seen ws × All (Subscribes actor subscriber_id) targets
  unfolding watch_targets
  watch_targets-SeenAll actor subscriber_id after [] s s' ws h =
      (returned SeenAll (some []) (some ws) s s' h tt, tt)
  watch_targets-SeenAll actor subscriber_id after (target ∷ targets) s s' ws h =
      let rest = watch_targets e actor subscriber_id after targets in
      let goes_on : Option (List (String × ℕ)) → Op S (Option (List (String × ℕ))) = λ watches.
        elim watches [
          | none ↦ return none
          | some seen ↦ rest >>= λ more. return (with_watches seen more)
        ] in
      let (bindings, s1, allowed, h1) =
        proceed_done (authorized_bindings e (asking e actor subscriber_id target))
          (λ bindings. watch_bindings e target after bindings >>= goes_on) s s' (some ws) h in
      let (watches, s2, watched, h2) =
        proceed_done (watch_bindings e target after bindings) goes_on s1 s' (some ws) h1 in
      let (seen, subscribed) =
        joined-SeenAll (All (Subscribes actor subscriber_id) targets) rest watches s2 s' ws
          (watch_targets-SeenAll actor subscriber_id after targets)
          (watch_bindings-SeenAll target after bindings s1 s2 watches watched) h2 in
      (
        seen,
        (
          authorized_bindings-Subscribes actor subscriber_id target s s1 bindings allowed,
          subscribed,
        ),
      )

  wait_answer-Seen :
      (o : Option (List (String × ℕ))) (s s' : S) (ws : List (String × ℕ))
      → wait_answer o s ≡ (done (for_streams ws), s')
      → (o ≡ some ws) × (ws ≢ [])
  unfolding wait_answer
  wait_answer-Seen none s s' ws h = absurd (nothing-not_streams ws (ap (λ r. r.0) h))
  wait_answer-Seen (some []) s s' ws h = absurd (failed-not_done _ s (for_streams ws) s' h)
  wait_answer-Seen (some (w ∷ more)) s s' ws h =
      let same : w ∷ more ≡ ws = ground (arith, ap (λ r. r.0) h) in
      (ap some same, λ empty. ground (arith, same ∙ empty))

  -- A wait that the gateway begins for streams: the subscriber was resolved, the actor was
  -- authorized for each target that it names, and it waits for at least one stream, each of which
  -- had no event above its seq when its head was looked at.
  pub wait_gateway_subscribe-Seen :
      (has_watcher : Bool) (actor : Actor) (req : GatewaySubscribeRequest) (after : GoMap String ℕ)
      (s s' : S) (ws : List (String × ℕ))
      → wait_gateway_subscribe e has_watcher actor (some req) after s ≡ (done (for_streams ws), s')
      → (has_watcher ≡ true)
        × (ws ≢ [])
        × All Seen ws
        × ((subscriber_id : String) × (s1 : S) × (resolve_subscriber e actor req.subscriber_id s
              ≡ (done subscriber_id, s1))
            × All (Subscribes actor subscriber_id) req.targets)
  unfolding wait_gateway_subscribe
  wait_gateway_subscribe-Seen has_watcher actor req after s s' ws h =
      let checks : Op S (Unit {0}) = validate_targets req.targets in
      let waits : Bool → String → Op S Waiting = λ watched. λ subscriber_id.
        if watched
        then watch_targets e actor subscriber_id after req.targets >>= wait_answer
        else allow_each e actor subscriber_id req.targets >> return for_time in
      let (subscriber_id, s1, resolved, h1) =
        proceed_done (resolve_subscriber e actor req.subscriber_id)
          (λ subscriber_id. checks >> waits has_watcher subscriber_id) s s' (for_streams ws) h in
      let (u, s2, valid, h2) =
        proceed_done checks (λ _. waits has_watcher subscriber_id) s1 s' (for_streams ws) h1 in
      elim (Bool-cases has_watcher) [
        | inl has ↦
            let (o, s3, ran, h3) =
              proceed_done (watch_targets e actor subscriber_id after req.targets) wait_answer s2 s'
                (for_streams ws) (sym (ap (λ b. waits b subscriber_id s2) has) ∙ h2) in
            let (same, some_stream) = wait_answer-Seen o s3 s' ws h3 in
            let (seen, subscribed) =
              watch_targets-SeenAll actor subscriber_id after req.targets s2 s3 ws
                (ran ∙ ap (λ m. (done m, s3)) same) in
            (has, some_stream, seen, (subscriber_id, s1, resolved, subscribed))
        | inr hasnt ↦
            let (v, s3, ran, h3) =
              proceed_done (allow_each e actor subscriber_id req.targets) (λ _. return for_time) s2
                s' (for_streams ws) (sym (ap (λ b. waits b subscriber_id s2) hasnt) ∙ h2) in
            absurd (time-not_streams ws (ap (λ r. r.0) h3))
      ]
