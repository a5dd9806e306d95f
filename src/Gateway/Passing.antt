-- ===== src/Gateway/Passing.antt =====
-- What leaves the gateway of pkg/gateway/engine.go, and whom it answers.
use synclog.Prelude.{
  ◌≡◌, refl, sym, ap, ◌∙◌, subst, String, true, List, [], ◌∷◌, map, some, arith, if◌then◌else◌,
  is_empty, ◌||◌, Bool-cases, inl, inr, All,
}
use synclog.Protocol.Gateway.{GatewayEvent, GatewayBatch}
use synclog.Log.Types.{Event, EventBatch}
use synclog.Log.Result.{
  Op, Result, done, failed, Failure, proceed, return, Result-cases, ◌>>=◌, ◌>>◌, invalid,
  invalid_error,
}
use synclog.Gateway.Types.{StreamBinding, Hooks}
use synclog.Gateway.Bindings.{is_allowed, require_allowed_type}
use synclog.Gateway.Batch.{
  Asking, auth_request, check_event, gateway_event, gateway_events, gateway_batch,
}

-- The call succeeded, in some state.
abbrev pub Succeeded : {S A : Type 0} → Op S A → Type 0
Succeeded {S} {A} m = (s : S) × (a : A) × (s' : S) × (m s ≡ (done a, s'))

pub failed-not_done :
    {S A : Type 0} (e : Failure) (s : S) (a : A) (s' : S)
    → ◌≡◌ {A = Result A × S} (failed e, s) (done a, s')
    → ⊥
failed-not_done e s a s' h = cc (ap (λ p. p.0) h)

-- A call that succeeded came through both of its steps.
pub proceed_done :
    {S A B : Type 0} (m : Op S A) (f : A → Op S B) (s s' : S) (b : B)
    → (m >>= f) s ≡ (done b, s')
    → (a : A) × (s'' : S) × (m s ≡ (done a, s'')) × (f a s'' ≡ (done b, s'))
proceed_done m f s s' b h = elim (Result-cases (m s).0) [
  | inl (a, ok) ↦
      (a, (m s).1, ap (λ r. (r, (m s).1)) ok, sym (ap (λ r. proceed r f (m s).1) ok) ∙ h)
  | inr (e, stopped) ↦
      absurd (failed-not_done e (m s).1 b s' (sym (ap (λ r. proceed r f (m s).1) stopped) ∙ h))
]

module _ {S Actor : Type 0} (hooks : Hooks S Actor) (ask : Asking Actor)
    (binding : StreamBinding) where
  -- What a client may see of an event: its type is one of the binding's, where it names any; the
  -- actor was authorized for the type; the policy allowed it; and there is a codec for it.
  abbrev pub Permitted : GatewayEvent → Type 0
  Permitted e =
      ((is_empty binding.payload_types || is_allowed binding.payload_types e.payload_type) ≡ true)
      × Succeeded (hooks.authorize (auth_request ask e.payload_type))
      × Succeeded (hooks.allow_payload ask.actor ask.target e.payload_type)
      × (hooks.can_decode e.payload_type e.payload_version ≡ true)

  allowed_done :
      (type : String) (s s' : S) (u : Unit {0})
      → require_allowed_type binding.payload_types type "payload" s ≡ (done u, s')
      → (is_empty binding.payload_types || is_allowed binding.payload_types type) ≡ true
  unfolding require_allowed_type
  allowed_done type s s' u h = elim (Bool-cases (is_empty binding.payload_types)) [
    | inl any ↦ rw any refl
    | inr some_types ↦ elim (Bool-cases (is_allowed binding.payload_types type)) [
      | inl listed ↦ rw (some_types, listed) refl
      | inr other ↦ absurd (
          failed-not_done (invalid_error "type is not allowed by target binding") s u s'
            (sym (rw (some_types, other) refl) ∙ h))
    ]
  ]

  decoded_done :
      (event : Event) (s s' : S) (u : Unit {0})
      → ◌≡◌ {A = Result (Unit {0}) × S}
          ((if hooks.can_decode event.payload_type event.payload_version
              then return tt
              else invalid "no codec for payload type")
            s)
          (done u, s')
      → hooks.can_decode event.payload_type event.payload_version ≡ true
  decoded_done event s s' u h =
      elim (Bool-cases (hooks.can_decode event.payload_type event.payload_version)) [
        | inl known ↦ known
        | inr unknown ↦ absurd (
            failed-not_done (invalid_error "no codec for payload type") s u s'
              (sym (rw unknown refl) ∙ h))
      ]

  check_event-Permitted :
      (event : Event) (s s' : S) (u : Unit {0})
      → check_event hooks ask binding event s ≡ (done u, s')
      → Permitted (gateway_event ask.target binding event)
  unfolding check_event gateway_event
  check_event-Permitted event s s' u h =
      let decodes : Op S (Unit {0}) =
        if hooks.can_decode event.payload_type event.payload_version
        then return tt
        else invalid "no codec for payload type" in
      let exposes : Op S (Unit {0}) = hooks.allow_payload ask.actor ask.target event.payload_type in
      let authorizes : Op S (Unit {0}) = hooks.authorize (auth_request ask event.payload_type) in
      let (u1, s1, allowed, h1) =
        proceed_done (require_allowed_type binding.payload_types event.payload_type "payload")
          (λ _. authorizes >> (exposes >> decodes)) s s' u h in
      let (u2, s2, authorized, h2) = proceed_done authorizes (λ _. exposes >> decodes) s1 s' u h1 in
      let (u3, s3, exposed, h3) = proceed_done exposes (λ _. decodes) s2 s' u h2 in
      (
        allowed_done event.payload_type s s1 u1 allowed,
        (s1, u2, s2, authorized),
        (s2, u3, s3, exposed),
        decoded_done event s3 s' u h3,
      )

  -- A batch that leaves the gateway has the events of the log's batch, in their order and with
  -- their seqs and payloads, under the binding's key, and every one of them is permitted.
  gateway_events-Permitted :
      (events : List Event) (s s' : S) (out : List GatewayEvent)
      → gateway_events hooks ask binding events s ≡ (done out, s')
      → (out ≡ map (gateway_event ask.target binding) events) × All Permitted out
  unfolding gateway_events
  gateway_events-Permitted [] s s' out h =
      let none_out : [] ≡ out = ground (arith, ap (λ p. p.0) h) in
      (sym none_out, subst (All Permitted) none_out tt)
  gateway_events-Permitted (event ∷ events) s s' out h =
      let others : Op S (List GatewayEvent) = gateway_events hooks ask binding events in
      let answers : List GatewayEvent → Op S (List GatewayEvent) =
        λ more. return (gateway_event ask.target binding event ∷ more) in
      let (u1, s1, checked, h1) =
        proceed_done (check_event hooks ask binding event) (λ _. others >>= answers) s s' out h in
      let (more, s2, rest, h2) = proceed_done others answers s1 s' out h1 in
      let (same, permitted) = gateway_events-Permitted events s1 s2 more rest in
      let permit = check_event-Permitted event s s1 u1 checked in
      let it : gateway_event ask.target binding event ∷ more ≡ out =
        ground (arith, ap (λ p. p.0) h2) in
      (
        sym it ∙ ap (λ es. gateway_event ask.target binding event ∷ es) same,
        subst (All Permitted) it (permit, permitted),
      )

  -- Where a batch is answered, it has the events of the log's batch, in their order and with their
  -- seqs and payloads, its bounds and its `final`; and every one of its events is of a type that
  -- the binding names, where it names any, was authorized and allowed, and has a codec.
  pub gateway_batch-Permitted :
      (batch : EventBatch) (s s' : S) (out : GatewayBatch)
      → gateway_batch hooks ask binding batch s ≡ (done out, s')
      → (out.events ≡ map (gateway_event ask.target binding) batch.events)
        × (out.seq_start ≡ batch.seq_start)
        × (out.seq ≡ batch.seq)
        × (out.final ≡ batch.final)
        × (out.binding_key ≡ binding.binding_key)
        × All Permitted out.events
  unfolding gateway_batch
  gateway_batch-Permitted batch s s' out h =
      let built : List GatewayEvent → GatewayBatch = λ events. record {
        target = some ask.target;
        events = events;
        seq_start = batch.seq_start;
        seq = batch.seq;
        final = batch.final;
        binding_key = binding.binding_key;
      } in
      let (events, s1, passed, h1) =
        proceed_done (gateway_events hooks ask binding batch.events)
          (λ events. return (built events)) s s' out h in
      let (same, permitted) = gateway_events-Permitted batch.events s s1 events passed in
      let made : built events ≡ out = ground (arith, ap (λ p. p.0) h1) in
      (
        sym (ap (λ b. b.events) made) ∙ same,
        sym (ap (λ b. b.seq_start) made),
        sym (ap (λ b. b.seq) made),
        sym (ap (λ b. b.final) made),
        sym (ap (λ b. b.binding_key) made),
        subst (λ b. All Permitted b.events) made permitted,
      )
