-- ===== src/Session/Listeners.antt =====
-- The listener that a run of a subscription adds to its signal: when the subscription is over it is
-- gone, whichever way its runs ended.
use synclog.Prelude.{
  List, [], ◌∷◌, ◌++◌, ◌<◌, ◌≤◌, ◌∙◌, false, nat_eq, All, All-map, ℕ, zero, suc, ◌+◌, ◌≡◌, ◌≢◌,
  refl, ap, arith, Bool, inl, inr, Bool-cases,
}
use synclog.Io.{Error, Outcome, ok, err, running, Io}
use synclog.Io.Triples.{Post, Keeps}
use synclog.Io.Endings.{Ending, Ends, Ends-bind, Keeps→Ends}
use synclog.Memory.Views.{get_record-get_applied_seq, get_applied_seq_lem}
use synclog.Memory.Growth.{apply_snapshot-reaches}
use synclog.Transport.{Milliseconds, AsyncIterator, SyncGatewayTransport}
use synclog.Client.{SyncClient, SyncBinding, key_of}
use synclog.Client.Backoff.{delay}
use synclog.Client.Contract.{StoreContract, TransportContract}
use synclog.Client.Sync.Keeps.{catch_up-Keeps}
use synclog.Client.Subscribe.{
  listened, after, run_subscription, subscribe_loop, subscribe, unless_aborted, caught,
}
use synclog.Client.Subscribe.Keeps.{stream_loop-Keeps}
use synclog.Session.{
  has, added, removed, World, applied, client_over, over_net, subscribed, stored, runtime_over,
}

-- A function that was made later than those of a list.
added-new : (id : ℕ) (c : List ℕ) → All (λ x. x < id) c → has id c ≡ false
unfolding has
added-new id [] below = refl
added-new id (x ∷ xs) below = ground (arith, below.0, added-new id xs below.1)

removed-added : (id : ℕ) (c : List ℕ) → All (λ x. x < id) c → removed id (c ++ id ∷ []) ≡ c
unfolding removed
removed-added id [] below = ground arith
removed-added id (x ∷ xs) below =
    let other : nat_eq x id ≡ false = ground (arith, below.0) in
    rw other (ap (λ l. x ∷ l) (removed-added id xs below.1))

module _ {N TSnapshot TEvent : Type 0} (c : List ℕ) (n : ℕ) where
  -- The listeners are these, and `n` functions were made at least.
  abbrev Listening : World N TSnapshot TEvent → Type 0
  Listening w = (w.listeners ≡ c) × (n ≤ w.functions)

  quiet-Post :
      {A : Type 0} (r : Outcome A) (w : World N TSnapshot TEvent)
      → Listening w
      → Post {A = A} (λ _. Listening) Listening (r, w)
  quiet-Post (ok a) w h = h
  quiet-Post (err e) w h = h
  quiet-Post running w h = h

  over_net-Listening : {A : Type 0} (m : Io N A) → Keeps Listening (over_net m)
  over_net-Listening m = record { at = λ w h. quiet-Post (m w.net).0 _ h }

module _ {N TSnapshot TEvent : Type 0} (gateway : SyncGatewayTransport N)
    (client : SyncClient (World N TSnapshot TEvent))
    (binding : SyncBinding (World N TSnapshot TEvent) TSnapshot TEvent) where
  -- Neither the store nor the gateway adds or removes a listener.
  store-Listening :
      (c : List ℕ) (n : ℕ)
      → StoreContract (client_over gateway client) (stored binding) applied (Listening c n)
  store-Listening c n = record {
    get_applied_seq = λ o. record {
      at = λ w h.
          let k = key_of (client_over gateway client) (stored binding) o in
          (
            h,
            omega (
              arith,
              get_applied_seq_lem k k w.store,
              ap (λ r. r.applied_seq) (get_record-get_applied_seq k k w.store),
            ),
          );
    };
    apply_snapshot = λ o snapshot. record {
      at = λ w h. (
        h,
        apply_snapshot-reaches (key_of (client_over gateway client) (stored binding) o) snapshot
            w.store,
      );
    };
    apply_events = λ o events. record { at = λ w h. h };
  }

  transport-Listening :
      (c : List ℕ) (n : ℕ)
      → TransportContract (client_over gateway client) (stored binding) applied (Listening c n)
  transport-Listening c n = record {
    catch_up = λ r. over_net-Listening c n (gateway.catch_up r);
    get_latest_snapshot = λ r. over_net-Listening c n (gateway.get_latest_snapshot r);
    ack = λ o seq. record { at = λ w h. quiet-Post c n _ _ h.0 };
  }

  module _ (is_aborted : N → Bool) (wait : Milliseconds → N → N) (fuel : ℕ) (c : List ℕ) (n : ℕ)
      (below : All (λ x. x < n) c) where
    -- Where a computation is over, by its result or by a throw, the listeners are `c`.
    abbrev Over : {A : Type 0} → Outcome A × World N TSnapshot TEvent → Type 0
    Over {A} x = Ending {A = A} (λ _. Listening c n) (Listening c n) (λ _. Unit {0}) x

    abbrev Stream : AsyncIterator (World N TSnapshot TEvent) → Type 0
    Stream iterator = (d : List ℕ) (m : ℕ) → Keeps (Listening d m) iterator.next

    after-Over :
        (id : ℕ) (x : Outcome (Unit {0}) × World N TSnapshot TEvent)
        → All (λ x. x < id) c
        → Post (λ _. Listening (c ++ id ∷ []) n) (Listening (c ++ id ∷ []) n) x
        → Over (after x.0 (λ w. record w { listeners = removed id w.listeners }) x.1)
    after-Over id (ok a, w) older h = (ap (removed id) h.0 ∙ removed-added id c older, h.1)
    after-Over id (err e, w) older h = (ap (removed id) h.0 ∙ removed-added id c older, h.1)
    after-Over id (running, w) older h = tt

    added-Listening :
        (w : World N TSnapshot TEvent)
        → Listening c n w
        → Listening
            (c ++ w.functions ∷ [])
            n
            (record w { listeners = added w.functions w.listeners; functions = w.functions + 1 })
    unfolding added
    added-Listening w h =
        let older =
          All-map (λ x. x < n) (λ x. x < w.functions) c (λ x lt. omega (arith, lt, h.1)) below in
        (rw (h.0, added-new w.functions c older) refl, omega (arith, h.1))

    listened-Over :
        (iterator : AsyncIterator (World N TSnapshot TEvent))
        → Ends
            (λ w. Listening c n w × Stream iterator)
            (listened
              (runtime_over is_aborted wait)
              (client_over gateway client)
              (stored binding)
              fuel
              iterator)
            (λ _. Listening c n)
            (Listening c n)
            (λ _. Unit {0})
    unfolding listened
    listened-Over iterator = record {
      at = λ w h.
          let older =
            All-map (λ x. x < n) (λ x. x < w.functions) c (λ x lt. omega (arith, lt, h.0.1))
              below in
          let d = c ++ w.functions ∷ [] in
          after-Over w.functions _ older (
            (stream_loop-Keeps (store-Listening d n) (transport-Listening d n) fuel
                (runtime_over is_aborted wait) fuel iterator (h.1 d n)).at
              _ (added-Listening w h.0));
    }

    subscribed-Over :
        (o : Outcome (AsyncIterator N)) (w : World N TSnapshot TEvent)
        → Listening c n w
        → Ending
            (λ iterator v. Listening c n v × Stream iterator)
            (Listening c n)
            (λ _. Unit {0})
            (subscribed o w)
    subscribed-Over (ok i) w h = (h, λ d m. over_net-Listening d m i.next)
    subscribed-Over (err e) w h = h
    subscribed-Over running w h = tt

    run_subscription-Over :
        (w : World N TSnapshot TEvent)
        → Listening c n w
        → Over (
            run_subscription
              (runtime_over is_aborted wait)
              (client_over gateway client)
              (stored binding)
              fuel
              w)
    unfolding run_subscription
    run_subscription-Over w h =
        (Ends-bind (λ _. Listening c n) (λ _. Listening c n) (Listening c n) (λ _. Unit {0})
            (Listening c n) _ _
            (Keeps→Ends (Listening c n) _
              (catch_up-Keeps (store-Listening c n) (transport-Listening c n) fuel))
            λ summary.
              Ends-bind (λ iterator v. Listening c n v × Stream iterator) (λ _. Listening c n)
                (Listening c n) (λ _. Unit {0}) (Listening c n) _ _
                (record { at = λ v k. subscribed-Over _ _ k }) listened-Over).at
          w h

    unless_aborted-Over :
        (m : Io (World N TSnapshot TEvent) (Unit {0})) (w : World N TSnapshot TEvent)
        → Listening c n w
        → Over (m w)
        → Over (unless_aborted (runtime_over is_aborted wait) m w)
    unfolding unless_aborted
    unless_aborted-Over m w h k = elim (Bool-cases (is_aborted w.net)) [
      | inl stop ↦ rw (stop, unless_aborted) h
      | inr go ↦ rw (go, unless_aborted) k
    ]

    caught-Over :
        (x : Outcome (Unit {0}) × World N TSnapshot TEvent)
        (handler : Error → Io (World N TSnapshot TEvent) (Unit {0}))
        → Over x
        → ((e : Error) (v : World N TSnapshot TEvent) → Listening c n v → Over (handler e v))
        → Over {A = Unit {0}}
            (elim x.0 [ ok a ↦ (ok a, x.1) | err e ↦ handler e x.1 | running ↦ (running, x.1) ])
    caught-Over (ok a, v) handler h k = h
    caught-Over (err e, v) handler h k = k e v h
    caught-Over (running, v) handler h k = tt

    subscribe_loop-Over :
        (rounds attempt : ℕ) (w : World N TSnapshot TEvent)
        → Listening c n w
        → Over (
            subscribe_loop
              (runtime_over is_aborted wait)
              (client_over gateway client)
              (stored binding)
              fuel
              rounds
              attempt
              w)
    unfolding subscribe_loop caught
    subscribe_loop-Over zero attempt w h = tt
    subscribe_loop-Over (suc rounds) attempt w h =
        let runtime = runtime_over {TSnapshot = TSnapshot} {TEvent = TEvent} is_aborted wait in
        let ms = delay (client_over gateway client) (attempt + 1) in
        let run = run_subscription runtime (client_over gateway client) (stored binding) fuel in
        let retry = λ (v : World N TSnapshot TEvent).
          subscribe_loop runtime (client_over gateway client) (stored binding) fuel rounds
            (attempt + 1) (runtime.wait ms v) in
        let handler = λ (e : Error). unless_aborted runtime retry in
        unless_aborted-Over (caught run handler) w h (
          caught-Over (run w) handler (run_subscription-Over w h) (λ e v k.
            unless_aborted-Over retry v k
              (subscribe_loop-Over rounds (attempt + 1) (runtime.wait ms v) k)))

  over-listeners :
      (c : List ℕ) (n : ℕ) (x : Outcome (Unit {0}) × World N TSnapshot TEvent)
      → Ending (λ _. Listening c n) (Listening c n) (λ _. Unit {0}) x
      → x.0 ≢ running
      → x.1.listeners ≡ c
  over-listeners c n (ok a, v) h ends = h.0
  over-listeners c n (err e, v) h ends = h.0
  over-listeners c n (running, v) h ends = absurd (ends (λ i. running))

  -- A live subscription that is over has left those listeners on its signal that it found there, in
  -- their order, where these are functions that were made before: each run, however it ended, has
  -- removed the one function that it added, and no other.
  pub subscribe-listeners :
      (is_aborted : N → Bool) (wait : Milliseconds → N → N) (fuel : ℕ)
      (w : World N TSnapshot TEvent)
      → All (λ x. x < w.functions) w.listeners
      → (subscribe
          (runtime_over is_aborted wait)
          (client_over gateway client)
          (stored binding)
          fuel
          w).0
        ≢ running
      → (subscribe
          (runtime_over is_aborted wait)
          (client_over gateway client)
          (stored binding)
          fuel
          w).1.listeners
        ≡ w.listeners
  unfolding subscribe
  subscribe-listeners is_aborted wait fuel w older ends =
      over-listeners w.listeners w.functions _
        (subscribe_loop-Over is_aborted wait fuel w.listeners w.functions older fuel 0 w
          (refl, omega arith))
        ends
