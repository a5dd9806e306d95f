-- ===== src/Client/Subscribe/Ends.antt =====
-- How a live subscription ends: `done` never rejects, and it resolves in the ways of `Lives` alone.
use synclog.Prelude.{
  ℕ, zero, suc, ◌+◌, ◌<◌, ◌≡◌, ◌≢◌, refl, sym, ap, subst, ◌∙◌, inl, inr, true, false, arith,
  Bool-cases, ◌↔◌,
}
use synclog.Io.{Error, Outcome, ok, err, running, Io}
use synclog.Transport.{Runtime}
use synclog.Client.{SyncClient, SyncBinding}
use synclog.Client.Backoff.{delay}
use synclog.Client.Subscribe.{unless_aborted, caught, run_subscription, subscribe_loop, subscribe}

abbrev NoError : {W : Type 0} → Outcome (Unit {0}) × W → Type 0
NoError x = (e : Error) → x.0 ≢ err e

module _ {W : Type 0} (runtime : Runtime W) (m : Io W (Unit {0})) (w : W) where
  stopped_lem : runtime.aborted w ≡ true → unless_aborted runtime m w ≡ (ok tt, w)
  unfolding unless_aborted
  stopped_lem h = rw (h, unless_aborted)

  goes_on_lem : runtime.aborted w ≡ false → unless_aborted runtime m w ≡ m w
  unfolding unless_aborted
  goes_on_lem h = rw (h, unless_aborted)

  unless_aborted-NoError : NoError (m w) → NoError (unless_aborted runtime m w)
  unless_aborted-NoError h e = elim (Bool-cases (runtime.aborted w)) [
    | inl s ↦ rw (stopped_lem s) (cc)
    | inr g ↦ rw (goes_on_lem g) (h e)
  ]

module _ {W : Type 0} (handler : Error → Io W (Unit {0})) where
  abbrev handled : Outcome (Unit {0}) × W → Outcome (Unit {0}) × W
  handled x = elim x.0 [ ok a ↦ (ok a, x.1) | err e ↦ handler e x.1 | running ↦ (running, x.1) ]

  handled-NoError :
      (x : Outcome (Unit {0}) × W)
      → ((e : Error) (v : W) → NoError (handler e v))
      → NoError (handled x)
  handled-NoError (ok a, v) h e = cc
  handled-NoError (err x, v) h e = h x v e
  handled-NoError (running, v) h e = cc

  caught-handled : (m : Io W (Unit {0})) (w : W) → caught m handler w ≡ handled (m w)
  unfolding caught
  caught-handled m w = refl

module _ {W TSnapshot TEvent : Type 0} (runtime : Runtime W) (client : SyncClient W)
    (binding : SyncBinding W TSnapshot TEvent) (fuel : ℕ) where
  retry : ℕ → ℕ → Error → Io W (Unit {0})
  retry rounds attempt e = unless_aborted runtime (λ v.
      subscribe_loop runtime client binding fuel rounds (attempt + 1)
        (runtime.wait (delay client (attempt + 1)) v))

  subscribe_loop_lem :
      (rounds attempt : ℕ) (w : W)
      → subscribe_loop runtime client binding fuel (suc rounds) attempt w
        ≡ unless_aborted runtime
            (λ v. handled (retry rounds attempt) (run_subscription runtime client binding fuel v))
            w
  unfolding subscribe_loop retry
  subscribe_loop_lem rounds attempt w = refl

  out_of_fuel :
      (attempt : ℕ) (w : W)
      → subscribe_loop runtime client binding fuel zero attempt w ≡ (running, w)
  unfolding subscribe_loop
  out_of_fuel attempt w = refl

  subscribe_loop-NoError :
      (rounds attempt : ℕ) (w : W)
      → NoError (subscribe_loop runtime client binding fuel rounds attempt w)
  unfolding retry
  subscribe_loop-NoError zero attempt w = rw (out_of_fuel attempt w) (λ e. cc)
  subscribe_loop-NoError (suc rounds) attempt w = rw (subscribe_loop_lem rounds attempt w) (
      unless_aborted-NoError runtime _ w (
        handled-NoError (retry rounds attempt) (run_subscription runtime client binding fuel w)
          (λ e v.
            unless_aborted-NoError runtime _ v (subscribe_loop-NoError rounds (attempt + 1) _))))

  -- The promise `done` of a live subscription never rejects, whatever the gateway, the store and
  -- the decoders throw.
  pub subscribe-ne-err : (w : W) → NoError (subscribe runtime client binding fuel w)
  unfolding subscribe
  subscribe-ne-err w = subscribe_loop-NoError fuel 0 w

  -- The lives of a subscription, from its next attempt on: it is stopped before a run, a run ends
  -- with its stream, a run fails and the subscription was stopped meanwhile, or a run fails and the
  -- next one starts after the delay of its attempt.
  pub data Lives : ℕ → W → W → ℕ → Type 0 where
    stopped : {a : ℕ} {w v : W} → runtime.aborted w ≡ true → v ≡ w → Lives a w v zero
    ended :
        {a : ℕ} {w v : W}
        → runtime.aborted w ≡ false
        → run_subscription runtime client binding fuel w ≡ (ok tt, v)
        → Lives a w v zero
    failed :
        {a : ℕ} {w v : W} (e : Error)
        → runtime.aborted w ≡ false
        → run_subscription runtime client binding fuel w ≡ (err e, v)
        → runtime.aborted v ≡ true
        → Lives a w v zero
    retried :
        {a : ℕ} {w v : W} {n : ℕ} (u : W) (e : Error)
        → runtime.aborted w ≡ false
        → run_subscription runtime client binding fuel w ≡ (err e, u)
        → runtime.aborted u ≡ false
        → Lives (a + 1) (runtime.wait (delay client (a + 1)) u) v n
        → Lives a w v (suc n)

  -- With enough rounds for its retries a life is what the loop computes.
  Lives-complete :
      (rounds : ℕ) {a : ℕ} {w v : W} {n : ℕ}
      → Lives a w v n
      → n < rounds
      → subscribe_loop runtime client binding fuel rounds a w ≡ (ok tt, v)
  unfolding retry
  Lives-complete zero l h = absurd (omega arith)
  Lives-complete (suc rounds) {a} {w} (stopped s e) h =
      subscribe_loop_lem rounds a w ∙ stopped_lem runtime _ w s ∙ ap (λ u. (ok tt, u)) (sym e)
  Lives-complete (suc rounds) {a} {w} (ended g r) h =
      subscribe_loop_lem rounds a w ∙ goes_on_lem runtime _ w g ∙ ap (handled (retry rounds a)) r
  Lives-complete (suc rounds) {a} {w} {v} (failed e g r s) h =
      subscribe_loop_lem rounds a w
      ∙ goes_on_lem runtime _ w g
      ∙ ap (handled (retry rounds a)) r
      ∙ stopped_lem runtime _ v s
  Lives-complete (suc rounds) {a} {w} {v} (retried u e g r k l) h =
      subscribe_loop_lem rounds a w
      ∙ goes_on_lem runtime _ w g
      ∙ ap (handled (retry rounds a)) r
      ∙ goes_on_lem runtime _ u k
      ∙ Lives-complete rounds l (omega arith)

  abbrev Found : ℕ → ℕ → W → W → Type 0
  Found rounds a w v = (n : ℕ) × (n < rounds) × Lives a w v n

  world-eq : {a b : Unit {0}} {u v : W} → Path (Outcome (Unit {0}) × W) (ok a, u) (ok b, v) → u ≡ v
  world-eq e = ap (λ x. x.1) e

  after_error :
      (rounds a : ℕ) (w u v : W) (e : Error)
      → ((w' : W)
          → subscribe_loop runtime client binding fuel rounds (a + 1) w' ≡ (ok tt, v)
          → Found rounds (a + 1) w' v)
      → runtime.aborted w ≡ false
      → run_subscription runtime client binding fuel w ≡ (err e, u)
      → retry rounds a e u ≡ (ok tt, v)
      → Found (suc rounds) a w v
  unfolding retry
  after_error rounds a w u v e ih g r h = elim (Bool-cases (runtime.aborted u)) [
    | inl s ↦
        let same = world-eq (sym (stopped_lem runtime _ u s) ∙ h) in
        (zero, omega arith, subst (λ x. Lives a w x zero) same (failed e g r s))
    | inr k ↦
        let (n, lt, l) = ih _ (sym (goes_on_lem runtime _ u k) ∙ h) in
        (suc n, omega arith, retried u e g r k l)
  ]

  after_run :
      (rounds a : ℕ) (w v : W) (x : Outcome (Unit {0}) × W)
      → ((w' : W)
          → subscribe_loop runtime client binding fuel rounds (a + 1) w' ≡ (ok tt, v)
          → Found rounds (a + 1) w' v)
      → runtime.aborted w ≡ false
      → run_subscription runtime client binding fuel w ≡ x
      → handled (retry rounds a) x ≡ (ok tt, v)
      → Found (suc rounds) a w v
  after_run rounds a w v (ok y, u) ih g r h = (zero, omega arith, ended g (r ∙ h))
  after_run rounds a w v (err e, u) ih g r h = after_error rounds a w u v e ih g r h
  after_run rounds a w v (running, u) ih g r h = cc

  Lives-sound :
      (rounds a : ℕ) (w v : W)
      → subscribe_loop runtime client binding fuel rounds a w ≡ (ok tt, v)
      → Found rounds a w v
  Lives-sound zero a w v h = cc (out_of_fuel a w)
  Lives-sound (suc rounds) a w v h = elim (Bool-cases (runtime.aborted w)) [
    | inl s ↦
        let same =
          world-eq (sym (stopped_lem runtime _ w s) ∙ sym (subscribe_loop_lem rounds a w) ∙ h) in
        (zero, omega arith, stopped s (sym same))
    | inr g ↦
        after_run rounds a w v (run_subscription runtime client binding fuel w)
          (λ w'. Lives-sound rounds (a + 1) w' v) g refl
          (sym (goes_on_lem runtime _ w g) ∙ sym (subscribe_loop_lem rounds a w) ∙ h)
  ]

  -- A live subscription resolves in a world exactly when one of its lives, from attempt 0 on and
  -- with fewer retries than the fuel, ends in that world.
  pub subscribe_iff-Lives :
      (w v : W)
      → (subscribe runtime client binding fuel w ≡ (ok tt, v))
        ↔ ((n : ℕ) × (n < fuel) × Lives 0 w v n)
  unfolding subscribe
  subscribe_iff-Lives w v = (Lives-sound fuel 0 w v, λ f. Lives-complete fuel f.2 f.1)
