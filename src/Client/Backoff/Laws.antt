-- ===== src/Client/Backoff/Laws.antt =====
-- How the retry delays of client.ts grow, and that each wait ends once.
use synclog.Prelude.{
  ℕ, zero, suc, ◌<◌, ◌+◌, ◌-◌, ◌*◌, ◌^◌, ◌≤◌, ◌≡◌, refl, ap, ◌⊎◌, inl, inr, Bool, true, false, min,
  arith, nat_eq, ◌∙◌,
}
use Prim.Native.Nat.pow
use synclog.Transport.{finite}
use synclog.Client.{SyncClient}
use synclog.Client.Backoff.{
  delay, Wait, start, on_timer, on_abort, Step, timer_fires, abort_heard, abort_unheard, Reach,
  here, next,
}

product : (b x : ℕ) → b * (x * 2) ≡ 2 * (b * x)
product b x = omega arith

next_power : (b n : ℕ) → b * 2 ^ (n + 2 - 1) ≡ 2 * (b * 2 ^ (n + 1 - 1))
next_power b n =
    let e : n + 2 - 1 ≡ suc n = omega arith in
    let f : n + 1 - 1 ≡ n = omega arith in rw (e, f, pow.suc 2 n) (product b (2 ^ n))

-- Powers of two outgrow every number.
power_bound : (n : ℕ) → n < 2 ^ n
power_bound zero = omega arith
power_bound (suc n) = rw (pow.suc 2 n) (omega (arith, power_bound n))

positive_product : (b x : ℕ) → 0 < b → x ≤ b * x
positive_product zero x h = absurd (omega arith)
positive_product (suc b) x h = omega arith

module _ {W : Type 0} (client : SyncClient W) (n : ℕ) where
  reaches_maximum :
      0 < client.retry_base_delay_ms
      → client.retry_max_delay_ms ≤ n
      → client.retry_max_delay_ms ≤ client.retry_base_delay_ms * 2 ^ (n + 1 - 1)
  reaches_maximum positive late =
      let e : n + 1 - 1 ≡ n = omega arith in
      rw e (
        omega (
          arith,
          late,
          power_bound n,
          positive_product client.retry_base_delay_ms (2 ^ n) positive,
        ))

  delay-finite :
      (attempt : ℕ)
      → 0 < client.retry_base_delay_ms
      → delay client attempt
        ≡ finite (min client.retry_max_delay_ms (client.retry_base_delay_ms * 2 ^ (attempt - 1)))
  unfolding delay
  delay-finite attempt positive =
      let nonzero : nat_eq client.retry_base_delay_ms 0 ≡ false = ground (arith, positive) in
      rw nonzero refl

  -- Where the base is not 0: the first delay is the base, or the maximum where that is lower; each
  -- one after it is twice the one before, or the maximum where twice is above it; each is a number
  -- of milliseconds, none above the maximum, and behind as many attempts as the maximum has
  -- milliseconds each is the maximum.
  pub delay-doubles :
      0 < client.retry_base_delay_ms
      → (delay client 1 ≡ finite (min client.retry_max_delay_ms client.retry_base_delay_ms))
        × (before : ℕ) × (delay client (n + 1) ≡ finite before)
        × (delay client (n + 2) ≡ finite (min client.retry_max_delay_ms (2 * before)))
        × (before ≤ client.retry_max_delay_ms)
        × (client.retry_max_delay_ms ≤ n → before ≡ client.retry_max_delay_ms)
  delay-doubles positive =
      let twice = next_power client.retry_base_delay_ms n in
      (
        delay-finite 1 positive ∙ ap (λ d. finite (min client.retry_max_delay_ms d)) (omega arith),
        min client.retry_max_delay_ms (client.retry_base_delay_ms * 2 ^ (n + 1 - 1)),
        delay-finite (n + 1) positive,
        delay-finite (n + 2) positive ∙ ap finite (omega (arith, twice)),
        omega arith,
        λ late. omega (arith, reaches_maximum positive late),
      )

-- While a wait is open its timer and its listener are there; once resolved neither is.
abbrev IsOpen : Wait → Type 0
IsOpen w = (w.resolved ≡ 0) × (w.timer ≡ true) × (w.listening ≡ true) × (w.aborted ≡ false)

abbrev IsClosed : Wait → Type 0
IsClosed w = (w.resolved ≡ 1) × (w.timer ≡ false) × (w.listening ≡ false)

Step-phases : {t u : Wait} → Step t u → IsOpen t ⊎ IsClosed t → IsOpen u ⊎ IsClosed u
unfolding on_timer on_abort
Step-phases (timer_fires w on) s = elim s [
  | inl o ↦ inr (ground (arith, o.0), refl, refl)
  | inr c ↦ cc
]
Step-phases (abort_heard w fresh on) s = elim s [
  | inl o ↦ inr (ground (arith, o.0), refl, refl)
  | inr c ↦ cc
]
Step-phases (abort_unheard w fresh off) s = elim s [ inl o ↦ cc | inr c ↦ inr (c.0, c.1, c.2) ]

-- Whatever happens to it, and however often, a wait is in one of two phases: it has not resolved,
-- its timer and its listener are in place and its signal is not aborted; or it has resolved exactly
-- once, and its timer and its listener are gone.
pub wait-phases :
    (aborted : Bool) {w : Wait}
    → Reach (start aborted) w
    → ((w.resolved ≡ 0) × (w.timer ≡ true) × (w.listening ≡ true) × (w.aborted ≡ false))
      ⊎ ((w.resolved ≡ 1) × (w.timer ≡ false) × (w.listening ≡ false))
unfolding start
wait-phases true here = inr (refl, refl, refl)
wait-phases false here = inl (refl, refl, refl, refl)
wait-phases aborted (next r s) = Step-phases s (wait-phases aborted r)
