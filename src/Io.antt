-- ===== src/Io.antt =====
-- Asynchronous code that may throw: `Promise` results of ts/synclog/src, run one after the other.
-- The world `W` is all that an awaited call may read or change, so what other tasks do across an
-- `await` is part of that call. What was changed before a throw stays changed.
pub mod Triples
pub mod Endings
use synclog.Prelude.{String, ◌≡◌, refl, ◌⊎◌, inl, inr}

-- The errors that the SDK itself throws, and those of the code it calls.
pub data Error : Type 0 where
  subscriber_id_required subscription_id_required no_compatible_snapshot binding_key_required :
      Error
  thrown : String → Error

-- `running` is a loop that has not ended after the rounds it was given.
pub data Outcome {ℓ} (A : Type ℓ) : Type ℓ where
  ok : A → Outcome A
  err : Error → Outcome A
  running : Outcome A

abbrev pub Io {ℓ κ} : Type ℓ → Type κ → Type (ℓ ⊔ κ)
Io W A = W → Outcome A × W

module _ {ℓ κ} {W : Type ℓ} {A : Type κ} where
  abbrev pub pure : A → Io W A
  pure a w = (ok a, w)

  abbrev pub throw : Error → Io W A
  throw e w = (err e, w)

-- A synchronous call that may throw.
module _ {ℓ κ} {W : Type ℓ} {A : Type κ} where
  abbrev pub lift : Outcome A → Io W A
  lift r w = (r, w)

module _ {ℓ κ} {A : Type ℓ} {B : Type κ} where
  abbrev pub and_then : Outcome A → (A → Outcome B) → Outcome B
  and_then (ok a) f = f a
  and_then (err e) f = err e
  and_then running f = running

module _ {ℓ κ μ} {W : Type ℓ} {A : Type κ} {B : Type μ} where
  abbrev pub continue : Outcome A → (A → Io W B) → Io W B
  continue (ok a) f w = f a w
  continue (err e) f w = (err e, w)
  continue running f w = (running, w)

  infixl 10 ◌>>=◌ ◌>>◌
  abbrev pub ◌>>=◌ : Io W A → (A → Io W B) → Io W B
  ◌>>=◌ m f w = let (r, w') = m w in continue r f w'

  abbrev pub ◌>>◌ : Io W A → Io W B → Io W B
  m >> n = m >>= λ _. n

-- To split on an outcome and keep the equation.
pub Outcome-cases {ℓ} :
    {A : Type ℓ} (r : Outcome A)
    → ((a : A) × (r ≡ ok a)) ⊎ ((e : Error) × (r ≡ err e)) ⊎ (r ≡ running)
Outcome-cases (ok a) = inl (a, refl)
Outcome-cases (err e) = inr (inl (e, refl))
Outcome-cases running = inr (inr refl)
