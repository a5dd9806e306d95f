-- ===== src/Log/Result.antt =====
-- The errors of pkg/synclog/errors.go and pkg/gateway/errors.go, and calls that return a value or
-- an error and change a state `S`, one call after the other. `ctx` is left out where the code only
-- passes it on.
use synclog.Prelude.Text.{◌+++◌}
use synclog.Prelude.{String, ◌≡◌, refl, ◌⊎◌, inl, inr, Option, none, some}

-- An error by the sentinel that `errors.Is` finds in it, with what `Error()` gives (in the program's
-- own errors without the values that `%d`, `%q` and `%s` print into it). `other` is an error of the
-- hooks that wraps none of the sentinels.
pub data Failure : Type 0 where
  invalid_argument too_long not_found access_denied other : String → Failure

unfoldable pub error_text : Failure → String
error_text (invalid_argument text) = text
error_text (too_long text) = text
error_text (not_found text) = text
error_text (access_denied text) = text
error_text (other text) = text

-- `fmt.Errorf("%w: …", ErrInvalidArgument)`
unfoldable pub invalid_error : String → Failure
invalid_error message = invalid_argument ("synclog: invalid argument: " +++ message)

-- The sentinels themselves.
unfoldable pub err_too_long : Failure
err_too_long = too_long "synclog: replay too long"

unfoldable pub err_not_found : Failure
err_not_found = not_found "synclog: not found"

unfoldable pub err_access_denied : Failure
err_access_denied = access_denied "synclog gateway: access denied"

pub data Result {ℓ} (A : Type ℓ) : Type ℓ where
  done : A → Result A
  failed : Failure → Result A

abbrev pub Op {ℓ κ} : Type ℓ → Type κ → Type (ℓ ⊔ κ)
Op S A = S → Result A × S

module _ {ℓ κ} {S : Type ℓ} {A : Type κ} where
  abbrev pub return : A → Op S A
  return a s = (done a, s)

  abbrev pub fail : Failure → Op S A
  fail e s = (failed e, s)

  -- `return …, fmt.Errorf("%w: …", ErrInvalidArgument)`
  abbrev pub invalid : String → Op S A
  invalid message = fail (invalid_error message)

  -- A call whose result does not depend on the state.
  abbrev pub from_result : Result A → Op S A
  from_result r s = (r, s)

  -- A call on a part of the state.
  abbrev pub reading : (S → A) → Op S A
  reading f s = (done (f s), s)

  -- `if x == nil { return …, … }`
  abbrev pub not_nil {μ} : {B : Type μ} → String → Option B → (B → Op S A) → Op S A
  not_nil message none f = invalid message
  not_nil message (some b) f = f b

module _ {ℓ κ μ} {S : Type ℓ} {A : Type κ} {B : Type μ} where
  abbrev pub proceed : Result A → (A → Op S B) → Op S B
  proceed (done a) f s = f a s
  proceed (failed e) f s = (failed e, s)

  infixl 10 ◌>>=◌ ◌>>◌
  abbrev pub ◌>>=◌ : Op S A → (A → Op S B) → Op S B
  ◌>>=◌ m f s = let (r, s') = m s in proceed r f s'

  abbrev pub ◌>>◌ : Op S A → Op S B → Op S B
  m >> n = m >>= λ _. n

  -- `x, err := m; if err != nil { … }`, where the code looks at the error itself.
  abbrev pub handle : Op S A → (Result A → Op S B) → Op S B
  handle m f s = let (r, s') = m s in f r s'

pub Result-cases {ℓ} :
    {A : Type ℓ} (r : Result A) → ((a : A) × (r ≡ done a)) ⊎ ((e : Failure) × (r ≡ failed e))
Result-cases (done a) = inl (a, refl)
Result-cases (failed e) = inr (e, refl)
