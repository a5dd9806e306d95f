-- ===== src/Io/Triples.antt =====
-- Triples over `Io`: from a precondition, a result and its world meet the postcondition, and a
-- throw or an unfinished loop leaves a world that meets the exceptional one.
use synclog.Prelude.{Bool, true, false, if◌then◌else◌}
use synclog.Io.{Error, Outcome, ok, err, running, Io, pure, throw, lift, continue, ◌>>=◌}

module _ {ℓ κ μ} {W : Type ℓ} {A : Type κ} where
  abbrev pub Post : (A → W → Type μ) → (W → Type μ) → Outcome A × W → Type μ
  Post Q E (ok a, w) = Q a w
  Post Q E (err e, w) = E w
  Post Q E (running, w) = E w

  pub record Triple (P : W → Type μ) (m : Io W A) (Q : A → W → Type μ) (E : W → Type μ)
      : Type (ℓ ⊔ μ) where
    pub at : (w : W) → P w → Post Q E (m w)

module _ {ℓ κ μ} {W : Type ℓ} {A : Type κ} (Q : A → W → Type μ) (E : W → Type μ) where
  pub Triple-pure : (a : A) → Triple (Q a) (pure a) Q E
  Triple-pure a = record { at = λ w h. h }

  pub Triple-throw : (e : Error) → Triple E (throw {A = A} e) Q E
  Triple-throw e = record { at = λ w h. h }

  Post-mono :
      (Q' : A → W → Type μ) (x : Outcome A × W)
      → ((a : A) (w : W) → Q a w → Q' a w)
      → Post Q E x
      → Post Q' E x
  Post-mono Q' (ok a, w) f h = f a w h
  Post-mono Q' (err e, w) f h = h
  Post-mono Q' (running, w) f h = h

  -- A stronger precondition and a weaker postcondition.
  pub Triple-mono :
      (P P' : W → Type μ) (m : Io W A) (Q' : A → W → Type μ)
      → ((w : W) → P' w → P w)
      → ((a : A) (w : W) → Q a w → Q' a w)
      → Triple P m Q E
      → Triple P' m Q' E
  Triple-mono P P' m Q' pre post t = record {
    at = λ w h. Post-mono Q' (m w) post (t.at w (pre w h));
  }

module _ {ℓ κ μ ν} {W : Type ℓ} {A : Type κ} {B : Type μ} (Q : A → W → Type ν) (R : B → W → Type ν)
    (E : W → Type ν) where
  Post-bind :
      (x : Outcome A × W) (f : A → Io W B)
      → ((a : A) → Triple (Q a) (f a) R E)
      → Post Q E x
      → Post R E (continue x.0 f x.1)
  Post-bind (ok a, w) f t h = (t a).at w h
  Post-bind (err e, w) f t h = h
  Post-bind (running, w) f t h = h

  pub Triple-bind :
      (P : W → Type ν) (m : Io W A) (f : A → Io W B)
      → Triple P m Q E
      → ((a : A) → Triple (Q a) (f a) R E)
      → Triple P (m >>= f) R E
  Triple-bind P m f t k = record { at = λ w h. Post-bind (m w) f k (t.at w h) }

-- Invariants: what holds before holds after, however the computation ends.
module _ {ℓ κ μ} {W : Type ℓ} {A : Type κ} where
  abbrev pub Keeps : (W → Type μ) → Io W A → Type (ℓ ⊔ μ)
  Keeps I m = Triple I m (λ _. I) I

module _ {ℓ κ μ} {W : Type ℓ} {A : Type κ} (I : W → Type μ) where
  pub Keeps-pure : (a : A) → Keeps I (pure a)
  Keeps-pure a = record { at = λ w h. h }

  pub Keeps-lift : (r : Outcome A) → Keeps I (lift r)
  Keeps-lift (ok a) = record { at = λ w h. h }
  Keeps-lift (err e) = record { at = λ w h. h }
  Keeps-lift running = record { at = λ w h. h }

  pub Keeps-if : (b : Bool) (m n : Io W A) → Keeps I m → Keeps I n → Keeps I (if b then m else n)
  Keeps-if true m n h k = h
  Keeps-if false m n h k = k

  Post-world : (x : Outcome A × W) → Post (λ _. I) I x → I x.1
  Post-world (ok a, w) h = h
  Post-world (err e, w) h = h
  Post-world (running, w) h = h

  -- The invariant in the world that is left.
  pub Keeps-world : (m : Io W A) → Keeps I m → (w : W) → I w → I (m w).1
  Keeps-world m k w h = Post-world (m w) (k.at w h)

module _ {ℓ κ μ ν} {W : Type ℓ} {A : Type κ} {B : Type μ} (I : W → Type ν) where
  pub Keeps-bind :
      (m : Io W A) (f : A → Io W B) → Keeps I m → ((a : A) → Keeps I (f a)) → Keeps I (m >>= f)
  Keeps-bind m f k l = Triple-bind (λ _. I) (λ _. I) I I m f k l

  -- The rest may use what the first part found out.
  pub Keeps-bind_fact :
      (F : A → W → Type ν) (m : Io W A) (f : A → Io W B)
      → Triple I m (λ a w. I w × F a w) I
      → ((a : A) → Triple (λ w. I w × F a w) (f a) (λ _. I) I)
      → Keeps I (m >>= f)
  Keeps-bind_fact F m f k l = Triple-bind (λ a w. I w × F a w) (λ _. I) I I m f k l

  -- The first part may use what is known before.
  pub Keeps-bind_owed :
      (F : W → Type ν) (m : Io W A) (f : A → Io W B)
      → Triple (λ w. I w × F w) m (λ _. I) I
      → ((a : A) → Keeps I (f a))
      → Triple (λ w. I w × F w) (m >>= f) (λ _. I) I
  Keeps-bind_owed F m f k l = Triple-bind (λ _. I) (λ _. I) I (λ w. I w × F w) m f k l

module _ {ℓ κ μ} {W : Type ℓ} {A : Type κ} (I F : W → Type μ) where
  -- What is known before need not be used.
  pub Keeps-forget : (m : Io W A) → Keeps I m → Triple (λ w. I w × F w) m (λ _. I) I
  Keeps-forget m k = record { at = λ w h. k.at w h.0 }
