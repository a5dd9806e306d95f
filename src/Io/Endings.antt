-- ===== src/Io/Endings.antt =====
-- Triples that tell a throw from a loop that has not ended: a result meets `Q`, a throw leaves a
-- world in `E`, and a running loop one in `R`. With an empty `R` they show that the code ends.
use synclog.Prelude.{Bool, true, false, if◌then◌else◌, ◌≢◌}
use synclog.Io.{Outcome, ok, err, running, Io, pure, lift, continue, ◌>>=◌}
use synclog.Io.Triples.{Post, Keeps}

module _ {W A : Type 0} where
  abbrev pub Ending : (A → W → Type 0) → (W → Type 0) → (W → Type 0) → Outcome A × W → Type 0
  Ending Q E R (ok a, w) = Q a w
  Ending Q E R (err e, w) = E w
  Ending Q E R (running, w) = R w

  pub record Ends (P : W → Type 0) (m : Io W A) (Q : A → W → Type 0) (E R : W → Type 0)
      : Type 0 where
    pub at : (w : W) → P w → Ending Q E R (m w)

module _ {W A B : Type 0} (Q : A → W → Type 0) (S : B → W → Type 0) (E R : W → Type 0) where
  Ending-bind :
      (x : Outcome A × W) (f : A → Io W B)
      → ((a : A) → Ends (Q a) (f a) S E R)
      → Ending Q E R x
      → Ending S E R (continue x.0 f x.1)
  Ending-bind (ok a, w) f k h = (k a).at w h
  Ending-bind (err e, w) f k h = h
  Ending-bind (running, w) f k h = h

  pub Ends-bind :
      (P : W → Type 0) (m : Io W A) (f : A → Io W B)
      → Ends P m Q E R
      → ((a : A) → Ends (Q a) (f a) S E R)
      → Ends P (m >>= f) S E R
  Ends-bind P m f t k = record { at = λ w h. Ending-bind (m w) f k (t.at w h) }

module _ {W A : Type 0} (E R : W → Type 0) where
  pub Ends-pure : (Q : A → W → Type 0) (a : A) → Ends (Q a) (pure a) Q E R
  Ends-pure Q a = record { at = λ w h. h }

  pub Ends-lift :
      (I : W → Type 0) (r : Outcome A)
      → r ≢ running
      → ((w : W) → I w → E w)
      → Ends I (lift r) (λ _. I) E R
  Ends-lift I (ok a) n f = record { at = λ w h. h }
  Ends-lift I (err e) n f = record { at = λ w h. f w h }
  Ends-lift I running n f = record { at = λ w h. absurd (n (λ i. running)) }

  pub Ends-if :
      (P : W → Type 0) (Q : A → W → Type 0) (b : Bool) (m n : Io W A)
      → Ends P m Q E R
      → Ends P n Q E R
      → Ends P (if b then m else n) Q E R
  Ends-if P Q true m n h k = h
  Ends-if P Q false m n h k = k

-- A result that says less.
module _ {W A : Type 0} (Q S : A → W → Type 0) (E R : W → Type 0)
    (k : (a : A) (w : W) → Q a w → S a w) where
  Ending-weaken : (x : Outcome A × W) → Ending Q E R x → Ending S E R x
  Ending-weaken (ok a, w) h = k a w h
  Ending-weaken (err e, w) h = h
  Ending-weaken (running, w) h = h

  pub Ends-weaken : (P : W → Type 0) (m : Io W A) → Ends P m Q E R → Ends P m S E R
  Ends-weaken P m t = record { at = λ w h. Ending-weaken (m w) (t.at w h) }

-- A result says that the code has ended.
module _ {W A : Type 0} where
  pub ended-ne-running :
      (x : Outcome A × W) → Ending (λ _ _. Unit {0}) (λ _. Unit {0}) (λ _. ⊥) x → x.0 ≢ running
  ended-ne-running (ok a, w) h = cc
  ended-ne-running (err e, w) h = cc
  ended-ne-running (running, w) h = absurd h

  Post-Ending :
      (I : W → Type 0) (x : Outcome A × W) → Post (λ _. I) I x → Ending (λ _. I) I (λ _. Unit {0}) x
  Post-Ending I (ok a, w) h = h
  Post-Ending I (err e, w) h = h
  Post-Ending I (running, w) h = tt

  pub Keeps→Ends : (I : W → Type 0) (m : Io W A) → Keeps I m → Ends I m (λ _. I) I (λ _. Unit {0})
  Keeps→Ends I m k = record { at = λ w h. Post-Ending I (m w) (k.at w h) }
