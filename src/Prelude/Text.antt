-- ===== src/Prelude/Text.antt =====
-- Texts: searching for a part, and taking a text apart at a separator.
use Prim.Native.Nat.{compare, Ordering}
use Prim.Native.Char.{Char, code}
use Prim.Native.String
use Prim.Native.String.{String}
use mathlib.Core.Path.{◌≡◌, refl, sym, ap, ◌∙◌}
use mathlib.Core.Bool.{Bool, true, false, not, ◌&&◌, ◌||◌}
use mathlib.Core.Logic.{◌⊎◌, inl, inr}
use native.Mathlib.Omega.{arith}
use text.Mathlib.TextEquality.{codes_equal}
use text.Mathlib.TextLemmas.{nil-append, cons-append, head-eq_of_cons-eq, tail-eq_of_cons-eq}
use synclog.Prelude.Tests.{Bool-cases}

infixr 67 ◌▹◌
abbrev pub ◌▹◌ : Char → String → String
c ▹ s = String.◌∷◌ c s

infixr 65 ◌+++◌
abbrev pub ◌+++◌ : String → String → String
s +++ t = String.◌++◌ s t

abbrev pub char_eq : Char → Char → Bool
char_eq c d = elim (compare (code c) (code d)) [ Ordering.eq ↦ true | _ ↦ false ]

pub char_eq_refl : (c : Char) → char_eq c c ≡ true
char_eq_refl c = ground arith

pub eq_of_char_eq : (c d : Char) → char_eq c d ≡ true → c ≡ d
eq_of_char_eq c d h = codes_equal c d (ground arith)

-- The character does not occur in the text.
unfoldable pub lacks : Char → String → Bool
lacks c String.[] = true
lacks c (String.◌∷◌ d s) = not (char_eq d c) && lacks c s

-- `s.startsWith(m)`
unfoldable pub begins_with : String → String → Bool
begins_with s String.[] = true
begins_with String.[] (String.◌∷◌ d m) = false
begins_with (String.◌∷◌ c s) (String.◌∷◌ d m) = char_eq c d && begins_with s m

-- `s.includes(m)`
unfoldable pub includes : String → String → Bool
unfolding begins_with
includes String.[] m = begins_with String.[] m
includes (String.◌∷◌ c s) m = begins_with (c ▹ s) m || includes s m

begins_with_sound : (s m : String) → begins_with s m ≡ true → (b : String) × (s ≡ m +++ b)
unfolding begins_with
begins_with_sound s String.[] h = (s, sym (nil-append s))
begins_with_sound String.[] (String.◌∷◌ d m) h = cc
begins_with_sound (String.◌∷◌ c s) (String.◌∷◌ d m) h =
    let (b, e) = begins_with_sound s m (ground arith) in
    let same : c ≡ d = eq_of_char_eq c d (ground arith) in (b, cc (same, e, cons-append d m b))

begins_with-append : (m b : String) → begins_with (m +++ b) m ≡ true
unfolding begins_with
begins_with-append String.[] b = refl
begins_with-append (String.◌∷◌ c m) b =
    rw (cons-append c m b) (ground (arith, begins_with-append m b))

-- A text includes `m` exactly when it is `m` with something before and behind it.
pub includes_sound :
    (s m : String) → includes s m ≡ true → (a : String) × (b : String) × (s ≡ a +++ (m +++ b))
unfolding includes
includes_sound String.[] m h =
    let (b, e) = begins_with_sound String.[] m h in (String.[], b, e ∙ sym (nil-append (m +++ b)))
includes_sound (String.◌∷◌ c s) m h = elim (Bool-cases (begins_with (c ▹ s) m)) [
  | inl here ↦
      let (b, e) = begins_with_sound (c ▹ s) m here in
      (String.[], b, e ∙ sym (nil-append (m +++ b)))
  | inr later ↦
      let (a, b, e) = includes_sound s m (ground arith) in
      (c ▹ a, b, ap (λ t. c ▹ t) e ∙ sym (cons-append c a (m +++ b)))
]

begins_with→includes : (s m : String) → begins_with s m ≡ true → includes s m ≡ true
unfolding includes
begins_with→includes String.[] m h = h
begins_with→includes (String.◌∷◌ c s) m h = ground arith

includes-cons : (c : Char) (s m : String) → includes s m ≡ true → includes (c ▹ s) m ≡ true
unfolding includes
includes-cons c s m h = ground arith

pub includes_complete : (a m b : String) → includes (a +++ (m +++ b)) m ≡ true
includes_complete String.[] m b =
    rw (nil-append (m +++ b)) (begins_with→includes (m +++ b) m (begins_with-append m b))
includes_complete (String.◌∷◌ c a) m b =
    rw (cons-append c a (m +++ b)) (includes-cons c (a +++ (m +++ b)) m (includes_complete a m b))

pub lacks-append : (c : Char) (s t : String) → lacks c (s +++ t) ≡ (lacks c s && lacks c t)
unfolding lacks
lacks-append c String.[] t = rw (nil-append t)
lacks-append c (String.◌∷◌ d s) t = rw (cons-append d s t) (ground (arith, lacks-append c s t))

lacks_self : (c : Char) (s : String) → lacks c (c ▹ s) ≡ false
unfolding lacks
lacks_self c s = ground (arith, char_eq_refl c)

-- Cutting at the first `c`: two texts without it in front of a `c` are the same.
pub split_first :
    (c : Char) (a b : String) {x y : String}
    → lacks c a ≡ true
    → lacks c b ≡ true
    → a +++ c ▹ x ≡ b +++ c ▹ y
    → (a ≡ b) × (x ≡ y)
unfolding lacks
split_first c String.[] String.[] {x} {y} h k e =
    (refl, tail-eq_of_cons-eq (sym (nil-append (c ▹ x)) ∙ e ∙ nil-append (c ▹ y)))
split_first c String.[] (String.◌∷◌ d b) {x} {y} h k e =
    let e' = sym (nil-append (c ▹ x)) ∙ e ∙ cons-append d b (c ▹ y) in
    let same : c ≡ d = head-eq_of_cons-eq e' in absurd (ground (arith, same, char_eq_refl c))
split_first c (String.◌∷◌ d a) String.[] {x} {y} h k e =
    let e' = sym (nil-append (c ▹ y)) ∙ sym e ∙ cons-append d a (c ▹ x) in
    let same : c ≡ d = head-eq_of_cons-eq e' in absurd (ground (arith, same, char_eq_refl c))
split_first c (String.◌∷◌ d a) (String.◌∷◌ f b) {x} {y} h k e =
    let e' = sym (cons-append d a (c ▹ x)) ∙ e ∙ cons-append f b (c ▹ y) in
    let (p, q) = split_first c a b (ground arith) (ground arith) (tail-eq_of_cons-eq e') in
    (cc (head-eq_of_cons-eq e', p), q)

-- Where the part behind a `c` has no other, any other `c` stands in front of it.
pub split_before :
    (c : Char) (a s : String) {x y : String}
    → lacks c y ≡ true
    → a +++ c ▹ x ≡ s +++ c ▹ y
    → (x ≡ y) × (a ≡ s) ⊎ ((r : String) × (s ≡ a +++ c ▹ r) × (x ≡ r +++ c ▹ y))
split_before c String.[] String.[] {x} {y} k e =
    inl (tail-eq_of_cons-eq (sym (nil-append (c ▹ x)) ∙ e ∙ nil-append (c ▹ y)), refl)
split_before c String.[] (String.◌∷◌ d s) {x} {y} k e =
    let e' = sym (nil-append (c ▹ x)) ∙ e ∙ cons-append d s (c ▹ y) in
    let same : c ≡ d = head-eq_of_cons-eq e' in
    inr (s, cc (same, nil-append (c ▹ s)), tail-eq_of_cons-eq e')
split_before c (String.◌∷◌ d a) String.[] {x} {y} k e =
    let e' = tail-eq_of_cons-eq (sym (nil-append (c ▹ y)) ∙ sym e ∙ cons-append d a (c ▹ x)) in
    absurd (ground (arith, ap (lacks c) e', lacks-append c a (c ▹ x), lacks_self c x))
split_before c (String.◌∷◌ d a) (String.◌∷◌ f s) {x} {y} k e =
    let e' = sym (cons-append d a (c ▹ x)) ∙ e ∙ cons-append f s (c ▹ y) in
    let same : d ≡ f = head-eq_of_cons-eq e' in
    elim (split_before c a s k (tail-eq_of_cons-eq e')) [
      | inl (p, q) ↦ inl (p, cc (same, q))
      | inr (r, p, q) ↦ inr (r, cc (same, p, cons-append d a (c ▹ r)), q)
    ]

-- Cutting at the last `c`.
pub split_last :
    (c : Char) (a s : String) {x y : String}
    → lacks c x ≡ true
    → lacks c y ≡ true
    → a +++ c ▹ x ≡ s +++ c ▹ y
    → (a ≡ s) × (x ≡ y)
split_last c a s {x} {y} h k e = elim (split_before c a s k e) [
  | inl (p, q) ↦ (q, p)
  | inr (r, p, q) ↦
      absurd (ground (arith, h, ap (lacks c) q, lacks-append c r (c ▹ y), lacks_self c y))
]
