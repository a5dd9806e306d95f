-- ===== src/Storage/History.antt =====
-- What a stream promises: all events that were appended to it since it was made, of which the
-- stream of internal/storage/memory/store.go keeps those behind the first `dropped`.
pub mod Changes
pub mod Reading
pub mod Keeping
pub mod Appending
pub mod Leaving
pub mod Runs
use synclog.Prelude.{
  ℕ, zero, suc, ◌+◌, ◌-◌, ◌^◌, ◌≤◌, ◌<◌, ◌≡◌, refl, sym, ap, ◌∙◌, String, Bool, not, ◌&&◌, List, [],
  ◌∷◌, ◌++◌, Option, none, some, arith, ◌==◌, leb, if◌then◌else◌, length, drop, length-append,
  subst,
}
use synclog.GoMap.{get, string_key}
use synclog.Log.Types.{Event}
use synclog.Storage.{Store, StreamState}
use synclog.Storage.Stream.{last_seq}

-- The seqs are start + 1, start + 2 and so on.
abbrev pub Numbered : ℕ → List Event → Type 0
Numbered start [] = Unit
Numbered start (e ∷ es) = (e.seq ≡ start + 1) × Numbered (start + 1) es

-- The seq of the first event that was appended with this key; the empty key is none.
abbrev pub seq_of_key : String → List Event → Option ℕ
seq_of_key k [] = none
seq_of_key k (e ∷ es) =
    let rest = seq_of_key k es in
    if not (k == "") && e.idempotency_key == k then some e.seq else rest

-- The retained start of a stream that has dropped this many of its events.
abbrev pub retained_start : ℕ → List Event → ℕ
retained_start dropped history = if leb (length history) 0 then 0 else suc dropped

pub record Holds (history : List Event) (s : StreamState) : Type 0 where
  pub dropped : ℕ
  pub within : dropped ≤ length history
  pub head_eq : s.head ≡ length history
  pub events_eq : s.events ≡ drop dropped history
  pub start_eq : s.retained_seq_start ≡ retained_start dropped history
  pub numbered : Numbered 0 history
  pub keys_eq : (k : String) → get k s.idempotency ≡ seq_of_key k history
  pub bounded : suc (length history) < 2 ^ 64

-- A stream that is not there has no events.
abbrev pub HoldsAt : List Event → Option StreamState → Type 0
HoldsAt history none = history ≡ []
HoldsAt history (some s) = Holds history s

-- The events of every stream.
abbrev pub StoreHolds : (String → List Event) → Store → Type 0
StoreHolds h s = (id : String) → HoldsAt (h id) (get id s.streams)

abbrev pub updated : String → List Event → (String → List Event) → String → List Event
updated id history h j = if id == j then history else h j

pub Numbered-append :
    (a : ℕ) (xs ys : List Event)
    → Numbered a xs
    → Numbered (a + length xs) ys
    → Numbered a (xs ++ ys)
Numbered-append a [] ys h k = subst (λ n. Numbered n ys) {x = a + 0} {y = a} (omega arith) k
Numbered-append a (x ∷ xs) ys h k = (
  h.0,
  Numbered-append (a + 1) xs ys h.1 (
      subst (λ n. Numbered n ys) {x = a + suc (length xs)} {y = a + 1 + length xs} (omega arith) k),
)

Numbered-drop :
    (a n : ℕ) (xs : List Event) → n ≤ length xs → Numbered a xs → Numbered (a + n) (drop n xs)
Numbered-drop a zero xs h k = subst (λ m. Numbered m xs) {x = a} {y = a + 0} (omega arith) k
Numbered-drop a (suc n) [] h k = tt
Numbered-drop a (suc n) (x ∷ xs) h k =
    subst (λ m. Numbered m (drop n xs)) {x = a + 1 + n} {y = a + suc n} (omega arith)
      (Numbered-drop (a + 1) n xs (omega arith) k.1)

pub Numbered-drop_all :
    (n : ℕ) (xs : List Event) → n ≤ length xs → Numbered 0 xs → Numbered n (drop n xs)
Numbered-drop_all n xs h k =
    subst (λ m. Numbered m (drop n xs)) {x = 0 + n} {y = n} (omega arith) (Numbered-drop 0 n xs h k)

pub last_seq-Numbered :
    (a : ℕ) (e : Event) (es : List Event)
    → Numbered a (e ∷ es)
    → last_seq (e ∷ es) ≡ a + length (e ∷ es)
unfolding last_seq
last_seq-Numbered a e [] h = omega (arith, h.0)
last_seq-Numbered a e (f ∷ es) h = omega (arith, last_seq-Numbered (a + 1) f es h.1)
