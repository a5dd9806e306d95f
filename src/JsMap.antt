-- ===== src/JsMap.antt =====
-- JavaScript's `Map` with string keys, in the order of insertion, as memory-store.ts uses it.
use synclog.Prelude.{
  String, ◌≡◌, refl, Bool, false, ◌||◌, List, [], ◌∷◌, Option, none, some, arith, ◌==◌, eq_iff,
  if◌then◌else◌,
}

pub record JsMap {ℓ} (V : Type ℓ) : Type ℓ where
  entries : List (String × V)

-- Whether a key is among the keys.
abbrev pub listed : String → List String → Bool
listed j [] = false
listed j (i ∷ is) = i == j || listed j is

abbrev Entries {ℓ} : Type ℓ → Type ℓ
Entries V = List (String × V)

module _ {ℓ} {V : Type ℓ} where
  lookup : String → Entries V → Option V
  lookup k [] = none
  lookup k ((j, v) ∷ m) = if j == k then some v else lookup k m

  -- A key that is there keeps its place.
  put : String → V → Entries V → Entries V
  put k v [] = (k, v) ∷ []
  put k v ((j, w) ∷ m) = let rest = put k v m in if j == k then (j, v) ∷ m else (j, w) ∷ rest

  without : String → Entries V → Entries V
  without k [] = []
  without k ((j, w) ∷ m) = let rest = without k m in if j == k then rest else (j, w) ∷ rest

  names : Entries V → List String
  names [] = []
  names ((j, w) ∷ m) = j ∷ names m

  unfoldable pub empty : JsMap V
  empty = record { entries = [] }

  unfoldable pub get : String → JsMap V → Option V
  unfolding lookup
  get k m = lookup k m.entries

  unfoldable pub set : String → V → JsMap V → JsMap V
  unfolding put
  set k v m = record { entries = put k v m.entries }

  unfoldable pub delete : String → JsMap V → JsMap V
  unfolding without
  delete k m = record { entries = without k m.entries }

  unfoldable pub keys : JsMap V → List String
  unfolding names
  keys m = names m.entries

  lookup-put :
      (k j : String) (v : V) (m : Entries V)
      → lookup j (put k v m) ≡ (if k == j then some v else lookup j m)
  unfolding lookup put
  lookup-put k j v [] = refl
  lookup-put k j v ((i, w) ∷ m) =
      ground (arith, eq_iff k j, eq_iff i k, eq_iff i j, lookup-put k j v m)

  lookup-without :
      (k j : String) (m : Entries V)
      → lookup j (without k m) ≡ (if k == j then none else lookup j m)
  unfolding lookup without
  lookup-without k j [] = ground arith
  lookup-without k j ((i, w) ∷ m) =
      ground (arith, eq_iff k j, eq_iff i k, eq_iff i j, lookup-without k j m)

  pub get-set :
      (k j : String) (v : V) (m : JsMap V)
      → get j (set k v m) ≡ (if k == j then some v else get j m)
  unfolding get set
  get-set k j v m = lookup-put k j v m.entries

  pub get-delete :
      (k j : String) (m : JsMap V) → get j (delete k m) ≡ (if k == j then none else get j m)
  unfolding get delete
  get-delete k j m = lookup-without k j m.entries

  unlisted : (j : String) (m : Entries V) → listed j (names m) ≡ false → lookup j m ≡ none
  unfolding lookup names
  unlisted j [] h = refl
  unlisted j ((i, w) ∷ m) h = ground (arith, unlisted j m)

  pub get-unlisted : (j : String) (m : JsMap V) → listed j (keys m) ≡ false → get j m ≡ none
  unfolding get keys
  get-unlisted j m h = unlisted j m.entries h

  put_same : (k : String) (v : V) (m : Entries V) → lookup k m ≡ some v → put k v m ≡ m
  unfolding lookup put
  put_same k v [] h = cc
  put_same k v ((i, w) ∷ m) h = ground (arith, put_same k v m)

  -- Writing what is there changes nothing.
  pub set_same : (k : String) (v : V) (m : JsMap V) → get k m ≡ some v → set k v m ≡ m
  unfolding get set
  set_same k v m h = λ i. record { entries = put_same k v m.entries h i }

pub get-empty {ℓ} : {V : Type ℓ} (k : String) → get k (empty {V = V}) ≡ none
unfolding get empty lookup
get-empty k = refl
