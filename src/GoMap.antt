-- ===== src/GoMap.antt =====
-- Go's maps, as internal/storage/memory/store.go and pkg/gateway use them: the entries in the
-- order in which a `range` visits them, which Go leaves open.
use synclog.Prelude.{
  ℕ, String, ◌≡◌, refl, Bool, true, false, List, [], ◌∷◌, Option, none, some, arith, ◌↔◌, ◌==◌,
  eq_iff, if◌then◌else◌, nat_eq, nat_eq_iff, Bool-cases, inl, inr, ap, ◌∙◌,
}

-- `==` on the type of the keys.
pub record Key {ℓ} (K : Type ℓ) : Type ℓ where
  pub same : K → K → Bool
  pub same_iff : (a b : K) → (same a b ≡ true) ↔ (a ≡ b)

instance abbrev pub string_key : Key String
string_key = record { same = ◌==◌; same_iff = eq_iff }

instance abbrev pub number_key : Key ℕ
number_key = record { same = nat_eq; same_iff = nat_eq_iff }

pub record GoMap {ℓ κ} (K : Type ℓ) (V : Type κ) : Type (ℓ ⊔ κ) where
  pub entries : List (K × V)

module _ {ℓ κ} {K : Type ℓ} {V : Type κ} where
  unfoldable pub make : GoMap K V
  make = record { entries = [] }

  keep : (K → V → Bool) → List (K × V) → List (K × V)
  keep p [] = []
  keep p ((k, v) ∷ m) = let rest = keep p m in if p k v then (k, v) ∷ rest else rest

  -- The map after a loop that deletes the entries without `p`.
  unfoldable pub filtered : (K → V → Bool) → GoMap K V → GoMap K V
  unfolding keep
  filtered p m = record { entries = keep p m.entries }

module _ {ℓ κ} {K : Type ℓ} {V : Type κ} ⦃key : Key K⦄ where
  lookup : K → List (K × V) → Option V
  lookup k [] = none
  lookup k ((j, v) ∷ m) = if key.same j k then some v else lookup k m

  put : K → V → List (K × V) → List (K × V)
  put k v [] = (k, v) ∷ []
  put k v ((j, w) ∷ m) = let rest = put k v m in if key.same j k then (j, v) ∷ m else (j, w) ∷ rest

  -- `v, ok := m[k]`
  unfoldable pub get : K → GoMap K V → Option V
  unfolding lookup
  get k m = lookup k m.entries

  -- `m[k] = v`
  unfoldable pub set : K → V → GoMap K V → GoMap K V
  unfolding put
  set k v m = record { entries = put k v m.entries }

  -- `delete(m, k)`
  unfoldable pub delete : K → GoMap K V → GoMap K V
  unfolding filtered keep
  delete k m = filtered (λ j _. if key.same j k then false else true) m

  pub get_made : (k : K) → get k (make {K = K} {V = V}) ≡ none
  unfolding get make lookup
  get_made k = refl

  lookup-put :
      (k j : K) (v : V) (m : List (K × V))
      → lookup j (put k v m) ≡ (if key.same k j then some v else lookup j m)
  unfolding lookup put
  lookup-put k j v [] = refl
  lookup-put k j v ((i, w) ∷ m) =
      ground (arith, key.same_iff k j, key.same_iff i k, key.same_iff i j, lookup-put k j v m)

  pub get-set :
      (k j : K) (v : V) (m : GoMap K V)
      → get j (set k v m) ≡ (if key.same k j then some v else get j m)
  unfolding get set
  get-set k j v m = lookup-put k j v m.entries

  -- Entries whose keys alone decide whether they stay.
  lookup-keep :
      (p : K → Bool) (j : K) (m : List (K × V))
      → lookup j (keep (λ k _. p k) m) ≡ (if p j then lookup j m else none)
  unfolding lookup keep
  lookup-keep p j [] = ground arith
  lookup-keep p j ((i, w) ∷ m) = elim (Bool-cases (key.same i j)) [
    | inl s ↦
        let e : p i ≡ p j = ap p ((key.same_iff i j).0 s) in ground (arith, e, s, lookup-keep p j m)
    | inr n ↦ ground (arith, n, lookup-keep p j m)
  ]

  pub get-filtered :
      (p : K → Bool) (j : K) (m : GoMap K V)
      → get j (filtered (λ k _. p k) m) ≡ (if p j then get j m else none)
  unfolding get filtered
  get-filtered p j m = lookup-keep p j m.entries

  pub get-delete :
      (k j : K) (m : GoMap K V) → get j (delete k m) ≡ (if key.same k j then none else get j m)
  unfolding get delete filtered
  get-delete k j m =
      lookup-keep (λ i. if key.same i k then false else true) j m.entries
      ∙ ground (arith, key.same_iff k j, key.same_iff j k)
