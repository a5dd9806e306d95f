-- ===== src/Client/Choice.antt =====
-- Which of a response's bindings a request is about, and under which key its progress is filed.
use synclog.Prelude.{
  String, ◌≡◌, ◌≢◌, refl, ap, ◌⊎◌, inl, inr, ◌↔◌, true, false, List, [], ◌∷◌, Option, none, some,
  arith, All, find, length, truthy, Bool-cases, Option-cases, sym, ◌∙◌, ◌==◌, eq_iff, ◌<◌,
}
use synclog.Io.{Outcome, ok, err, binding_key_required}
use synclog.Protocol.Gateway.{GatewayCatchUpResult}
use synclog.Target.{default_binding_key, normalize_binding_key}
use synclog.Client.{
  SyncClient, SyncBinding, select_result, only_result, or_else, key_of, matches_binding,
}

-- The request names no binding: `undefined`, or the empty string.
abbrev pub Unnamed : Option String → Type 0
Unnamed none = Unit
Unnamed (some k) = k ≡ ""

abbrev pub Names : Option String → String → Type 0
Names o k = (o ≡ some k) × (k ≢ "")

truthy_of : (k : String) → k ≢ "" → truthy k ≡ true
truthy_of k h = ground (arith, eq_iff k "")

truthy_ne : (k : String) → truthy k ≡ true → k ≢ ""
truthy_ne k t e = ground (arith, eq_iff k "")

empty_of : (k : String) → truthy k ≡ false → k ≡ ""
empty_of k f = ground (arith, eq_iff k "")

some-inj : {x y : String} → Path (Option String) (some x) (some y) → x ≡ y
some-inj e = cc

-- The first result with the key.
abbrev pub IsFirst : String → GatewayCatchUpResult → List GatewayCatchUpResult → Type 0
IsFirst k result [] = ⊥
IsFirst k result (r ∷ rs) =
    ((r ≡ result) × (r.binding_key ≡ k)) ⊎ ((r.binding_key ≢ k) × IsFirst k result rs)

find-IsFirst :
    (k : String) (rs : List GatewayCatchUpResult) (result : GatewayCatchUpResult)
    → find (λ r. r.binding_key == k) rs ≡ some result
    → IsFirst k result rs
find-IsFirst k [] result h = cc
find-IsFirst k (r ∷ rs) result h = elim (Bool-cases (r.binding_key == k)) [
  | inl same ↦ inl (ground arith, (eq_iff r.binding_key k).0 same)
  | inr other ↦
      inr (ground (arith, eq_iff r.binding_key k), find-IsFirst k rs result (ground arith))
]

find-none :
    (k : String) (rs : List GatewayCatchUpResult)
    → find (λ r. r.binding_key == k) rs ≡ none
    → All (λ r. r.binding_key ≢ k) rs
find-none k [] h = tt
find-none k (r ∷ rs) h = (ground (arith, eq_iff r.binding_key k), find-none k rs (ground arith))

-- A request that names a binding gets the first result of that binding, or nothing where no result
-- has its key, and no error.
pub select_result-named :
    (results : List GatewayCatchUpResult) (k : String)
    → k ≢ ""
    → ((result : GatewayCatchUpResult) × (select_result results (some k) ≡ ok (some result))
        × IsFirst k result results)
      ⊎ ((select_result results (some k) ≡ ok none) × All (λ r. r.binding_key ≢ k) results)
unfolding select_result
select_result-named results k h =
    let named = truthy_of k h in
    elim (Option-cases (find (λ r. r.binding_key == k) results)) [
      | inl e ↦ inr (rw (named, e), find-none k results e)
      | inr (result, e) ↦ inl (result, rw (named, e), find-IsFirst k results result e)
    ]

select_result-only :
    (results : List GatewayCatchUpResult) (o : Option String)
    → Unnamed o
    → select_result results o ≡ only_result results
unfolding select_result
select_result-only results none h = refl
select_result-only results (some k) h = ground (arith, eq_iff k "")

-- What `selectResult` may answer where no binding is named.
abbrev Chosen :
    List GatewayCatchUpResult
    → GatewayCatchUpResult
    → Outcome (Option GatewayCatchUpResult)
    → Type 0
Chosen results r answer =
    ((answer ≡ err binding_key_required) ↔ (1 < length results))
    × ((answer ≡ ok none) ↔ (results ≡ []))
    × ((answer ≡ ok (some r)) ↔ (results ≡ r ∷ []))

only_result-Chosen :
    (results : List GatewayCatchUpResult) (r : GatewayCatchUpResult)
    → Chosen results r (only_result results)
unfolding only_result
only_result-Chosen [] r =
    ((λ e. cc, λ h. absurd (omega arith)), (λ e. refl, λ e. refl), (λ e. cc, λ e. cc))
only_result-Chosen (x ∷ []) r =
    ((λ e. cc, λ h. absurd (omega arith)), (λ e. cc, λ e. cc), (λ e. cc, λ e. cc))
only_result-Chosen (x ∷ y ∷ rest) r =
    ((λ e. omega arith, λ h. refl), (λ e. cc, λ e. cc), (λ e. cc, λ e. cc))

-- A request that names no binding, by none or by an empty key, is refused exactly where there are
-- several results; otherwise it gets the one result, or nothing where there is none.
pub select_result-Unnamed :
    (results : List GatewayCatchUpResult) (o : Option String) (r : GatewayCatchUpResult)
    → Unnamed o
    → ((select_result results o ≡ err binding_key_required) ↔ (1 < length results))
      × ((select_result results o ≡ ok none) ↔ (results ≡ []))
      × ((select_result results o ≡ ok (some r)) ↔ (results ≡ r ∷ []))
select_result-Unnamed results o r h =
    rw (select_result-only results o h) (only_result-Chosen results r)

-- A frame is for a binding that is named exactly when it has the binding's key; where none is
-- named every frame is.
matches_binding_iff :
    (response_key : String) (o : Option String)
    → (matches_binding response_key o ≡ true) ↔ (Unnamed o ⊎ (o ≡ some response_key))
unfolding matches_binding
matches_binding_iff response_key none = (λ h. inl tt, λ h. refl)
matches_binding_iff response_key (some k) = (
  λ h. ground (arith, eq_iff k "", eq_iff response_key k),
  λ h. ground (arith, eq_iff k "", eq_iff response_key k),
)

module _ (response_key : String) where
  normalized_iff :
      (o : Option String) (k : String)
      → (normalize_binding_key (or_else o (some response_key)) ≡ k) ↔ (
          Names o k
          ⊎ ((o ≡ none) × (response_key ≡ k) × (k ≢ ""))
          ⊎ ((k ≡ default_binding_key) × ((o ≡ some "") ⊎ ((o ≡ none) × (response_key ≡ "")))))
  unfolding normalize_binding_key
  normalized_iff none k = elim (Bool-cases (truthy response_key)) [
    | inl t ↦ rw t (
      λ h. inr (inl (refl, h, λ e. truthy_ne response_key t (h ∙ e))),
      λ s. elim s [
        | inl n ↦ cc
        | inr (inl q) ↦ q.1
        | inr (inr (d, inl q)) ↦ cc
        | inr (inr (d, inr q)) ↦ absurd (truthy_ne response_key t q.1)
      ],
    )
    | inr f ↦ rw f (
      λ h. inr (inr (sym h, inr (refl, empty_of response_key f))),
      λ s. elim s [
        | inl n ↦ cc
        | inr (inl q) ↦ absurd (q.2 (sym q.1 ∙ empty_of response_key f))
        | inr (inr (d, q)) ↦ sym d
      ],
    )
  ]
  normalized_iff (some x) k = elim (Bool-cases (truthy x)) [
    | inl t ↦ rw t (
      λ h. inl (ap some h, λ e. truthy_ne x t (h ∙ e)),
      λ s. elim s [
        | inl n ↦ cc
        | inr (inl q) ↦ cc
        | inr (inr (d, inl q)) ↦ absurd (truthy_ne x t (some-inj q))
        | inr (inr (d, inr q)) ↦ cc
      ],
    )
    | inr f ↦ rw f (
      λ h. inr (inr (sym h, inl (ap some (empty_of x f)))),
      λ s. elim s [
        | inl n ↦ absurd (n.1 (sym (some-inj n.0) ∙ empty_of x f))
        | inr (inl q) ↦ cc
        | inr (inr (d, q)) ↦ sym d
      ],
    )
  ]

module _ {W TSnapshot TEvent : Type 0} (client : SyncClient W)
    (binding : SyncBinding W TSnapshot TEvent) (response_key : String) where
  -- Progress is filed under a key exactly when the binding names it, or the binding has no key and
  -- it is the response's, or it is the default key and the first of the two that is there, the
  -- binding's key or the response's, is empty.
  pub key_of_iff :
      (k : String)
      → ((key_of client binding (some response_key)).binding_key ≡ k) ↔ (
          Names binding.binding_key k
          ⊎ ((binding.binding_key ≡ none) × (response_key ≡ k) × (k ≢ ""))
          ⊎ ((k ≡ default_binding_key)
              × ((binding.binding_key ≡ some "")
                  ⊎ ((binding.binding_key ≡ none) × (response_key ≡ "")))))
  unfolding key_of
  key_of_iff = normalized_iff response_key binding.binding_key
