-- ===== src/Gateway/Selecting.antt =====
-- The bindings that pkg/gateway/engine.go resolves, and selecting one of them.
use synclog.Prelude.{
  ◌≡◌, refl, sym, ap, subst, ◌∙◌, String, Bool, true, false, not, ◌&&◌, List, [], ◌∷◌, arith, ◌==◌,
  eq_iff, is_some, is_empty, Bool-cases, inl, inr, All, All-map, All-both,
}
use synclog.GoMap.{GoMap, get, set, get-set, make, string_key}
use synclog.Log.Result.{Result, done, failed, invalid_error}
use synclog.Gateway.Types.{StreamBinding}
use synclog.Gateway.Bindings.{
  keyed, cons_binding, check_bindings, checked_bindings, find_binding, select_binding, is_alone,
}

-- A binding with a stream and a key of its own.
abbrev pub Named : StreamBinding → Type 0
Named b = ((b.stream_id == "") ≡ false) × ((b.binding_key == "") ≡ false)

abbrev Unseen : GoMap String (Unit {0}) → StreamBinding → Type 0
Unseen seen b = is_some (get b.binding_key seen) ≡ false

abbrev OtherKey : StreamBinding → StreamBinding → Type 0
OtherKey b c = (b.binding_key == c.binding_key) ≡ false

abbrev Distinct : List StreamBinding → Type 0
Distinct [] = Unit
Distinct (b ∷ bs) = All (OtherKey b) bs × Distinct bs

-- What checking gives.
abbrev Checked : GoMap String (Unit {0}) → Result (List StreamBinding) → Type 0
Checked seen (failed e) = Unit
Checked seen (done out) = All Named out × All (Unseen seen) out × Distinct out

keyed-Named : (b : StreamBinding) → ((b.stream_id == "") ≡ false) → Named (keyed b)
unfolding keyed
keyed-Named b h = elim (Bool-cases (b.binding_key == "")) [
  | inl empty ↦ rw empty (h, refl)
  | inr given ↦ rw given (h, given)
]

Unseen-set :
    (seen : GoMap String (Unit {0})) (b c : StreamBinding)
    → Unseen (set b.binding_key tt seen) c
    → Unseen seen c × OtherKey b c
Unseen-set seen b c h = elim (Bool-cases (b.binding_key == c.binding_key)) [
  | inl same ↦
      let it : is_some (get c.binding_key (set b.binding_key tt seen)) ≡ true =
        rw (get-set b.binding_key c.binding_key tt seen, same) refl in
      absurd (ground (arith, h, it))
  | inr other ↦
      let it : get c.binding_key (set b.binding_key tt seen) ≡ get c.binding_key seen =
        get-set b.binding_key c.binding_key tt seen ∙ rw other refl in
      (sym (ap is_some it) ∙ h, other)
]

cons_binding-Checked :
    (seen : GoMap String (Unit {0})) (b : StreamBinding) (r : Result (List StreamBinding))
    → Named b
    → Unseen seen b
    → Checked (set b.binding_key tt seen) r
    → Checked seen (cons_binding b r)
unfolding cons_binding
cons_binding-Checked seen b (failed e) n u h = tt
cons_binding-Checked seen b (done out) n u h = (
  (n, h.0),
  (
    u,
    All-map (Unseen (set b.binding_key tt seen)) (Unseen seen) out
        (λ c k. (Unseen-set seen b c k).0) h.1,
  ),
  (
    All-map (Unseen (set b.binding_key tt seen)) (OtherKey b) out (λ c k. (Unseen-set seen b c k).1)
        h.1,
    h.2,
  ),
)

check_bindings-Checked :
    (alone : Bool) (seen : GoMap String (Unit {0})) (bs : List StreamBinding)
    → Checked seen (check_bindings alone seen bs)
unfolding check_bindings
check_bindings-Checked alone seen [] = (tt, tt, tt)
check_bindings-Checked alone seen (b ∷ bs) = elim (Bool-cases (b.stream_id == "")) [
  | inl nowhere ↦ rw nowhere tt
  | inr there ↦ elim (Bool-cases (b.binding_key == "" && not alone)) [
    | inl unnamed ↦ rw (there, unnamed) tt
    | inr named ↦ elim (Bool-cases (is_some (get (keyed b).binding_key seen))) [
      | inl again ↦ rw (there, named, again) tt
      | inr new ↦
          rw (there, named, new)
            (cons_binding-Checked seen (keyed b)
              (check_bindings alone (set (keyed b).binding_key tt seen) bs) (keyed-Named b there)
              new (check_bindings-Checked alone (set (keyed b).binding_key tt seen) bs))
    ]
  ]
]

find_binding-Distinct :
    (bs : List StreamBinding) → Distinct bs → All (λ b. find_binding b.binding_key bs ≡ done b) bs
unfolding find_binding
find_binding-Distinct [] h = tt
find_binding-Distinct (b ∷ bs) h = (
  rw ((eq_iff b.binding_key b.binding_key).1 refl) refl,
  All-map (λ c. OtherKey b c × (find_binding c.binding_key bs ≡ done c))
      (λ c. find_binding c.binding_key (b ∷ bs) ≡ done c) bs (λ c k. rw (k.0) k.1)
      (All-both (OtherKey b) (λ c. find_binding c.binding_key bs ≡ done c) bs h.0
        (find_binding-Distinct bs h.1)),
)

-- Where the bindings that a target resolves to are accepted, each has a stream and a key, and its
-- key selects that very binding.
pub select_binding-checked :
    (bs out : List StreamBinding)
    → checked_bindings bs ≡ done out
    → All (λ b. Named b × (select_binding out b.binding_key ≡ done b)) out
unfolding checked_bindings select_binding
select_binding-checked bs out h = elim (Bool-cases (is_empty bs)) [
  | inl empty ↦
      let no : ◌≡◌ {A = Result (List StreamBinding)}
          (failed (invalid_error "target must resolve to at least one stream binding")) (done out) =
        sym (rw empty refl) ∙ h in
      absurd (cc no)
  | inr some_there ↦
      let it : check_bindings (is_alone bs) make bs ≡ done out = sym (rw some_there refl) ∙ h in
      let checked = subst (Checked make) it (check_bindings-Checked (is_alone bs) make bs) in
      All-map (λ b. Named b × (find_binding b.binding_key out ≡ done b))
        (λ b. Named b × (select_binding out b.binding_key ≡ done b)) out
        (λ b k. (k.0, rw ((k.0).1) k.1))
        (All-both Named (λ b. find_binding b.binding_key out ≡ done b) out checked.0
          (find_binding-Distinct out checked.2))
]
