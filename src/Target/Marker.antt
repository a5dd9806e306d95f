-- ===== src/Target/Marker.antt =====
-- The texts that `clearTarget` looks for in the keys of a store.
use text.Mathlib.TextLemmas.{append_assoc}
use synclog.Prelude.{String, ◌≡◌, sym, ap, ◌∙◌, true, arith, inl, inr, ◌↔◌}
use synclog.Prelude.Text.{
  ◌▹◌, ◌+++◌, lacks, includes, includes_sound, includes_complete, lacks-append, split_first,
  split_before,
}
use synclog.Protocol.Gateway.{SyncTarget}
use synclog.Target.{TargetBindingKey, target_key, target_binding_key}
use synclog.Target.Keys.{
  IsPlain, IsPlainKey, colon, hash, colon_text, hash_text, target_key-lacks-colon,
  target_key-lacks-hash, owner_by_hash, owner-lacks-hash, target_key-injective,
  target_binding_key-parts,
}

-- A colon in the subscriber's id does not begin a marker.
no_early_colon :
    (t u : SyncTarget) (s a r b d : String)
    → IsPlain t
    → IsPlain u
    → lacks hash s ≡ true
    → s ≡ a +++ colon ▹ r
    → target_key t +++ hash ▹ b ≡ r +++ colon ▹ (target_key u +++ hash ▹ d)
    → ⊥
unfolding lacks
no_early_colon t u s a r b d p q h e f =
    let r_plain : lacks hash r ≡ true =
      ground (arith, ap (lacks hash) e, lacks-append hash a (colon ▹ r)) in
    let same =
      (split_first hash _ _ (target_key-lacks-hash t p) (owner-lacks-hash r u r_plain q)
        (f ∙ owner_by_hash r u d)).0 in
    ground (
      arith,
      ap (lacks colon) same,
      target_key-lacks-colon t p,
      lacks-append colon r (colon ▹ target_key u),
    )

tail-lacks-colon :
    (k : TargetBindingKey)
    → IsPlainKey k
    → lacks colon (target_key k.target +++ hash ▹ k.binding_key) ≡ true
unfolding lacks
tail-lacks-colon k q = ground (
  arith,
  lacks-append colon (target_key k.target) (hash ▹ k.binding_key),
  target_key-lacks-colon k.target q.target,
)

marker_cut :
    (t : SyncTarget) (k : TargetBindingKey) (a b : String)
    → IsPlain t
    → IsPlainKey k
    → a +++ colon ▹ (target_key t +++ hash ▹ b)
      ≡ k.subscriber_id +++ colon ▹ (target_key k.target +++ hash ▹ k.binding_key)
    → t ≡ k.target
marker_cut t k a b p q e = elim (split_before colon a k.subscriber_id (tail-lacks-colon k q) e) [
  | inl (same, _) ↦
      target_key-injective t k.target p q.target
        (split_first hash _ _ (target_key-lacks-hash t p) (target_key-lacks-hash k.target q.target)
          same).0
  | inr (r, before, behind) ↦ absurd (
      no_early_colon t k.target k.subscriber_id a r b k.binding_key p q.target q.subscriber before
        behind)
]

marker_text :
    (t : SyncTarget) (b : String)
    → (":" +++ target_key t +++ "#") +++ b ≡ colon ▹ (target_key t +++ hash ▹ b)
marker_text t b = cc (
  append_assoc ":" (target_key t +++ "#") b,
  append_assoc (target_key t) "#" b,
  hash_text b,
  colon_text (target_key t +++ hash ▹ b),
)

marker_sound :
    (t : SyncTarget) (k : TargetBindingKey)
    → IsPlain t
    → IsPlainKey k
    → includes (target_binding_key k) (":" +++ target_key t +++ "#") ≡ true
    → t ≡ k.target
marker_sound t k p q h =
    let (a, b, e) = includes_sound (target_binding_key k) (":" +++ target_key t +++ "#") h in
    marker_cut t k a b p q
      (ap (λ x. a +++ x) (sym (marker_text t b)) ∙ sym e ∙ target_binding_key-parts k)

-- Every key's text includes the marker of its own target, whatever its parts hold.
pub marker_complete :
    (t : SyncTarget) (k : TargetBindingKey)
    → t ≡ k.target
    → includes (target_binding_key k) (":" +++ target_key t +++ "#") ≡ true
marker_complete t k e =
    let m = ":" +++ target_key t +++ "#" in
    let parts : target_binding_key k ≡ k.subscriber_id +++ (m +++ k.binding_key) =
      cc (target_binding_key-parts k, e, marker_text t k.binding_key) in
    rw parts (includes_complete k.subscriber_id m k.binding_key)

-- The text `:<target>#` stands in a plain key's text exactly when the key is of that target.
pub includes_marker_iff :
    (t : SyncTarget) (k : TargetBindingKey)
    → IsPlain t
    → IsPlainKey k
    → (includes (target_binding_key k) (":" +++ target_key t +++ "#") ≡ true) ↔ (t ≡ k.target)
includes_marker_iff t k p q = (λ h. marker_sound t k p q h, λ e. marker_complete t k e)
