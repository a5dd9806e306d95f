-- ===== src/Target/Injective.antt =====
-- Different keys are filed under different texts.
use synclog.Prelude.{◌≡◌, sym, ◌∙◌}
use synclog.Prelude.Text.{split_first, split_last}
use synclog.Target.{TargetBindingKey, target_binding_key}
use synclog.Target.Keys.{
  IsPlainKey, colon, hash, key_by_hash, owner-lacks-hash, target_key-lacks-colon,
  target_key-injective,
}

key-eq :
    (j k : TargetBindingKey)
    → j.subscriber_id ≡ k.subscriber_id
    → j.target ≡ k.target
    → j.binding_key ≡ k.binding_key
    → j ≡ k
key-eq j k p q r = λ i. record { subscriber_id = p i; target = q i; binding_key = r i }

-- Two plain keys that are filed under the same text are the same key: the same subscriber, target
-- and binding.
pub target_binding_key-injective :
    (j k : TargetBindingKey)
    → IsPlainKey j
    → IsPlainKey k
    → target_binding_key j ≡ target_binding_key k
    → j ≡ k
target_binding_key-injective j k p q e =
    let e' = sym (key_by_hash j) ∙ e ∙ key_by_hash k in
    let (front, binding) =
      split_first hash _ _ (owner-lacks-hash j.subscriber_id j.target p.subscriber p.target)
        (owner-lacks-hash k.subscriber_id k.target q.subscriber q.target) e' in
    let (subscriber, name) =
      split_last colon _ _ (target_key-lacks-colon j.target p.target)
        (target_key-lacks-colon k.target q.target) front in
    key-eq j k subscriber (target_key-injective j.target k.target p.target q.target name) binding
