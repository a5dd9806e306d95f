-- ===== src/Memory/Clearing.antt =====
-- Which records `clearTarget` of memory-store.ts removes.
use synclog.Prelude.{◌≡◌, ◌≢◌, ◌⊎◌, inl, inr, ◌∙◌, Bool-cases}
use synclog.Prelude.Text.{◌+++◌, includes}
use synclog.Protocol.Gateway.{SyncTarget}
use synclog.Target.{TargetBindingKey, target_key, target_binding_key}
use synclog.Target.Keys.{IsPlain, IsPlainKey}
use synclog.Target.Marker.{includes_marker_iff}
use synclog.Memory.{MemorySyncStore, empty_record, marker, clear_target, get_record}
use synclog.Memory.Views.{get_record-clear_target}

module _ {TSnapshot TEvent : Type 0} (target : SyncTarget) (j : TargetBindingKey)
    (s : MemorySyncStore TSnapshot TEvent) where
  -- Where the separators "/", ":" and "#" stand in no part of the target that is cleared and of the
  -- key's target, "#" not in the key's subscriber and ":" not in its binding, clearing the target
  -- empties the key's record if the key is of that target and leaves the record alone if not.
  pub clear_target-exact :
      IsPlain target
      → IsPlainKey j
      → ((target ≡ j.target) × (get_record j (clear_target target s) ≡ empty_record))
        ⊎ ((target ≢ j.target) × (get_record j (clear_target target s) ≡ get_record j s))
  unfolding marker
  clear_target-exact p q =
      elim (Bool-cases (includes (target_binding_key j) (":" +++ target_key target +++ "#"))) [
        | inl found ↦ inl (
          (includes_marker_iff target j p q).0 found,
          get_record-clear_target target j s ∙ rw found,
        )
        | inr other ↦ inr (
          λ e. cc ((includes_marker_iff target j p q).1 e),
          get_record-clear_target target j s ∙ rw other,
        )
      ]
