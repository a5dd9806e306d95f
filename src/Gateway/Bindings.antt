-- ===== src/Gateway/Bindings.antt =====
-- pkg/gateway/engine.go: targets and the stream bindings they resolve to.
use synclog.Prelude.{
  String, Bool, true, false, not, ◌&&◌, List, [], ◌∷◌, ◌==◌, if◌then◌else◌, is_empty, is_some,
}
use synclog.GoMap.{GoMap, get, set, make, string_key}
use synclog.Protocol.Gateway.{SyncTarget}
use synclog.Log.Result.{
  Op, Result, done, failed, Failure, invalid_argument, too_long, not_found, access_denied, other,
  return, invalid, from_result, ◌>>=◌, ◌>>◌, invalid_error,
}
use synclog.Gateway.Types.{StreamBinding, Hooks}

abbrev pub default_binding_key : String
default_binding_key = "default"

module _ {S : Type 0} where
  unfoldable pub validate_target : SyncTarget → Op S (Unit {0})
  validate_target target =
      if target.namespace == ""
      then invalid "target namespace is required"
      else if target.id == ""
      then invalid "target id is required"
      else return tt

  -- The loop of validateTargets.
  unfoldable pub validate_each : List SyncTarget → Op S (Unit {0})
  unfolding validate_target
  validate_each [] = return tt
  validate_each (target ∷ targets) =
      let rest = validate_each targets in validate_target target >> rest

  unfoldable pub validate_targets : List SyncTarget → Op S (Unit {0})
  unfolding validate_each
  validate_targets targets =
      if is_empty targets then invalid "at least one target is required" else validate_each targets

unfoldable pub keyed : StreamBinding → StreamBinding
keyed binding =
    if binding.binding_key == ""
    then record binding { binding_key = default_binding_key }
    else binding

-- The binding in front of those that follow.
unfoldable pub cons_binding :
    StreamBinding → Result (List StreamBinding) → Result (List StreamBinding)
cons_binding binding (done bindings) = done (binding ∷ bindings)
cons_binding binding (failed e) = failed e

-- The loop of resolveBindings; `alone` says whether there is one binding only.
unfoldable pub check_bindings :
    Bool → GoMap String (Unit {0}) → List StreamBinding → Result (List StreamBinding)
unfolding keyed cons_binding
check_bindings alone seen [] = done []
check_bindings alone seen (binding ∷ bindings) =
    let rest = check_bindings alone (set (keyed binding).binding_key tt seen) bindings in
    if binding.stream_id == ""
    then failed (invalid_error "stream id is required in target binding")
    else if binding.binding_key == "" && not alone
    then failed (invalid_error "binding key is required for multi-binding target")
    else if is_some (get (keyed binding).binding_key seen)
    then failed (invalid_error "duplicate binding key")
    else cons_binding (keyed binding) rest

abbrev pub is_alone : List StreamBinding → Bool
is_alone [] = false
is_alone (b ∷ []) = true
is_alone (b ∷ c ∷ bs) = false

unfoldable pub checked_bindings : List StreamBinding → Result (List StreamBinding)
unfolding check_bindings
checked_bindings bindings =
    if is_empty bindings
    then failed (invalid_error "target must resolve to at least one stream binding")
    else check_bindings (is_alone bindings) make bindings

unfoldable pub resolve_bindings :
    {S Actor : Type 0} → Hooks S Actor → Actor → SyncTarget → Op S (List StreamBinding)
unfolding validate_target checked_bindings
resolve_bindings hooks actor target =
    validate_target target
    >> (hooks.resolve_target actor target >>= λ resolution.
        from_result (checked_bindings resolution.bindings))

unfoldable pub find_binding : String → List StreamBinding → Result StreamBinding
find_binding requested [] = failed (invalid_error "unknown binding key")
find_binding requested (b ∷ bs) =
    let rest = find_binding requested bs in if b.binding_key == requested then done b else rest

unfoldable pub only_binding : List StreamBinding → Result StreamBinding
only_binding [] = failed (invalid_error "binding key is required for multi-binding target")
only_binding (b ∷ []) = done b
only_binding (b ∷ c ∷ bs) =
    failed (invalid_error "binding key is required for multi-binding target")

unfoldable pub select_binding : List StreamBinding → String → Result StreamBinding
unfolding find_binding only_binding
select_binding bindings requested =
    if requested == "" then only_binding bindings else find_binding requested bindings

unfoldable pub is_allowed : List String → String → Bool
is_allowed [] payload_type = false
is_allowed (candidate ∷ allowed) payload_type =
    let rest = is_allowed allowed payload_type in if candidate == payload_type then true else rest

-- `kind` is the word in the message.
unfoldable pub require_allowed_type : {S : Type 0} → List String → String → String → Op S (Unit {0})
unfolding is_allowed
require_allowed_type allowed payload_type kind =
    if is_empty allowed
    then return tt
    else if is_allowed allowed payload_type
    then return tt
    else invalid "type is not allowed by target binding"

unfoldable pub rejection_code : Failure → String
rejection_code (access_denied message) = "PERMISSION_DENIED"
rejection_code (invalid_argument message) = "INVALID_ARGUMENT"
rejection_code (not_found message) = "NOT_FOUND"
rejection_code (too_long message) = "FAILED_PRECONDITION"
rejection_code (other message) = "INTERNAL"
