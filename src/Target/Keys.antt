-- ===== src/Target/Keys.antt =====
-- The texts of target.ts cut at their separators, and what makes a key plain.
use Prim.Native.Char.{Char}
use text.Mathlib.TextLemmas.{nil-append, cons-append, append_assoc}
use synclog.Prelude.{String, ◌≡◌, refl, sym, ap, ◌∙◌, true, ◌&&◌, arith}
use synclog.Prelude.Text.{◌▹◌, ◌+++◌, lacks, lacks-append, split_first}
use synclog.Protocol.Gateway.{SyncTarget}
use synclog.Target.{TargetBindingKey, target_key, target_binding_key}

abbrev pub slash : Char
slash = "/"

abbrev pub colon : Char
colon = ":"

abbrev pub hash : Char
hash = "#"

-- The three parts of a target hold none of the separators.
pub record IsPlain (t : SyncTarget) : Type 0 where
  pub namespace :
      (lacks slash t.namespace && lacks colon t.namespace && lacks hash t.namespace) ≡ true
  pub id : (lacks slash t.id && lacks colon t.id && lacks hash t.id) ≡ true
  pub view : (lacks slash t.view && lacks colon t.view && lacks hash t.view) ≡ true

-- A subscriber's id may hold colons, as "sub:1" does.
pub record IsPlainKey (key : TargetBindingKey) : Type 0 where
  pub target : IsPlain key.target
  pub subscriber : lacks hash key.subscriber_id ≡ true
  pub binding : lacks colon key.binding_key ≡ true

-- Text literals in front of a text are their characters.
one_char : (c : Char) (s : String) → (c ▹ String.[]) +++ s ≡ c ▹ s
one_char c s = cons-append c String.[] s ∙ ap (λ t. c ▹ t) (nil-append s)

slash_text : (s : String) → "/" +++ s ≡ slash ▹ s
slash_text s = one_char slash s

pub colon_text : (s : String) → ":" +++ s ≡ colon ▹ s
colon_text s = one_char colon s

pub hash_text : (s : String) → "#" +++ s ≡ hash ▹ s
hash_text s = one_char hash s

ruleset separators = (slash_text, colon_text, hash_text)

target_key-parts :
    (t : SyncTarget) → target_key t ≡ t.namespace +++ slash ▹ (t.id +++ slash ▹ t.view)
unfolding target_key
target_key-parts t = cc (slash_text t.view, slash_text (t.id +++ "/" +++ t.view))

pub target_binding_key-parts :
    (k : TargetBindingKey)
    → target_binding_key k
      ≡ k.subscriber_id +++ colon ▹ (target_key k.target +++ hash ▹ k.binding_key)
unfolding target_binding_key
target_binding_key-parts k =
    cc (hash_text k.binding_key, colon_text (target_key k.target +++ "#" +++ k.binding_key))

-- A text without slashes is needed around the two that a target's name adds.
target_key-lacks :
    (c : Char) (t : SyncTarget)
    → lacks c t.namespace ≡ true
    → lacks c t.id ≡ true
    → lacks c t.view ≡ true
    → lacks c "/" ≡ true
    → lacks c (target_key t) ≡ true
unfolding target_key
target_key-lacks c t h k l m = ground (
  arith,
  lacks-append c t.namespace ("/" +++ t.id +++ "/" +++ t.view),
  lacks-append c "/" (t.id +++ "/" +++ t.view),
  lacks-append c t.id ("/" +++ t.view),
  lacks-append c "/" t.view,
)

pub target_key-lacks-colon : (t : SyncTarget) → IsPlain t → lacks colon (target_key t) ≡ true
unfolding lacks
target_key-lacks-colon t p =
    target_key-lacks colon t (ground (arith, p.namespace)) (ground (arith, p.id))
      (ground (arith, p.view)) refl

pub target_key-lacks-hash : (t : SyncTarget) → IsPlain t → lacks hash (target_key t) ≡ true
unfolding lacks
target_key-lacks-hash t p =
    target_key-lacks hash t (ground (arith, p.namespace)) (ground (arith, p.id))
      (ground (arith, p.view)) refl

target-eq : (t u : SyncTarget) → t.namespace ≡ u.namespace → t.id ≡ u.id → t.view ≡ u.view → t ≡ u
target-eq t u p q r = λ i. record { namespace = p i; id = q i; view = r i }

-- Plain targets have different names.
pub target_key-injective :
    (t u : SyncTarget) → IsPlain t → IsPlain u → target_key t ≡ target_key u → t ≡ u
target_key-injective t u p q e =
    let e' = sym (target_key-parts t) ∙ e ∙ target_key-parts u in
    let (n, rest) =
      split_first slash t.namespace u.namespace (ground (arith, p.namespace))
        (ground (arith, q.namespace)) e' in
    let (i, v) = split_first slash t.id u.id (ground (arith, p.id)) (ground (arith, q.id)) rest in
    target-eq t u n i v

-- The part of a key's text in front of its binding.
abbrev pub owner : String → SyncTarget → String
owner s t = s +++ colon ▹ target_key t

pub owner_by_hash :
    (s : String) (t : SyncTarget) (b : String)
    → s +++ colon ▹ (target_key t +++ hash ▹ b) ≡ owner s t +++ hash ▹ b
owner_by_hash s t b =
    cc (
      append_assoc s (colon ▹ target_key t) (hash ▹ b),
      cons-append colon (target_key t) (hash ▹ b),
    )

pub key_by_hash :
    (k : TargetBindingKey)
    → target_binding_key k ≡ owner k.subscriber_id k.target +++ hash ▹ k.binding_key
key_by_hash k = target_binding_key-parts k ∙ owner_by_hash k.subscriber_id k.target k.binding_key

pub owner-lacks-hash :
    (s : String) (t : SyncTarget) → lacks hash s ≡ true → IsPlain t → lacks hash (owner s t) ≡ true
unfolding lacks
owner-lacks-hash s t h p =
    ground (arith, lacks-append hash s (colon ▹ target_key t), target_key-lacks-hash t p)
