-- ===== src/Gateway/Codec.antt =====
-- pkg/gateway/codec.go: the static registry of codecs.
use synclog.Prelude.{
  ℕ, ◌≡◌, refl, String, Bool, true, false, not, ◌&&◌, ◌||◌, List, [], ◌∷◌, Option, none, some,
  arith, ◌==◌, eq_iff, if◌then◌else◌, nat_eq, Bool-cases, inl, inr, ◌∙◌, ap,
}
use synclog.GoMap.{GoMap, get, set, get-set, get_made, make, string_key, number_key}

pub record CodecRegistryEntry : Type 0 where
  pub payload_type : String
  pub payload_version : ℕ

pub record StaticCodecRegistry : Type 0 where
  pub entries : GoMap String (GoMap ℕ Bool)

unfoldable pub or_none : Option (GoMap ℕ Bool) → GoMap ℕ Bool
or_none none = make
or_none (some versions) = versions

unfoldable pub register : String → ℕ → StaticCodecRegistry → StaticCodecRegistry
unfolding or_none
register payload_type payload_version r = if payload_type == "" then r else record {
  entries =
      set payload_type (set payload_version true (or_none (get payload_type r.entries))) r.entries;
}

unfoldable pub register_all : List CodecRegistryEntry → StaticCodecRegistry → StaticCodecRegistry
unfolding register
register_all [] r = r
register_all (e ∷ es) r = register_all es (register e.payload_type e.payload_version r)

unfoldable pub new_static_codec_registry : List CodecRegistryEntry → StaticCodecRegistry
unfolding register_all
new_static_codec_registry es = register_all es (record { entries = make })

-- A missing entry is Go's `false`.
unfoldable pub is_true : Option Bool → Bool
is_true none = false
is_true (some b) = b

-- CanDecode; a nil registry decodes nothing.
unfoldable pub can_decode : Option StaticCodecRegistry → String → ℕ → Bool
unfolding is_true or_none
can_decode none payload_type payload_version = false
can_decode (some r) payload_type payload_version =
    is_true (get payload_version (or_none (get payload_type r.entries)))

-- Whether an entry for this type and version is in the list.
abbrev pub names_codec : String → ℕ → List CodecRegistryEntry → Bool
names_codec t v [] = false
names_codec t v (e ∷ es) = e.payload_type == t && nat_eq e.payload_version v || names_codec t v es

can_decode-register :
    (t u : String) (v w : ℕ) (r : StaticCodecRegistry)
    → can_decode (some (register u w r)) t v
      ≡ (not (u == "") && u == t && nat_eq w v || can_decode (some r) t v)
unfolding can_decode register is_true or_none
can_decode-register t u v w r = elim (Bool-cases (u == "")) [
  | inl empty ↦ rw empty refl
  | inr named ↦
      let versions = or_none (get u r.entries) in
      elim (Bool-cases (u == t)) [
        | inl same ↦
            let at : get u r.entries ≡ get t r.entries =
              ap (λ k. get k r.entries) ((eq_iff u t).0 same) in
            rw
              (
                named,
                get-set u t (set w true versions) r.entries,
                same,
                or_none,
                get-set w v true versions,
                at,
              )
              (elim (Bool-cases (nat_eq w v)) [ inl one ↦ rw one refl | inr two ↦ rw two refl ])
        | inr different ↦ rw (named, get-set u t (set w true versions) r.entries, different) refl
      ]
]

can_decode-register_all :
    (es : List CodecRegistryEntry) (r : StaticCodecRegistry) (t : String) (v : ℕ)
    → can_decode (some (register_all es r)) t v
      ≡ (not (t == "") && names_codec t v es || can_decode (some r) t v)
unfolding register_all
can_decode-register_all [] r t v = ground arith
can_decode-register_all (e ∷ es) r t v =
    can_decode-register_all es (register e.payload_type e.payload_version r) t v
    ∙ rw (can_decode-register t e.payload_type v e.payload_version r)
        (ground (arith, eq_iff e.payload_type t, eq_iff e.payload_type "", eq_iff t ""))

-- A registry made from a list decodes exactly what the list names, an empty type excepted.
can_decode-new :
    (es : List CodecRegistryEntry) (t : String) (v : ℕ)
    → can_decode (some (new_static_codec_registry es)) t v ≡ (not (t == "") && names_codec t v es)
unfolding new_static_codec_registry can_decode or_none is_true
can_decode-new es t v =
    can_decode-register_all es (record { entries = make }) t v
    ∙ rw (get_made {V = GoMap ℕ Bool} t, get_made {V = Bool} v) (ground arith)
