-- ===== src/Storage/Snapshots/Loop.antt =====
-- The loop of Store.GetLatestSnapshot of internal/storage/memory/store.go.
use synclog.Prelude.{
  ◌≡◌, ◌≢◌, ◌⊎◌, inl, inr, refl, sym, subst, All-map, ◌∙◌, true, false, ◌&&◌, List, [], ◌∷◌, Option,
  none, some, arith, if◌then◌else◌, eq_false, Bool-cases, Option-cases, All,
}
use synclog.Protocol.Snapshot.{Snapshot, GetLatestSnapshotRequest}
use synclog.Log.Result.{done, failed, err_not_found}
use synclog.Storage.{Store, SnapshotKey, snapshot_key}
use synclog.Storage.Snapshots.{
  SnapshotEntry, get_latest_snapshot, latest_answer, latest_of, is_wanted, is_later, replaces,
}

-- The snapshots of the store with their keys.
pub data Entry (e : SnapshotEntry) : List SnapshotEntry → Type 0 where
  here : (es : List SnapshotEntry) → Entry e (e ∷ es)
  there : (f : SnapshotEntry) (es : List SnapshotEntry) → Entry e es → Entry e (f ∷ es)

-- The one that was found is as late as this one.
abbrev AtLeast : Snapshot → Option Snapshot → Type 0
AtLeast x none = ⊥
AtLeast x (some latest) = is_later x latest ≡ false

is_later_trans :
    (a b c : Snapshot) → is_later a b ≡ false → is_later c b ≡ true → is_later a c ≡ false
unfolding is_later
is_later_trans a b c h k = ground arith

is_later_self : (a : Snapshot) → is_later a a ≡ false
unfolding is_later
is_later_self a = ground arith

-- One round of the loop.
abbrev next_latest :
    GetLatestSnapshotRequest → Option Snapshot → SnapshotKey → Snapshot → Option Snapshot
next_latest req acc k y = if is_wanted req k && replaces y acc then some y else acc

AtLeast-next_latest :
    (req : GetLatestSnapshotRequest) (x : Snapshot) (acc : Option Snapshot) (k : SnapshotKey)
    (y : Snapshot)
    → AtLeast x acc
    → AtLeast x (next_latest req acc k y)
unfolding replaces
AtLeast-next_latest req x none k y h = absurd h
AtLeast-next_latest req x (some a) k y h = elim (Bool-cases (is_wanted req k && is_later y a)) [
  | inl newer ↦ rw newer (is_later_trans x a y h (ground (arith, newer)))
  | inr older ↦ rw older h
]

own-next_latest :
    (req : GetLatestSnapshotRequest) (acc : Option Snapshot) (k : SnapshotKey) (y : Snapshot)
    → is_wanted req k ≡ true
    → AtLeast y (next_latest req acc k y)
unfolding replaces
own-next_latest req none k y h = rw h (is_later_self y)
own-next_latest req (some a) k y h = elim (Bool-cases (is_later y a)) [
  | inl newer ↦ rw (h, newer) (is_later_self y)
  | inr older ↦ rw (h, older) older
]

AtLeast-latest_of :
    (req : GetLatestSnapshotRequest) (x : Snapshot) (acc : Option Snapshot)
    (es : List SnapshotEntry)
    → AtLeast x acc
    → AtLeast x (latest_of req acc es)
unfolding latest_of
AtLeast-latest_of req x acc [] h = h
AtLeast-latest_of req x acc ((k, y) ∷ es) h =
    AtLeast-latest_of req x (next_latest req acc k y) es (AtLeast-next_latest req x acc k y h)

-- The loop's result is as late as every snapshot that is asked for.
latest_of-AtLeast :
    (req : GetLatestSnapshotRequest) (acc : Option Snapshot) (es : List SnapshotEntry)
    → All (λ e. is_wanted req e.0 ≡ true → AtLeast e.1 (latest_of req acc es)) es
unfolding latest_of
latest_of-AtLeast req acc [] = tt
latest_of-AtLeast req acc ((k, y) ∷ es) = (
  λ h. AtLeast-latest_of req y (next_latest req acc k y) es (own-next_latest req acc k y h),
  latest_of-AtLeast req (next_latest req acc k y) es,
)

-- The loop's result is one of the snapshots that are asked for.
latest_of-Entry :
    (req : GetLatestSnapshotRequest) (acc : Option Snapshot) (es : List SnapshotEntry)
    (l : Snapshot)
    → latest_of req acc es ≡ some l
    → (acc ≡ some l) ⊎ ((k : SnapshotKey) × Entry (k, l) es × (is_wanted req k ≡ true))
unfolding latest_of
latest_of-Entry req acc [] l h = inl h
latest_of-Entry req acc ((k, y) ∷ es) l h =
    elim (latest_of-Entry req (next_latest req acc k y) es l h) [
      | inl now ↦ elim (Bool-cases (is_wanted req k && replaces y acc)) [
        | inl new ↦
            let it : some y ≡ some l = sym (rw new refl) ∙ now in
            inr (
              k,
              subst (λ z. Entry (k, z) ((k, y) ∷ es)) (ground (arith, it)) (here es),
              ground (arith, new),
            )
        | inr old ↦ inl (sym (rw old refl) ∙ now)
      ]
      | inr (j, later, wanted) ↦ inr (j, there (k, y) es later, wanted)
    ]

-- What the loop over the whole map leaves of an entry.
abbrev Lower : GetLatestSnapshotRequest → Store → SnapshotEntry → Type 0
Lower req s e = is_wanted req e.0 ≡ true → AtLeast e.1 (latest_of req none s.snapshots.entries)

-- By the tests of the loop.
pub latest_found :
    (req : GetLatestSnapshotRequest) (s : Store)
    → req.stream_id ≢ ""
    → req.payload_type ≢ ""
    → ((k : SnapshotKey) × (latest : Snapshot) × Entry (k, latest) s.snapshots.entries
        × (is_wanted req k ≡ true)
        × All (λ e. is_wanted req e.0 ≡ true → is_later e.1 latest ≡ false) s.snapshots.entries
        × (get_latest_snapshot (some req) s ≡ (done (record { snapshot = some latest }), s)))
      ⊎ (All (λ e. is_wanted req e.0 ≡ false) s.snapshots.entries
          × (get_latest_snapshot (some req) s ≡ (failed err_not_found, s)))
unfolding get_latest_snapshot
latest_found req s what type = elim (Option-cases (latest_of req none s.snapshots.entries)) [
  | inl nothing ↦ inr (
    All-map (Lower req s) (λ e. is_wanted req e.0 ≡ false) s.snapshots.entries
        (λ e f. elim (Bool-cases (is_wanted req e.0)) [
          | inl wanted ↦ absurd (subst (AtLeast e.1) nothing (f wanted))
          | inr other ↦ other
        ])
        (latest_of-AtLeast req none s.snapshots.entries),
    rw (eq_false req.stream_id "" what, eq_false req.payload_type "" type)
        (rw (nothing, latest_answer) refl),
  )
  | inr (latest, it) ↦ elim (latest_of-Entry req none s.snapshots.entries latest it) [
    | inl early ↦ absurd (cc early)
    | inr (k, stored, wanted) ↦ inl (
      k,
      latest,
      stored,
      wanted,
      All-map (Lower req s) (λ e. is_wanted req e.0 ≡ true → is_later e.1 latest ≡ false)
          s.snapshots.entries (λ e f w. subst (AtLeast e.1) it (f w))
          (latest_of-AtLeast req none s.snapshots.entries),
      rw (eq_false req.stream_id "" what, eq_false req.payload_type "" type)
          (rw (it, latest_answer) refl),
    )
  ]
]
