-- ===== src/Memory/Coverage.antt =====
-- Whether a record of the memory store still holds everything up to its applied seq: each seq is
-- in the snapshot or has its event.
use synclog.Prelude.{
  ℕ, ◌+◌, ◌≤◌, ◌<◌, ◌≡◌, subst, ◌⊎◌, inl, inr, List, [], ◌∷◌, ◌++◌, some, true, arith, lt→ltb,
  Bool-cases, leb, ltb,
}
use synclog.Store.{DecodedGatewayEvent, DecodedGatewaySnapshot}
use synclog.Memory.{MemorySyncRecord, empty_record, push_event, push_events, snapshot_record}
use synclog.Memory.Records.{
  Run, HasSeq, Ordered, HasSeq-append_left, HasSeq-append_last, Ordered-above, snapshot_seq,
  IsValid,
}

module _ {TSnapshot TEvent : Type 0} where
  pub record Covers (r : MemorySyncRecord TSnapshot TEvent) : Type 0 where
    pub shows : (n : ℕ) → 0 < n → n ≤ r.applied_seq → (n ≤ snapshot_seq r) ⊎ HasSeq n r.events

  pub Covers-empty : Covers empty_record
  Covers-empty = record { shows = λ n h k. absurd (omega arith) }

  push_event-Covers :
      (r : MemorySyncRecord TSnapshot TEvent) (e : DecodedGatewayEvent TEvent)
      → e.seq ≡ r.applied_seq + 1
      → Covers r
      → Covers (record r { events = r.events ++ e ∷ []; applied_seq = e.seq })
  push_event-Covers r e next c = record { shows = shown }
    where
      shown : (n : ℕ) → 0 < n → n ≤ e.seq → (n ≤ snapshot_seq r) ⊎ HasSeq n (r.events ++ e ∷ [])
      shown n h k = elim (Bool-cases (leb n r.applied_seq)) [
        | inl old ↦ elim (c.shows n h (ground arith)) [
          | inl p ↦ inl p
          | inr m ↦ inr (HasSeq-append_left n r.events (e ∷ []) m)
        ]
        | inr new ↦
            let here : e.seq ≡ n = ground arith in
            inr (subst (λ k. HasSeq k (r.events ++ e ∷ [])) here (HasSeq-append_last r.events e))
      ]

  -- A batch without gaps that begins at or before the next seq leaves no gap.
  pub push_events-Covers :
      (r : MemorySyncRecord TSnapshot TEvent) (start : ℕ) (es : List (DecodedGatewayEvent TEvent))
      → Run start es
      → start ≤ r.applied_seq
      → Covers r
      → Covers (push_events r es)
  unfolding push_events push_event
  push_events-Covers r start [] run h c = c
  push_events-Covers r start (e ∷ es) run h c = elim (Bool-cases (leb e.seq r.applied_seq)) [
    | inl old ↦ rw old (push_events-Covers r (start + 1) es run.1 (ground arith) c)
    | inr new ↦ rw new (
        push_events-Covers (record r { events = r.events ++ e ∷ []; applied_seq = e.seq })
          (start + 1) es run.1 (omega arith) (push_event-Covers r e (ground arith) c))
  ]

  -- A snapshot that is not older than the one in place leaves no gap.
  pub snapshot_record-Covers :
      (r : MemorySyncRecord TSnapshot TEvent) (s : DecodedGatewaySnapshot TSnapshot)
      → snapshot_seq r ≤ s.seq
      → Covers r
      → Covers (snapshot_record (some r) s)
  unfolding snapshot_record
  snapshot_record-Covers r s h c = elim (Bool-cases (ltb s.seq r.applied_seq)) [
    | inl old ↦ rw old (record {
      shows = λ n p q. elim (c.shows n p q) [ inl k ↦ inl (omega arith) | inr m ↦ inr m ];
    })
    | inr new ↦ rw new (record { shows = λ n p q. inl q })
  ]

  -- An older snapshot loses what only the newer one showed.
  pub stale_snapshot-not-Covers :
      (r : MemorySyncRecord TSnapshot TEvent) (s : DecodedGatewaySnapshot TSnapshot)
      → IsValid r
      → Ordered (snapshot_seq r) r.events r.applied_seq
      → s.seq < snapshot_seq r
      → ¬ Covers (snapshot_record (some r) s)
  unfolding snapshot_record
  stale_snapshot-not-Covers r s v o h c =
      let stale : ltb s.seq r.applied_seq ≡ true = lt→ltb _ _ (omega (arith, v.snapshot)) in
      let c' : Covers (record r { snapshot = some s }) = rw stale at c in
      elim (c'.shows (snapshot_seq r) (omega arith) v.snapshot) [
        | inl k ↦ omega arith
        | inr m ↦
            omega
              (arith, Ordered-above (snapshot_seq r) r.events r.applied_seq (snapshot_seq r) o m)
      ]
