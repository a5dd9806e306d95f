-- ===== src/Memory/Records.antt =====
-- One record of the memory store: the order of its events, its applied seq, and what a batch or a
-- snapshot does to them.
use synclog.Prelude.{
  ℕ, ◌+◌, ◌≤◌, ◌<◌, ◌≡◌, refl, ◌⊎◌, inl, inr, List, [], ◌∷◌, ◌++◌, none, some, arith, All,
  Bool-cases, leb, ltb, subst, sym, max, length, false,
}
use synclog.Store.{DecodedGatewayEvent, DecodedGatewaySnapshot}
use synclog.Memory.{MemorySyncRecord, empty_record, push_event, push_events, snapshot_record}

module _ {TEvent : Type 0} where
  -- The seqs rise strictly from above `low`, and none passes `high`.
  abbrev pub Ordered : ℕ → List (DecodedGatewayEvent TEvent) → ℕ → Type 0
  Ordered low [] high = low ≤ high
  Ordered low (e ∷ es) high = (low < e.seq) × Ordered e.seq es high

  -- Some event has the seq.
  abbrev pub HasSeq : ℕ → List (DecodedGatewayEvent TEvent) → Type 0
  HasSeq n [] = ⊥
  HasSeq n (e ∷ es) = (e.seq ≡ n) ⊎ HasSeq n es

  -- The seqs are start + 1, start + 2 and so on.
  abbrev pub Run : ℕ → List (DecodedGatewayEvent TEvent) → Type 0
  Run start [] = Unit
  Run start (e ∷ es) = (e.seq ≡ start + 1) × Run (start + 1) es

  pub Ordered-push :
      (low : ℕ) (es : List (DecodedGatewayEvent TEvent)) (high : ℕ) (e : DecodedGatewayEvent TEvent)
      → Ordered low es high
      → high < e.seq
      → Ordered low (es ++ e ∷ []) e.seq
  Ordered-push low [] high e h k = (omega arith, omega arith)
  Ordered-push low (x ∷ es) high e h k = (h.0, Ordered-push x.seq es high e h.1 k)

  pub Ordered-le :
      (low : ℕ) (es : List (DecodedGatewayEvent TEvent)) (high : ℕ)
      → Ordered low es high
      → low ≤ high
  Ordered-le low [] high h = h
  Ordered-le low (x ∷ es) high h = omega (arith, Ordered-le x.seq es high h.1)

  pub Ordered-above :
      (low : ℕ) (es : List (DecodedGatewayEvent TEvent)) (high n : ℕ)
      → Ordered low es high
      → HasSeq n es
      → low < n
  Ordered-above low [] high n h m = absurd m
  Ordered-above low (x ∷ es) high n h (inl e) = omega arith
  Ordered-above low (x ∷ es) high n h (inr m) = omega (arith, Ordered-above x.seq es high n h.1 m)

  pub HasSeq-append_left :
      (n : ℕ) (xs ys : List (DecodedGatewayEvent TEvent)) → HasSeq n xs → HasSeq n (xs ++ ys)
  HasSeq-append_left n [] ys m = absurd m
  HasSeq-append_left n (x ∷ xs) ys (inl e) = inl e
  HasSeq-append_left n (x ∷ xs) ys (inr m) = inr (HasSeq-append_left n xs ys m)

  pub HasSeq-append_last :
      (xs : List (DecodedGatewayEvent TEvent)) (e : DecodedGatewayEvent TEvent)
      → HasSeq e.seq (xs ++ e ∷ [])
  HasSeq-append_last [] e = inl refl
  HasSeq-append_last (x ∷ xs) e = inr (HasSeq-append_last xs e)

module _ {TSnapshot TEvent : Type 0} where
  abbrev pub snapshot_seq : MemorySyncRecord TSnapshot TEvent → ℕ
  snapshot_seq r = elim r.snapshot [ none ↦ 0 | some s ↦ s.seq ]

  pub record IsValid (r : MemorySyncRecord TSnapshot TEvent) : Type 0 where
    pub ordered : Ordered 0 r.events r.applied_seq
    pub snapshot : snapshot_seq r ≤ r.applied_seq

  pub IsValid-empty : IsValid empty_record
  IsValid-empty = record { ordered = omega arith; snapshot = omega arith }

  push_event-IsValid :
      (r : MemorySyncRecord TSnapshot TEvent) (e : DecodedGatewayEvent TEvent)
      → IsValid r
      → IsValid (push_event r e)
  unfolding push_event
  push_event-IsValid r e v = elim (Bool-cases (leb e.seq r.applied_seq)) [
    | inl old ↦ rw old v
    | inr new ↦ rw new (record {
      ordered = Ordered-push 0 r.events r.applied_seq e v.ordered (ground arith);
      snapshot = ground (arith, v.snapshot);
    })
  ]

  -- A batch, whatever its order, keeps the record's events in strict order.
  pub push_events-IsValid :
      (r : MemorySyncRecord TSnapshot TEvent) (es : List (DecodedGatewayEvent TEvent))
      → IsValid r
      → IsValid (push_events r es)
  unfolding push_events
  push_events-IsValid r [] v = v
  push_events-IsValid r (e ∷ es) v =
      push_events-IsValid (push_event r e) es (push_event-IsValid r e v)

  pub snapshot_record-IsValid :
      (r : MemorySyncRecord TSnapshot TEvent) (s : DecodedGatewaySnapshot TSnapshot)
      → IsValid r
      → IsValid (snapshot_record (some r) s)
  unfolding snapshot_record
  snapshot_record-IsValid r s v = elim (Bool-cases (ltb s.seq r.applied_seq)) [
    | inl old ↦ rw old (record { ordered = v.ordered; snapshot = ground arith })
    | inr new ↦ rw new (record { ordered = omega arith; snapshot = omega arith })
  ]

  pub push_events_bounds :
      (r : MemorySyncRecord TSnapshot TEvent) (es : List (DecodedGatewayEvent TEvent))
      → (r.applied_seq ≤ (push_events r es).applied_seq)
        × All (λ e. e.seq ≤ (push_events r es).applied_seq) es
  unfolding push_events push_event
  push_events_bounds r [] = (omega arith, tt)
  push_events_bounds r (e ∷ es) =
      let (low, all) = push_events_bounds (push_event r e) es in (ground arith, (ground arith, all))

  pub snapshot_record_bounds :
      (r : MemorySyncRecord TSnapshot TEvent) (s : DecodedGatewaySnapshot TSnapshot)
      → (r.applied_seq ≤ (snapshot_record (some r) s).applied_seq)
        × (s.seq ≤ (snapshot_record (some r) s).applied_seq)
  unfolding snapshot_record
  snapshot_record_bounds r s = ground arith

  -- Events at or below the applied seq change nothing.
  pub push_events-old :
      (r : MemorySyncRecord TSnapshot TEvent) (es : List (DecodedGatewayEvent TEvent))
      → All (λ e. e.seq ≤ r.applied_seq) es
      → push_events r es ≡ r
  unfolding push_events push_event
  push_events-old r [] h = refl
  push_events-old r (e ∷ es) h = ground (arith, push_events-old r es h.1)

  -- A batch that joins on is pushed whole.
  pub push_events-reaches :
      (r : MemorySyncRecord TSnapshot TEvent) (ds : List (DecodedGatewayEvent TEvent))
      → Run r.applied_seq ds
      → ((push_events r ds).applied_seq ≡ r.applied_seq + length ds)
        × ((push_events r ds).snapshot ≡ r.snapshot)
  unfolding push_events push_event
  push_events-reaches r [] run = (omega arith, refl)
  push_events-reaches r (e ∷ es) run =
      let new : leb e.seq r.applied_seq ≡ false = ground (arith, run.0) in
      let r' : MemorySyncRecord TSnapshot TEvent = record r {
        events = r.events ++ e ∷ [];
        applied_seq = e.seq;
      } in
      let (n, s) = push_events-reaches r' es (subst (λ k. Run k es) (sym run.0) run.1) in
      rw (new, push_events) (omega (arith, n, run.0), s)

  pub snapshot_record-reaches :
      (r : MemorySyncRecord TSnapshot TEvent) (s : DecodedGatewaySnapshot TSnapshot)
      → ((snapshot_record (some r) s).applied_seq ≡ max r.applied_seq s.seq)
        × (snapshot_seq (snapshot_record (some r) s) ≡ s.seq)
  unfolding snapshot_record
  snapshot_record-reaches r s = elim (Bool-cases (ltb s.seq r.applied_seq)) [
    | inl old ↦ rw old (ground arith, refl)
    | inr new ↦ rw new (ground arith, refl)
  ]
