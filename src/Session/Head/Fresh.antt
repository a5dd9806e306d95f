-- ===== src/Session/Head/Fresh.antt =====
-- The events that a batch has above the record's applied seq, and the record that they are pushed
-- onto.
use synclog.Prelude.{
  ℕ, ◌+◌, ◌≤◌, ◌≡◌, refl, max, List, [], ◌∷◌, true, false, inl, inr, arith, filter, length, ltb,
  leb, Bool-cases, subst,
}
use synclog.Io.{ok}
use synclog.Protocol.Gateway.{GatewayEvent}
use synclog.Store.{DecodedGatewayEvent}
use synclog.Memory.Records.{Run}
use synclog.Client.{SyncProjection}
use synclog.Client.Sync.{decode_events, decoded_event}
use synclog.Session.Head.{Consecutive}

module _ {TSnapshot TEvent : Type 0} (projection : SyncProjection TSnapshot TEvent)
    (decodes : (event : GatewayEvent)
      → (value : TEvent) × (projection.decode_event event ≡ ok value)) where
  abbrev above : ℕ → List GatewayEvent → List GatewayEvent
  above n es = filter (λ event. ltb n event.seq) es

  -- Where the batch starts at or above `a` nothing is left out.
  all_fresh :
      (a start : ℕ) (es : List GatewayEvent)
      → a ≤ start
      → Consecutive start es
      → (ds : List (DecodedGatewayEvent TEvent)) × (decode_events projection (above a es) ≡ ok ds)
        × Run start ds
        × (length ds ≡ length es)
  unfolding decode_events
  all_fresh a start [] h c = ([], refl, tt, refl)
  all_fresh a start (e ∷ es) h c =
      let newer : ltb a e.seq ≡ true = ground (arith, c.0) in
      let (v, d) = decodes e in
      let (ds, eq, run, n) = all_fresh a (start + 1) es (omega arith) c.1 in
      (decoded_event e v ∷ ds, rw (newer, decode_events, d, eq) refl, (c.0, run), omega arith)

  -- What is above the applied seq joins on to it, and reaches the batch's end if that is further.
  pub fresh-Run :
      (a start : ℕ) (es : List GatewayEvent)
      → start ≤ a
      → Consecutive start es
      → (ds : List (DecodedGatewayEvent TEvent)) × (decode_events projection (above a es) ≡ ok ds)
        × Run a ds
        × (a + length ds ≡ max a (start + length es))
  unfolding decode_events
  fresh-Run a start [] h c = ([], refl, tt, omega arith)
  fresh-Run a start (e ∷ es) h c = elim (Bool-cases (leb (start + 1) a)) [
    | inl old ↦
        let skip : ltb a e.seq ≡ false = ground (arith, c.0) in
        let (ds, eq, run, n) = fresh-Run a (start + 1) es (ground arith) c.1 in
        (ds, rw skip eq, run, omega arith)
    | inr new ↦
        let same : start ≡ a = ground arith in
        let (ds, eq, run, n) = all_fresh a start (e ∷ es) (omega arith) c in
        (ds, eq, subst (λ k. Run k ds) same run, omega arith)
  ]
