-- ===== src/Storage/History/Runs.antt =====
-- Runs of calls of internal/storage/memory/store.go against all the events of the streams.
use synclog.Prelude.{
  ℕ, suc, ◌+◌, ◌<◌, ◌≤◌, ◌^◌, ◌≡◌, ◌⊎◌, refl, sym, subst, String, List, [], ◌∷◌, Option, none, some,
  arith, ◌==◌, length, Bool-cases, inl, inr, eq_iff,
}
use synclog.Prelude.Int.{ℤ}
use synclog.GoMap.{get_made, string_key}
use synclog.Protocol.Admin.{DeleteStreamRequest}
use synclog.Log.Types.{Event, AppendRequest, AppendResult}
use synclog.Log.Result.{Result}
use synclog.Storage.{Store, StreamState, new_store, snapshot_key}
use synclog.Storage.Events.{append}
use synclog.Storage.Admin.{delete_stream}
use synclog.Storage.Calls.{Call, run, runs}
use synclog.Storage.History.{StoreHolds, updated}
use synclog.Storage.History.Changes.{added, length-added}
use synclog.Storage.History.Appending.{append-refines, Appended, fresh, repeated, compacted}
use synclog.Storage.History.Keeping.{without_stream-StoreHolds, updated_back}
use synclog.Storage.Leaving.{run-Stable}
use synclog.Storage.History.Leaving.{
  Histories, StoreHolds-Stable, wait_for_stream-StoreHolds, stop_waiting-StoreHolds,
}

-- What a call makes of all the events: an append may add one, a deletion may forget those of its
-- stream, and nothing else changes them.
abbrev pub EvolvesTo : Call → Histories → Histories → Type 0
EvolvesTo (Call.appends now req) h h' =
    (h' ≡ h) ⊎ (h' ≡ updated req.stream_id (added req (h req.stream_id)) h)
EvolvesTo (Call.deletes (some req)) h h' = (h' ≡ h) ⊎ (h' ≡ updated req.stream_id [] h)
EvolvesTo _ h h' = h' ≡ h

-- The room that a call needs: the seq of a new event and the one behind it are below 2 ^ 64.
abbrev pub HasRoom : Call → Histories → Type 0
HasRoom (Call.appends now req) h = suc (suc (length (h req.stream_id))) < 2 ^ 64
HasRoom _ h = Unit

append-evolves :
    (req : AppendRequest) (h : Histories) (kept history : List Event) (r : Result AppendResult)
    (s : Store)
    → Appended req (h req.stream_id) kept history r
    → StoreHolds (updated req.stream_id history h) s
    → (h' : Histories) × ((h' ≡ h) ⊎ (h' ≡ updated req.stream_id (added req (h req.stream_id)) h))
      × StoreHolds h' s
append-evolves req h kept _ _ s (fresh new) all =
    (updated req.stream_id (added req (h req.stream_id)) h, inr refl, all)
append-evolves req h kept _ _ s (repeated seq event old there) all =
    (h, inl refl, updated_back h s req.stream_id all)
append-evolves req h kept _ _ s (compacted seq old gone) all =
    (h, inl refl, updated_back h s req.stream_id all)

run_append :
    (now : ℤ) (req : AppendRequest) (h : Histories) (s : Store)
    → StoreHolds h s
    → suc (suc (length (h req.stream_id))) < 2 ^ 64
    → (h' : Histories) × ((h' ≡ h) ⊎ (h' ≡ updated req.stream_id (added req (h req.stream_id)) h))
      × StoreHolds h' (append now req s).1
unfolding append
run_append now req h s all room = elim (Bool-cases (req.stream_id == "")) [
  | inl empty ↦ (h, inl refl, rw empty all)
  | inr named ↦
      let (history, appended, after) =
        append-refines now req h s all (λ e. ground (arith, named, (eq_iff req.stream_id "").1 e))
          room in
      append-evolves req h _ history _ (append now req s).1 appended after
]

run_delete :
    (o : Option DeleteStreamRequest) (h : Histories) (s : Store)
    → StoreHolds h s
    → (h' : Histories) × EvolvesTo (Call.deletes o) h h' × StoreHolds h' (delete_stream o s).1
unfolding delete_stream
run_delete none h s all = (h, refl, all)
run_delete (some req) h s all = elim (Bool-cases (req.stream_id == "")) [
  | inl empty ↦ (h, inl refl, rw empty all)
  | inr named ↦ (
    updated req.stream_id [] h,
    inr refl,
    rw named (without_stream-StoreHolds req.stream_id h s all),
  )
]

-- Every call leaves a store that holds all the events, which only an append and a deletion change.
run-refines :
    (c : Call) (h : Histories) (s : Store)
    → StoreHolds h s
    → HasRoom c h
    → (h' : Histories) × EvolvesTo c h h' × StoreHolds h' (run c s)
unfolding run
run-refines (Call.appends now req) h s all room = run_append now req h s all room
run-refines (Call.acks req) h s all room =
    (h, refl, run-Stable (StoreHolds-Stable h) (Call.acks req) s tt all)
run-refines (Call.resets o) h s all room =
    (h, refl, run-Stable (StoreHolds-Stable h) (Call.resets o) s tt all)
run-refines (Call.creates o) h s all room =
    (h, refl, run-Stable (StoreHolds-Stable h) (Call.creates o) s tt all)
run-refines (Call.deletes o) h s all room = run_delete o h s all
run-refines (Call.truncates o) h s all room =
    (h, refl, run-Stable (StoreHolds-Stable h) (Call.truncates o) s tt all)
run-refines (Call.truncates_before id before) h s all room =
    (h, refl, run-Stable (StoreHolds-Stable h) (Call.truncates_before id before) s tt all)
run-refines (Call.compacts o) h s all room =
    (h, refl, run-Stable (StoreHolds-Stable h) (Call.compacts o) s tt all)
run-refines (Call.sets_retention now o) h s all room =
    (h, refl, run-Stable (StoreHolds-Stable h) (Call.sets_retention now o) s tt all)
run-refines (Call.puts_snapshot o) h s all room =
    (h, refl, run-Stable (StoreHolds-Stable h) (Call.puts_snapshot o) s tt all)
run-refines (Call.deletes_snapshot o) h s all room =
    (h, refl, run-Stable (StoreHolds-Stable h) (Call.deletes_snapshot o) s tt all)
run-refines (Call.waits id after) h s all room =
    (h, refl, wait_for_stream-StoreHolds h s all id after)
run-refines (Call.stops_waiting id ch) h s all room =
    (h, refl, stop_waiting-StoreHolds h s all id ch)

-- From the events `h` to those behind all the calls.
abbrev pub Evolves : List Call → Histories → Histories → Type 0
Evolves [] h h' = h' ≡ h
Evolves (c ∷ cs) h h'' = (h' : Histories) × EvolvesTo c h h' × Evolves cs h' h''

-- No stream has more than `n` events.
abbrev AtMost : ℕ → Histories → Type 0
AtMost n h = (id : String) → length (h id) ≤ n

updated-AtMost :
    (n m : ℕ) (h : Histories) (id : String) (history : List Event)
    → n ≤ m
    → AtMost n h
    → length history ≤ m
    → AtMost m (updated id history h)
updated-AtMost n m h id history k most one j = elim (Bool-cases (id == j)) [
  | inl same ↦ rw same one
  | inr other ↦ rw other (omega (arith, k, most j))
]

same-AtMost : (n : ℕ) (h h' : Histories) → h' ≡ h → AtMost n h → AtMost (suc n) h'
same-AtMost n h h' e most = subst (AtMost (suc n)) (sym e) (λ id. omega (arith, most id))

EvolvesTo-AtMost :
    (n : ℕ) (c : Call) (h h' : Histories) → EvolvesTo c h h' → AtMost n h → AtMost (suc n) h'
EvolvesTo-AtMost n (Call.appends now req) h h' (inl e) most = same-AtMost n h h' e most
EvolvesTo-AtMost n (Call.appends now req) h h' (inr e) most = subst (AtMost (suc n)) (sym e) (
    updated-AtMost n (suc n) h req.stream_id (added req (h req.stream_id)) (omega arith) most
      (omega (arith, length-added req (h req.stream_id), most req.stream_id)))
EvolvesTo-AtMost n (Call.deletes none) h h' e most = same-AtMost n h h' e most
EvolvesTo-AtMost n (Call.deletes (some req)) h h' (inl e) most = same-AtMost n h h' e most
EvolvesTo-AtMost n (Call.deletes (some req)) h h' (inr e) most =
    subst (AtMost (suc n)) (sym e)
      (updated-AtMost n (suc n) h req.stream_id [] (omega arith) most (omega arith))
EvolvesTo-AtMost n (Call.acks req) h h' e most = same-AtMost n h h' e most
EvolvesTo-AtMost n (Call.resets o) h h' e most = same-AtMost n h h' e most
EvolvesTo-AtMost n (Call.creates o) h h' e most = same-AtMost n h h' e most
EvolvesTo-AtMost n (Call.truncates o) h h' e most = same-AtMost n h h' e most
EvolvesTo-AtMost n (Call.truncates_before id before) h h' e most = same-AtMost n h h' e most
EvolvesTo-AtMost n (Call.compacts o) h h' e most = same-AtMost n h h' e most
EvolvesTo-AtMost n (Call.sets_retention now o) h h' e most = same-AtMost n h h' e most
EvolvesTo-AtMost n (Call.puts_snapshot o) h h' e most = same-AtMost n h h' e most
EvolvesTo-AtMost n (Call.deletes_snapshot o) h h' e most = same-AtMost n h h' e most
EvolvesTo-AtMost n (Call.waits id after) h h' e most = same-AtMost n h h' e most
EvolvesTo-AtMost n (Call.stops_waiting id ch) h h' e most = same-AtMost n h h' e most

AtMost-HasRoom :
    (n : ℕ) (c : Call) (h : Histories) → suc (suc n) < 2 ^ 64 → AtMost n h → HasRoom c h
AtMost-HasRoom n (Call.appends now req) h k most = omega (arith, k, most req.stream_id)
AtMost-HasRoom n (Call.acks req) h k most = tt
AtMost-HasRoom n (Call.resets o) h k most = tt
AtMost-HasRoom n (Call.creates o) h k most = tt
AtMost-HasRoom n (Call.deletes o) h k most = tt
AtMost-HasRoom n (Call.truncates o) h k most = tt
AtMost-HasRoom n (Call.truncates_before id before) h k most = tt
AtMost-HasRoom n (Call.compacts o) h k most = tt
AtMost-HasRoom n (Call.sets_retention now o) h k most = tt
AtMost-HasRoom n (Call.puts_snapshot o) h k most = tt
AtMost-HasRoom n (Call.deletes_snapshot o) h k most = tt
AtMost-HasRoom n (Call.waits id after) h k most = tt
AtMost-HasRoom n (Call.stops_waiting id ch) h k most = tt

runs_from :
    (cs : List Call) (n : ℕ) (h : Histories) (s : Store)
    → StoreHolds h s
    → AtMost n h
    → suc (suc (n + length cs)) < 2 ^ 64
    → (h' : Histories) × Evolves cs h h' × StoreHolds h' (runs cs s)
unfolding runs
runs_from [] n h s all most k = (h, refl, all)
runs_from (c ∷ cs) n h s all most k =
    let (h', one, there) = run-refines c h s all (AtMost-HasRoom n c h (omega (arith, k)) most) in
    let (h'', more, end) =
      runs_from cs (suc n) h' (run c s) there (EvolvesTo-AtMost n c h h' one most)
        (omega (arith, k)) in
    (h'', (h', one, more), end)

pub new_store-StoreHolds : StoreHolds (λ id. []) new_store
unfolding new_store
new_store-StoreHolds id = rw (get_made {V = StreamState} id) refl

-- After any run of fewer than 2 ^ 64 - 2 calls from a new store, the store holds a list of events
-- for each stream: its head is their number, it keeps those behind some place, its retained start
-- says which, and its keys find their events. The lists begin empty; an append adds at most its event,
-- the deletion of a stream may empty that stream's, and no other call changes any.
pub runs-refines :
    (cs : List Call)
    → suc (suc (length cs)) < 2 ^ 64
    → (h : Histories) × Evolves cs (λ id. []) h × StoreHolds h (runs cs new_store)
runs-refines cs k =
    runs_from cs 0 (λ id. []) new_store new_store-StoreHolds (λ id. omega arith) (omega (arith, k))
