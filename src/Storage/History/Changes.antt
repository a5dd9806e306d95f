-- ===== src/Storage/History/Changes.antt =====
-- How the operations of internal/storage/memory/store.go change a stream, against all the events it
-- was given.
use synclog.Prelude.{
  ℕ, suc, ◌+◌, ◌-◌, ◌^◌, ◌≤◌, ◌<◌, ◌≡◌, refl, sym, ap, ◌∙◌, subst, String, not, ◌&&◌, List, [], ◌∷◌,
  ◌++◌, none, some, arith, ◌==◌, eq_iff, ltb, leb, if◌then◌else◌, length, drop, length-drop,
  drop-drop, drop-append, length-append, nat_eq, ◌||◌, Bool-cases, inl, inr,
}
use synclog.Prelude.Int.{ℤ}
use native.Mathlib.Nat.{mod-eq_of_lt}
use synclog.GoMap.{GoMap, get, set, get-set, get_made, string_key}
use synclog.Protocol.Admin.{StreamRetention}
use synclog.Log.Types.{Event, AppendRequest}
use synclog.Storage.{StreamState}
use synclog.Storage.Stream.{new_stream, next_seq, event_at, push, keep_from, cut, retain, to_remove}
use synclog.Storage.History.{
  Holds, Numbered, Numbered-append, Numbered-drop_all, seq_of_key, retained_start,
}

pub new_stream-Holds : Holds [] new_stream
unfolding new_stream
new_stream-Holds = record {
  dropped = 0;
  within = omega arith;
  head_eq = refl;
  events_eq = refl;
  start_eq = refl;
  numbered = tt;
  keys_eq = λ k. get_made k;
  bounded = omega arith;
}

-- The new event in the log of all events.
abbrev pub added : AppendRequest → List Event → List Event
added req history = history ++ event_at (suc (length history)) req ∷ []

pub next_seq_lem : (n : ℕ) → suc n < 2 ^ 64 → next_seq n ≡ suc n
unfolding next_seq
next_seq_lem n h = mod-eq_of_lt (omega arith) ∙ omega arith

seq_of_key-append :
    (k : String) (history : List Event) (e : Event)
    → seq_of_key k (history ++ e ∷ []) ≡ elim (seq_of_key k history) [
      | none ↦ if not (k == "") && e.idempotency_key == k then some e.seq else none
      | some seq ↦ some seq
    ]
seq_of_key-append k [] e = refl
seq_of_key-append k (x ∷ history) e = ground (arith, seq_of_key-append k history e)

pub seq_of_key_empty : (history : List Event) → seq_of_key "" history ≡ none
seq_of_key_empty [] = refl
seq_of_key_empty (e ∷ history) = seq_of_key_empty history

seq_of_key-added :
    (req : AppendRequest) (k : String) (history : List Event)
    → seq_of_key req.idempotency_key history ≡ none
    → seq_of_key k (added req history) ≡ (
        if not (k == "") && req.idempotency_key == k
        then some (suc (length history))
        else seq_of_key k history)
unfolding event_at
seq_of_key-added req k history h = elim (Bool-cases (req.idempotency_key == k)) [
  | inl same ↦
      let unseen : seq_of_key k history ≡ none =
        subst (λ j. seq_of_key j history ≡ none) ((eq_iff req.idempotency_key k).0 same) h in
      rw (seq_of_key-append k history (event_at (suc (length history)) req), unseen) (ground arith)
  | inr other ↦
      rw (seq_of_key-append k history (event_at (suc (length history)) req), other) (ground arith)
]

pub length-added :
    (req : AppendRequest) (history : List Event) → length (added req history) ≡ suc (length history)
length-added req history =
    omega (arith, length-append history (event_at (suc (length history)) req ∷ []))

push_start :
    (n head retained : ℕ) (history : List Event)
    → n ≤ length history
    → head ≡ suc (length history)
    → retained ≡ retained_start n history
    → (if nat_eq retained 0 || ltb head retained then head else retained) ≡ suc n
push_start n head retained history h e f = rw (e, f) (ground (arith, h))

push_keys :
    (req : AppendRequest) (seq : ℕ) (keys : GoMap String ℕ) (history : List Event) (k : String)
    → seq ≡ suc (length history)
    → ((j : String) → get j keys ≡ seq_of_key j history)
    → seq_of_key req.idempotency_key history ≡ none
    → get k (if req.idempotency_key == "" then keys else set req.idempotency_key seq keys)
      ≡ seq_of_key k (added req history)
push_keys req seq keys history k e h fresh = elim (Bool-cases (req.idempotency_key == "")) [
  | inl empty ↦
      rw (empty, seq_of_key-added req k history fresh, h k)
        (ground
          (arith, empty, eq_iff req.idempotency_key k, eq_iff req.idempotency_key "", eq_iff k ""))
  | inr given ↦
      rw
        (
          given,
          seq_of_key-added req k history fresh,
          get-set req.idempotency_key k seq keys,
          h k,
          e,
        )
        (ground
          (arith, given, eq_iff req.idempotency_key k, eq_iff req.idempotency_key "", eq_iff k ""))
]

pub push-Holds :
    (req : AppendRequest) (history : List Event) (s : StreamState)
    → Holds history s
    → seq_of_key req.idempotency_key history ≡ none
    → suc (suc (length history)) < 2 ^ 64
    → Holds (added req history) (push req s)
unfolding push event_at
push-Holds req history s h fresh room =
    let grown = length-added req history in
    let next : next_seq s.head ≡ suc (length history) =
      ap next_seq h.head_eq ∙ next_seq_lem (length history) h.bounded in
    record {
      dropped = h.dropped;
      within = omega (arith, h.within, grown);
      head_eq = next ∙ sym grown;
      events_eq =
          rw (h.events_eq, next)
            (sym
              (drop-append h.dropped history (event_at (suc (length history)) req ∷ []) h.within));
      start_eq =
          push_start h.dropped (next_seq s.head) s.retained_seq_start history h.within next
            h.start_eq
          ∙ rw grown (ground arith);
      numbered =
          Numbered-append 0 history (event_at (suc (length history)) req ∷ []) h.numbered
            (omega arith, tt);
      keys_eq = λ k. push_keys req (next_seq s.head) s.idempotency history k next h.keys_eq fresh;
      bounded = omega (arith, room, grown);
    }

cut_start :
    (n m head start : ℕ) (history es : List Event)
    → drop m history ≡ es
    → m ≤ length history
    → Numbered m es
    → suc (length history) < 2 ^ 64
    → head ≡ length history
    → start ≡ retained_start n history
    → elim es [ [] ↦ if ltb 0 head then next_seq head else start | e ∷ rest ↦ e.seq ]
      ≡ retained_start m history
cut_start n m head start history [] e h k room f g =
    rw (f, g, next_seq_lem (length history) room)
      (ground (arith, h, length-drop m history, ap length e))
cut_start n m head start history (x ∷ es) e h k room f g =
    ground (arith, k.0, length-drop m history, ap length e)

pub cut-Holds :
    (n : ℕ) (history : List Event) (s : StreamState)
    → Holds history s
    → n ≤ length s.events
    → Holds history (cut n s)
unfolding cut
cut-Holds n history s h k =
    let size : length s.events ≡ length history - h.dropped =
      ap length h.events_eq ∙ length-drop h.dropped history in
    let within : h.dropped + n ≤ length history = omega (arith, h.within, size, k) in
    let rest : drop n s.events ≡ drop (h.dropped + n) history =
      ap (drop n) h.events_eq ∙ drop-drop n h.dropped history in
    record {
      dropped = h.dropped + n;
      within = within;
      head_eq = h.head_eq;
      events_eq = rest;
      start_eq =
          rw (rest, cut)
            (cut_start h.dropped (h.dropped + n) s.head s.retained_seq_start history
              (drop (h.dropped + n) history) refl within
              (Numbered-drop_all (h.dropped + n) history within h.numbered) h.bounded h.head_eq
              h.start_eq);
      numbered = h.numbered;
      keys_eq = h.keys_eq;
      bounded = h.bounded;
    }

pub keep_from_bound : (before : ℕ) (es : List Event) → keep_from before es ≤ length es
unfolding keep_from
keep_from_bound before [] = omega arith
keep_from_bound before (e ∷ es) = ground (arith, keep_from_bound before es)

to_remove_bound :
    (now : ℤ) (retention : StreamRetention) (es : List Event)
    → to_remove now retention es ≤ length es
unfolding to_remove
to_remove_bound now retention es = ground arith

pub retain-Holds :
    (now : ℤ) (retention : StreamRetention) (history : List Event) (s : StreamState)
    → Holds history s
    → Holds history (retain now retention s)
unfolding retain
retain-Holds now retention history s h =
    elim (Bool-cases (leb (to_remove now retention s.events) 0)) [
      | inl none_removed ↦ rw none_removed h
      | inr some_removed ↦ rw some_removed (
          cut-Holds (to_remove now retention s.events) history s h
            (to_remove_bound now retention s.events))
    ]
