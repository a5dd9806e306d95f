-- ===== src/Storage/Wakeups/Served.antt =====
-- A watcher of internal/storage/memory/store.go stays registered until its channel is closed.
use synclog.Prelude.{
  ℕ, ◌≡◌, sym, subst, refl, ap, String, false, List, [], ◌∷◌, ◌++◌, Option, none, some, arith, ◌==◌,
  eq_iff, ltb, Bool-cases, List-cases, inl, inr, nat_eq, ◌⊎◌,
}
use mathlib.Core.List.{Memᴰ}
use mathlib.Core.List.Memᴰ
use synclog.GoMap.{get, set, get-set, get-delete, string_key}
use synclog.Storage.{Store, StreamWatcher}
use synclog.Storage.Waiting.{
  notify_stream, put_watchers, watchers_of, kept_watchers, woken, swap_out, last_of, but_last,
  register, remove_watcher,
}

abbrev pub Registered : StreamWatcher → Option (List StreamWatcher) → Type 0
Registered w none = ⊥
Registered w (some ws) = Memᴰ w ws

-- The watcher is registered on the stream, or its channel is closed.
abbrev pub Served : String → StreamWatcher → Store → Type 0
Served id w s = Registered w (get id s.watchers) ⊎ Memᴰ w.ch s.closed

kept_or_woken :
    (head : ℕ) (w : StreamWatcher) (ws : List StreamWatcher)
    → Memᴰ w ws
    → Memᴰ w (kept_watchers head ws) ⊎ Memᴰ w.ch (woken head ws)
unfolding kept_watchers woken
kept_or_woken head w [] m = elim m [ ]
kept_or_woken head w (v ∷ ws) (Memᴰ.head e) = elim (Bool-cases (ltb v.after head)) [
  | inl past ↦ rw past (inr (Memᴰ.head (ap (λ u. u.ch) e)))
  | inr waits ↦ rw waits (inl (Memᴰ.head e))
]
kept_or_woken head w (v ∷ ws) (Memᴰ.tail m) =
    let rest = kept_or_woken head w ws m in
    elim (Bool-cases (ltb v.after head)) [
      | inl past ↦ rw past (elim rest [ inl k ↦ inl k | inr c ↦ inr (Memᴰ.tail c) ])
      | inr waits ↦ rw waits (elim rest [ inl k ↦ inl (Memᴰ.tail k) | inr c ↦ inr c ])
    ]

last_first :
    (w v : StreamWatcher) (vs : List StreamWatcher)
    → Memᴰ w (v ∷ vs)
    → Memᴰ w (last_of v vs ∷ but_last v vs)
unfolding last_of but_last
last_first w v [] m = m
last_first w v (u ∷ us) (Memᴰ.head e) = Memᴰ.tail (Memᴰ.head e)
last_first w v (u ∷ us) (Memᴰ.tail m) = elim (last_first w u us m) [
  | Memᴰ.head e ↦ Memᴰ.head e
  | Memᴰ.tail n ↦ Memᴰ.tail (Memᴰ.tail n)
]

-- Only a watcher with the channel goes.
swap_out-keeps :
    (ch : ℕ) (w : StreamWatcher) (ws : List StreamWatcher)
    → nat_eq w.ch ch ≡ false
    → Memᴰ w ws
    → Memᴰ w (swap_out ch ws)
unfolding swap_out
swap_out-keeps ch w [] other m = elim m [ ]
swap_out-keeps ch w (v ∷ vs) other (Memᴰ.head e) =
    let kept : nat_eq v.ch ch ≡ false = subst (λ u. nat_eq u.ch ch ≡ false) e other in
    rw kept (Memᴰ.head e)
swap_out-keeps ch w (v ∷ vs) other (Memᴰ.tail m) =
    let rest = swap_out-keeps ch w vs other m in
    elim (Bool-cases (nat_eq v.ch ch)) [
      | inl here ↦ rw here (replaced w vs m)
      | inr there ↦ rw there (Memᴰ.tail rest)
    ]
  where
    replaced :
        (w : StreamWatcher) (vs : List StreamWatcher)
        → Memᴰ w vs
        → Memᴰ w (elim vs as (λ _. List StreamWatcher) [
          | [] ↦ []
          | u ∷ us ↦ last_of u us ∷ but_last u us
        ])
    replaced w [] m = elim m [ ]
    replaced w (u ∷ us) m = last_first w u us m

watchers_of-Registered :
    (id : String) (w : StreamWatcher) (s : Store)
    → Registered w (get id s.watchers)
    → Memᴰ w (watchers_of id s)
unfolding watchers_of
watchers_of-Registered id w s =
    elim (get id s.watchers)
      as (λ o.
        Registered w o
        → Memᴰ w (elim o as (λ _. List StreamWatcher) [ none ↦ [] | some ws ↦ ws ])) [
          | none ↦ λ nobody. absurd nobody
          | some ws ↦ λ there. there
        ]

-- The watchers of a stream are replaced.
set_watchers-Registered :
    (id j : String) (w : StreamWatcher) (ws : List StreamWatcher) (s : Store)
    → Registered w (get j s.watchers)
    → (id ≡ j → Memᴰ w (watchers_of id s) → Memᴰ w ws)
    → Registered w (get j (set id ws s.watchers))
set_watchers-Registered id j w ws s there keep = elim (Bool-cases (id == j)) [
  | inl same ↦
      let here = (eq_iff id j).0 same in
      rw (get-set id j ws s.watchers, same)
        (keep here (
          watchers_of-Registered id w s
            (subst (λ k. Registered w (get k s.watchers)) (sym here) there)))
  | inr other ↦ rw (get-set id j ws s.watchers, other) there
]

put_watchers-Registered :
    (id j : String) (w : StreamWatcher) (ws : List StreamWatcher) (s : Store)
    → Registered w (get j s.watchers)
    → (id ≡ j → Memᴰ w (watchers_of id s) → Memᴰ w ws)
    → Registered w (get j (put_watchers id ws s).watchers)
unfolding put_watchers
put_watchers-Registered id j w [] s there keep = elim (Bool-cases (id == j)) [
  | inl same ↦
      let here = (eq_iff id j).0 same in
      let back = subst (λ k. Registered w (get k s.watchers)) (sym here) there in
      absurd (Memᴰ.not-nil (keep here (watchers_of-Registered id w s back)))
  | inr other ↦ rw (get-delete id j s.watchers, other) there
]
put_watchers-Registered id j w (v ∷ vs) s there keep =
    set_watchers-Registered id j w (v ∷ vs) s there keep

put_watchers-closed :
    (id : String) (ws : List StreamWatcher) (s : Store) → (put_watchers id ws s).closed ≡ s.closed
unfolding put_watchers
put_watchers-closed id [] s = refl
put_watchers-closed id (w ∷ ws) s = refl

pub register-Served :
    (id j : String) (after : ℕ) (w : StreamWatcher) (s : Store)
    → Served j w s
    → Served j w (register id after s)
unfolding register
register-Served id j after w s (inl there) = inl (
    set_watchers-Registered id j w (watchers_of id s ++ record { after = after; ch = s.made } ∷ [])
      s there (λ here m. Memᴰ.append_left (record { after = after; ch = s.made } ∷ []) m))
register-Served id j after w s (inr woke) = inr woke

pub new_watcher-Served :
    (id : String) (after : ℕ) (s : Store)
    → Served id (record { after = after; ch = s.made }) (register id after s)
unfolding register
new_watcher-Served id after s =
    let w : StreamWatcher = record { after = after; ch = s.made } in
    inl (
      rw (get-set id id (watchers_of id s ++ w ∷ []) s.watchers, (eq_iff id id).1 refl)
        (Memᴰ.append_right (watchers_of id s) (Memᴰ.head refl)))

pub remove_watcher-Served :
    (id j : String) (ch : ℕ) (w : StreamWatcher) (s : Store)
    → nat_eq w.ch ch ≡ false
    → Served j w s
    → Served j w (remove_watcher id ch s)
unfolding remove_watcher
remove_watcher-Served id j ch w s other (inl there) = inl (
    put_watchers-Registered id j w (swap_out ch (watchers_of id s)) s there
      (λ here m. swap_out-keeps ch w (watchers_of id s) other m))
remove_watcher-Served id j ch w s other (inr woke) =
    inr (subst (Memᴰ w.ch) (sym (put_watchers-closed id (swap_out ch (watchers_of id s)) s)) woke)

woken-Served :
    (id j : String) (head : ℕ) (w : StreamWatcher) (s : Store)
    → Served j w s
    → Served j w (
        put_watchers id
          (kept_watchers head (watchers_of id s))
          (record s { closed = woken head (watchers_of id s) ++ s.closed }))
woken-Served id j head w s (inr woke) =
    let t : Store = record s { closed = woken head (watchers_of id s) ++ s.closed } in
    inr (
      subst (Memᴰ w.ch) (sym (put_watchers-closed id (kept_watchers head (watchers_of id s)) t))
        (Memᴰ.append_right (woken head (watchers_of id s)) woke))
woken-Served id j head w s (inl there) =
    let t : Store = record s { closed = woken head (watchers_of id s) ++ s.closed } in
    let kept = kept_watchers head (watchers_of id s) in
    elim (Bool-cases (id == j)) [
      | inl same ↦
          let back =
            subst (λ k. Registered w (get k s.watchers)) (sym ((eq_iff id j).0 same)) there in
          elim (kept_or_woken head w (watchers_of id s) (watchers_of-Registered id w s back)) [
            | inl k ↦ inl (put_watchers-Registered id j w kept t there (λ here m. k))
            | inr c ↦ inr (
                subst (Memᴰ w.ch) (sym (put_watchers-closed id kept t))
                  (Memᴰ.append_left s.closed c))
          ]
      | inr other ↦ inl (
          put_watchers-Registered id j w kept t there
            (λ here m. ground (arith, other, (eq_iff id j).1 here)))
    ]

pub notify_stream-Served :
    (id j : String) (head : ℕ) (w : StreamWatcher) (s : Store)
    → Served j w s
    → Served j w (notify_stream id head s)
unfolding notify_stream
notify_stream-Served id j head w s served = elim (List-cases (watchers_of id s)) [
  | inl nobody ↦ rw (nobody, notify_stream) served
  | inr (v, vs, some_wait) ↦
      rw (some_wait, notify_stream)
        (subst
          (λ l. Served j w (
            put_watchers id (kept_watchers head l)
              (record s { closed = woken head l ++ s.closed })))
          some_wait (woken-Served id j head w s served))
]
