-- ===== src/AntiReplay/Live.antt =====
-- What a client can see of the cache: which pairs it would reject at a time. The sweeps do not show.
use sing_ewp.AntiReplay.Entries.{
  Distinct-insert, Distinct-gc_locked, lookup-gc_locked, lookup-insert, Distinct,
}
use sing_ewp.AntiReplay.{
  gc_interval, admit, seen, ReplayCache, Entries, gc_locked, make_replay_key, insert,
  mark_seen_or_reject,
}
use sing_ewp.Prelude.{
  ◌&&◌, ◌+◌, ◌^◌, Bool, bytes_eq, ◌≤◌, ◌%◌, leb, not, ltb, List, Bool-cases, inl, if◌then◌else◌,
  refl, arith, inr, ◌≡◌, ℕ,
}

abbrev pub IsCache : ReplayCache → Type 0
IsCache c = Distinct c.entries

-- At time `t` the pair with this key is rejected.
unfoldable pub live : ℕ → ReplayCache → List ℕ → Bool
live t c k = seen t k c.entries

seen-gc_locked :
    (now t : ℕ) (k : List ℕ) (m : Entries)
    → Distinct m
    → now ≤ t
    → seen t k (gc_locked now m) ≡ seen t k m
unfolding seen
seen-gc_locked now t k m d h = ground (arith, lookup-gc_locked now k m d)

admit-IsCache : (now : ℕ) (k : List ℕ) (c : ReplayCache) → IsCache c → IsCache (admit now k c)
unfolding admit
admit-IsCache now k c d =
    let inserted = Distinct-insert k (now + c.window) c.entries d in
    elim (Bool-cases (leb gc_interval ((c.gc_counter + 1) % 2 ^ 32))) [
      | inl e ↦ rw e (Distinct-gc_locked now (insert k (now + c.window) c.entries) inserted)
      | inr e ↦ rw e inserted
    ]

pub mark-IsCache :
    (now : ℕ) (uuid nonce : List ℕ) (c : ReplayCache)
    → IsCache c
    → IsCache (mark_seen_or_reject now uuid nonce c).0
unfolding mark_seen_or_reject
mark-IsCache now uuid nonce c d =
    let k = make_replay_key uuid nonce in
    elim (Bool-cases (seen now k c.entries)) [
      | inl e ↦ rw e d
      | inr e ↦ rw e (admit-IsCache now k c d)
    ]

seen-insert :
    (t : ℕ) (k j : List ℕ) (e : ℕ) (m : Entries)
    → seen t j (insert k e m) ≡ (if bytes_eq k j then ltb t e else seen t j m)
unfolding seen
seen-insert t k j e m = ground (arith, lookup-insert k j e m)

live-admit :
    (now t : ℕ) (k j : List ℕ) (c : ReplayCache)
    → IsCache c
    → now ≤ t
    → live t (admit now k c) j ≡ (if bytes_eq k j then ltb t (now + c.window) else live t c j)
unfolding live admit
live-admit now t k j c d h =
    let m = insert k (now + c.window) c.entries in
    ground (
      arith,
      seen-insert t k j (now + c.window) c.entries,
      seen-gc_locked now t j m (Distinct-insert k (now + c.window) c.entries d) h,
    )

window-mark :
    (now : ℕ) (uuid nonce : List ℕ) (c : ReplayCache)
    → (mark_seen_or_reject now uuid nonce c).0.window ≡ c.window
unfolding mark_seen_or_reject admit
window-mark now uuid nonce c = ground arith

pub mark_refines :
    (now t : ℕ) (uuid nonce j : List ℕ) (c : ReplayCache)
    → IsCache c
    → now ≤ t
    → let k = make_replay_key uuid nonce in
      let r = mark_seen_or_reject now uuid nonce c in
      (r.1 ≡ not (live now c k))
      × (live t r.0 j
          ≡ (if not (live now c k) && bytes_eq k j then ltb t (now + c.window) else live t c j))
unfolding mark_seen_or_reject
mark_refines now t uuid nonce j c d h =
    let k = make_replay_key uuid nonce in
    let e : live now c k ≡ seen now k c.entries = unfold live in refl in
    (ground arith, ground (arith, live-admit now t k j c d h))
