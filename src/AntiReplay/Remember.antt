-- ===== src/AntiReplay/Remember.antt =====
-- An accepted pair stays rejected for the whole window, whatever happens in between.
use sing_ewp.AntiReplay.Live.{mark_refines, mark-IsCache, live, IsCache}
use sing_ewp.Prelude.{
  bytes_eq_refl, Option-cases, false, All, ◌≡◌, List, true, ℕ, inl, ◌<◌, inr, [], arith, ◌-◌,
  bytes_eq_iff, ◌+◌, ◌≤◌, ◌∷◌,
}
use sing_ewp.AntiReplay.{mark_seen_or_reject, seen, Call, run, lookup, ReplayCache, make_replay_key}

live_earlier :
    (s t : ℕ) (c : ReplayCache) (k : List ℕ) → s ≤ t → live t c k ≡ true → live s c k ≡ true
unfolding live seen
live_earlier s t c k h l = elim (Option-cases (lookup k c.entries)) [
  | inl e ↦ absurd (ground arith)
  | inr (x, e) ↦ ground arith
]

live-mark :
    (now t : ℕ) (uuid nonce k : List ℕ) (c : ReplayCache)
    → IsCache c
    → now ≤ t
    → live t c k ≡ true
    → live t (mark_seen_or_reject now uuid nonce c).0 k ≡ true
live-mark now t uuid nonce k c d h l =
    let j = make_replay_key uuid nonce in
    ground
      (arith, mark_refines now t uuid nonce k c d h, live_earlier now t c k h l, bytes_eq_iff j k)

live-run :
    (t : ℕ) (k : List ℕ) (calls : List Call) (c : ReplayCache)
    → IsCache c
    → All (λ (r : Call). r.now ≤ t) calls
    → live t c k ≡ true
    → IsCache (run calls c) × (live t (run calls c) k ≡ true)
unfolding run
live-run t k [] c d h l = (d, l)
live-run t k (r ∷ rs) c d h l =
    live-run t k rs (mark_seen_or_reject r.now r.uuid r.nonce c).0
      (mark-IsCache r.now r.uuid r.nonce c d) h.1 (live-mark r.now t r.uuid r.nonce k c d h.0 l)

All-mono :
    (b t : ℕ) (calls : List Call)
    → b ≤ t + 1
    → All (λ (r : Call). r.now < b) calls
    → All (λ (r : Call). r.now ≤ t) calls
All-mono b t [] h a = tt
All-mono b t (r ∷ rs) h a = (omega arith, All-mono b t rs h a.1)

rejects :
    (now : ℕ) (uuid nonce : List ℕ) (c : ReplayCache)
    → live now c (make_replay_key uuid nonce) ≡ true
    → mark_seen_or_reject now uuid nonce c ≡ (c, false)
unfolding mark_seen_or_reject live
rejects now uuid nonce c l = ground arith

-- After a pair was accepted at a time, and after any calls at times before the end of its window, in
-- any order, the same pair is rejected at every time before the end of its window, and the rejection
-- does not change the cache.
pub replay_rejected :
    (now later : ℕ) (uuid nonce : List ℕ) (c : ReplayCache) (calls : List Call)
    → IsCache c
    → 0 < c.window
    → (mark_seen_or_reject now uuid nonce c).1 ≡ true
    → All (λ (r : Call). r.now < now + c.window) calls
    → later < now + c.window
    → let c' = run calls (mark_seen_or_reject now uuid nonce c).0 in
      mark_seen_or_reject later uuid nonce c' ≡ (c', false)
replay_rejected now later uuid nonce c calls d hw acc before h =
    let k = make_replay_key uuid nonce in
    let t = now + c.window - 1 in
    let c1 = (mark_seen_or_reject now uuid nonce c).0 in
    let first : live t c1 k ≡ true =
      ground (arith, mark_refines now t uuid nonce k c d (omega arith), bytes_eq_refl k) in
    let after =
      live-run t k calls c1 (mark-IsCache now uuid nonce c d)
        (All-mono (now + c.window) t calls (omega arith) before) first in
    rejects later uuid nonce (run calls c1)
      (live_earlier later t (run calls c1) k (omega arith) after.1)
