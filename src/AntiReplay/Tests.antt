-- ===== src/AntiReplay/Tests.antt =====
-- Runs of the replay cache.
use sing_ewp.AntiReplay.Remember.{replay_rejected}
use sing_ewp.Prelude.{List, ℕ, false, true, arith, refl, ◌∷◌, ◌≡◌, []}
use sing_ewp.AntiReplay.{
  ReplayCache, mark_seen_or_reject, new_replay_cache, replay_window, lookup, seen, run, Call,
}

abbrev fresh_cache : ReplayCache
fresh_cache = new_replay_cache replay_window

abbrev nonce_a : List ℕ
nonce_a = 1 ∷ 2 ∷ []

abbrev nonce_b : List ℕ
nonce_b = 3 ∷ 4 ∷ []

first_accepted : (mark_seen_or_reject 100 [] nonce_a fresh_cache).1 ≡ true
unfolding mark_seen_or_reject seen lookup
first_accepted = refl

abbrev between : List Call
between = record { now = 120; uuid = []; nonce = nonce_b } ∷ []

replay_rejected_example :
    let c' = run between (mark_seen_or_reject 100 [] nonce_a fresh_cache).0 in
    mark_seen_or_reject 279 [] nonce_a c' ≡ (c', false)
replay_rejected_example =
    replay_rejected 100 279 [] nonce_a fresh_cache between tt (omega arith) first_accepted
      (omega arith, tt) (omega arith)
