-- ===== src/Handshake/Replay.antt =====
-- A ClientHello that comes again: the timestamp window and the replay cache together.
use sing_ewp.Handshake.Asymmetric.{KeyExchange}
use sing_ewp.Hello.{ClientHello}
use sing_ewp.AntiReplay.Remember.{replay_rejected}
use sing_ewp.Crypto.{Primitives}
use sing_ewp.Handshake.Accept.{Authentic, Authentic-authenticate}
use sing_ewp.Handshake.{
  accept_client_hello, abs_diff, respond, ServerTimes, authenticate, UuidLookup, check_replay,
}
use sing_ewp.AntiReplay.Live.{mark_refines, IsCache, live, mark-IsCache}
use sing_ewp.Kdf.{handshake_timestamp_window}
use sing_ewp.Prelude.{
  inl, ◌<◌, ℕ, inr, bytes_eq_refl, All, List, leb, true, Option, false, ◌≡◌, ◌⊎◌, ◌≤◌, ◌+◌,
  Bool-cases, some, arith,
}
use sing_ewp.AntiReplay.{
  mark_seen_or_reject, Call, ReplayCache, replay_window, make_replay_key, run,
}
use sing_ewp.Errors.{err, ok, replayed, bad_timestamp}

-- Outside the window an otherwise authentic hello is refused for its timestamp.
out_of_window :
    (p : Primitives) (find_uuid : UuidLookup) (now later : ℕ) (msg : List ℕ) (ch : ClientHello)
    → Authentic p find_uuid now msg ch
    → handshake_timestamp_window < abs_diff ch.timestamp later
    → authenticate p find_uuid later msg ≡ err bad_timestamp
unfolding authenticate
out_of_window p find_uuid now later msg ch a h =
    ground (arith, a.long_enough, a.user, a.decoded, a.known, bytes_eq_refl ch.uuid)

Authentic-again :
    (p : Primitives) (find_uuid : UuidLookup) (now later : ℕ) (msg : List ℕ) (ch : ClientHello)
    → Authentic p find_uuid now msg ch
    → abs_diff ch.timestamp later ≤ handshake_timestamp_window
    → Authentic p find_uuid later msg ch
Authentic-again p find_uuid now later msg ch a h = record {
  long_enough = a.long_enough;
  user = a.user;
  decoded = a.decoded;
  known = a.known;
  in_window = h;
}

module _ (p : Primitives) (kx : KeyExchange) (find_uuid : UuidLookup) where
  refused_as_replay :
      (times : ServerTimes) (key : Option (List ℕ)) (coins msg : List ℕ) (ch : ClientHello)
      (c : ReplayCache)
      → authenticate p find_uuid times.checked msg ≡ ok ch
      → mark_seen_or_reject times.marked ch.uuid ch.nonce c ≡ (c, false)
      → accept_client_hello p kx find_uuid times key coins msg (some c) ≡ (some c, err replayed)
  unfolding accept_client_hello check_replay
  refused_as_replay times key coins msg ch c h m = ground arith

  refused_for_time :
      (times : ServerTimes) (key : Option (List ℕ)) (coins msg : List ℕ) (c : ReplayCache)
      → authenticate p find_uuid times.checked msg ≡ err bad_timestamp
      → accept_client_hello p kx find_uuid times key coins msg (some c)
        ≡ (some c, err bad_timestamp)
  unfolding accept_client_hello
  refused_for_time times key coins msg c h = ground arith

  answered_again :
      (times : ServerTimes) (key : Option (List ℕ)) (coins msg : List ℕ) (ch : ClientHello)
      (c : ReplayCache)
      → authenticate p find_uuid times.checked msg ≡ ok ch
      → (mark_seen_or_reject times.marked ch.uuid ch.nonce c).1 ≡ true
      → (accept_client_hello p kx find_uuid times key coins msg (some c)).1
        ≡ respond p kx key coins times.stamped ch
  unfolding accept_client_hello check_replay
  answered_again times key coins msg ch c h m = ground arith

  -- Let a cache with the standard window have admitted an authentic ClientHello whose timestamp is
  -- less than 60 seconds ahead of the admission, less the time that the server takes from its
  -- timestamp check to the cache. Then after any calls of the cache before the entry's end, the same
  -- message is refused at every later time, as a replay or for its timestamp, and the cache does not
  -- change.
  pub replayed_hello_refused :
      (now marked delay : ℕ) (msg : List ℕ) (ch : ClientHello) (c : ReplayCache) (calls : List Call)
      (times : ServerTimes) (key : Option (List ℕ)) (coins : List ℕ)
      → IsCache c
      → c.window ≡ replay_window
      → Authentic p find_uuid now msg ch
      → (mark_seen_or_reject marked ch.uuid ch.nonce c).1 ≡ true
      → ch.timestamp + delay < marked + 60
      → All (λ (r : Call). r.now < marked + c.window) calls
      → times.marked ≤ times.checked + delay
      → let c' = run calls (mark_seen_or_reject marked ch.uuid ch.nonce c).0 in
        let r = accept_client_hello p kx find_uuid times key coins msg (some c') in
        (r ≡ (some c', err bad_timestamp)) ⊎ (r ≡ (some c', err replayed))
  replayed_hello_refused now marked delay msg ch c calls times key coins ic hw a fresh ahead before
        prompt =
      let c' = run calls (mark_seen_or_reject marked ch.uuid ch.nonce c).0 in
      elim (Bool-cases (leb (abs_diff ch.timestamp times.checked) handshake_timestamp_window)) [
        | inl near ↦
            let auth =
              Authentic-authenticate p find_uuid times.checked msg ch
                (Authentic-again p find_uuid now times.checked msg ch a (ground arith)) in
            let soon : times.marked < marked + c.window = unfold abs_diff in ground arith in
            inr (
              refused_as_replay times key coins msg ch c' auth (
                replay_rejected marked times.marked ch.uuid ch.nonce c calls ic (omega arith) fresh
                  before soon))
        | inr far ↦ inl (
            refused_for_time times key coins msg c'
              (out_of_window p find_uuid now times.checked msg ch a (ground arith)))
      ]

  -- The bound of 60 seconds is sharp. A ClientHello whose timestamp is 60 seconds or more ahead of its
  -- admission (up to 120 are in the window) is answered a second time, with a new key exchange, 120
  -- seconds after its timestamp, when its cache entry has ended and its timestamp is still in the
  -- window.
  pub early_hello_answered_twice :
      (now marked : ℕ) (msg : List ℕ) (ch : ClientHello) (c : ReplayCache) (times : ServerTimes)
      (key : Option (List ℕ)) (coins : List ℕ)
      → IsCache c
      → c.window ≡ replay_window
      → Authentic p find_uuid now msg ch
      → (mark_seen_or_reject marked ch.uuid ch.nonce c).1 ≡ true
      → marked + 60 ≤ ch.timestamp
      → times.checked ≡ ch.timestamp + handshake_timestamp_window
      → times.marked ≡ times.checked
      → let c' = (mark_seen_or_reject marked ch.uuid ch.nonce c).0 in
        (accept_client_hello p kx find_uuid times key coins msg (some c')).1
        ≡ respond p kx key coins times.stamped ch
  early_hello_answered_twice now marked msg ch c times key coins ic hw a fresh ahead tc tm =
      let k = make_replay_key ch.uuid ch.nonce in
      let c' = (mark_seen_or_reject marked ch.uuid ch.nonce c).0 in
      let auth = Authentic-authenticate p find_uuid times.checked msg ch (
        Authentic-again p find_uuid now times.checked msg ch a (unfold abs_diff in ground arith)) in
      let first = mark_refines marked times.marked ch.uuid ch.nonce k c ic (omega arith) in
      let ended : live times.marked c' k ≡ false = ground (arith, first, bytes_eq_refl k) in
      let again =
        mark_refines times.marked times.marked ch.uuid ch.nonce k c'
          (mark-IsCache marked ch.uuid ch.nonce c ic) (omega arith) in
      answered_again times key coins msg ch c' auth (ground (arith, again, ended))
