-- ===== src/Service/Once.antt =====
-- A hello that was served is not served again.
use sing_ewp.Hello.{ClientHello}
use sing_ewp.Handshake.Replay.{replayed_hello_refused}
use sing_ewp.AntiReplay.Live.{IsCache}
use sing_ewp.Handshake.Accept.{authenticate_iff}
use sing_ewp.Crypto.{Primitives}
use sing_ewp.Service.{Service, Dispatch, handle_transport, offer}
use sing_ewp.Handshake.Asymmetric.{KeyExchange}
use sing_ewp.Handshake.{check_replay, accept_client_hello, authenticate, ServerTimes}
use sing_ewp.Errors.{ok, replayed, err, Result, Error, bad_timestamp}
use sing_ewp.AntiReplay.{Call, replay_window, ReplayCache, run, mark_seen_or_reject}
use sing_ewp.Prelude.{
  true, ◌∙◌, List, ◌<◌, ap, Bool, Option, sym, All, ◌+◌, Bool-cases, some, ◌≤◌, inl, arith, ◌≡◌,
  inr, ℕ, [],
}
use sing_ewp.Service.Dispatched.{handle_inv, accept_inv}

module _ (p : Primitives) (kx : KeyExchange) where
  -- The service after a call that gets a message.
  cache_after :
      (times : ServerTimes) (key : Option (List ℕ)) (coins : List ℕ) (delivers : List ℕ → Bool)
      (underlying : Bool) (msg : List ℕ) (first : Result (List ℕ)) (s : Service) (ch : ClientHello)
      → authenticate p s.lookup times.checked msg ≡ ok ch
      → (handle_transport p kx times key coins delivers underlying (ok msg) first s).0
        ≡ record s { replay = (check_replay times.marked ch s.replay).0 }
  unfolding handle_transport accept_client_hello offer
  cache_after times key coins delivers underlying msg first s ch h =
      elim (Bool-cases (check_replay times.marked ch s.replay).1) [
        | inl e ↦ ground (arith, h, e)
        | inr e ↦ ground (arith, h, e)
      ]

  -- A hello that is refused ends the call.
  refused :
      (times : ServerTimes) (key : Option (List ℕ)) (coins : List ℕ) (delivers : List ℕ → Bool)
      (underlying : Bool) (msg : List ℕ) (first : Result (List ℕ)) (s : Service) (e : Error)
      → accept_client_hello p kx s.lookup times key coins msg s.replay ≡ (s.replay, err e)
      → handle_transport p kx times key coins delivers underlying (ok msg) first s ≡ (s, err e, [])
  unfolding handle_transport
  refused times key coins delivers underlying msg first s e h = ground (arith, h)

  fresh_in :
      (now : ℕ) (ch : ClientHello) (c : ReplayCache) (cache : Option ReplayCache)
      → cache ≡ some c
      → (check_replay now ch cache).1 ≡ true
      → ((mark_seen_or_reject now ch.uuid ch.nonce c).1 ≡ true)
        × ((check_replay now ch cache).0 ≡ some (mark_seen_or_reject now ch.uuid ch.nonce c).0)
  unfolding check_replay
  fresh_in now ch c cache h e = (ground (arith, h, e), ground (arith, h))

  -- A hello is served once. Let handleTransport have called the handler for a message, on a service
  -- with a replay cache of the standard window, and let the timestamp of the hello in it be less than 60
  -- seconds ahead of the admission, less the time that the server takes from its timestamp check to
  -- the cache. Then the cache has the hello, and after any further admissions before the end of its
  -- entry the same message leads to no call of the handler, at any time and whatever the transport and
  -- the key generation do: the call sends nothing, ends with an error and leaves the service as
  -- it is.
  pub handle_transport_once :
      (times times' : ServerTimes) (key key' : Option (List ℕ)) (coins coins' : List ℕ)
      (delivers delivers' : List ℕ → Bool) (underlying underlying' : Bool) (msg : List ℕ)
      (first first' : Result (List ℕ)) (s s' : Service) (d : Dispatch) (ch : ClientHello)
      (c : ReplayCache) (calls : List Call) (delay : ℕ) (sent : List (List ℕ))
      → s.replay ≡ some c
      → IsCache c
      → c.window ≡ replay_window
      → authenticate p s.lookup times.checked msg ≡ ok ch
      → handle_transport p kx times key coins delivers underlying (ok msg) first s
        ≡ (s', ok d, sent)
      → ch.timestamp + delay < times.marked + 60
      → All (λ (r : Call). r.now < times.marked + c.window) calls
      → times'.marked ≤ times'.checked + delay
      → let marked = (mark_seen_or_reject times.marked ch.uuid ch.nonce c).0 in
        let t = record s' { replay = some (run calls marked) } in
        (s'.replay ≡ some marked)
        × ((e : Error) × (handle_transport p kx times' key' coins' delivers' underlying'
                (ok msg)
                first'
                t
              ≡ (t, err e, [])))
  handle_transport_once times times' key key' coins coins' delivers delivers' underlying underlying'
        msg first first' s s' d ch c calls delay sent hc ic hw auth h ahead before prompt =
      let (out, res, ch1, e0, e1, e2, e3) =
        handle_inv p kx times key coins delivers underlying msg first s s' d sent h in
      let (ch', good, fresh, answer) =
        accept_inv p kx s.lookup times key coins msg out s.replay res e0 in
      let same : ch' ≡ ch = ground (arith, good, auth) in
      let f = fresh_in times.marked ch c s.replay hc (rw (← same) fresh) in
      let after : s' ≡ record s { replay = (check_replay times.marked ch s.replay).0 } =
        sym (ap (λ x. x.0) h)
        ∙ cache_after times key coins delivers underlying msg first s ch auth in
      let lookup_kept : s'.lookup ≡ s.lookup = ap (λ (x : Service). x.lookup) after in
      let marked = (mark_seen_or_reject times.marked ch.uuid ch.nonce c).0 in
      let t : Service = record s' { replay = some (run calls marked) } in
      (
        ap (λ (x : Service). x.replay) after ∙ f.1,
        elim (replayed_hello_refused p kx s.lookup times.checked times.marked delay msg ch c calls
            times' key' coins' ic hw ((authenticate_iff p s.lookup times.checked msg ch).0 auth) f.0
            ahead before prompt) [
              | inl q ↦ (
                bad_timestamp,
                refused times' key' coins' delivers' underlying' msg first' t bad_timestamp
                    (rw lookup_kept q),
              )
              | inr q ↦ (
                replayed,
                refused times' key' coins' delivers' underlying' msg first' t replayed
                    (rw lookup_kept q),
              )
            ],
      )
