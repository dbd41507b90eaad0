-- ===== src/Service/Calls/Endings.antt =====
-- How handleTransport leaves the transport.
use sing_ewp.Handshake.Asymmetric.{KeyExchange}
use sing_ewp.Handshake.{accept_client_hello, ServerTimes}
use sing_ewp.Kdf.{SessionKeys}
use sing_ewp.Hello.{ClientHello, command_udp, or_fail}
use sing_ewp.Crypto.{Primitives}
use sing_ewp.Prelude.{
  All, append_assoc, ℕ, ◌==◌, Option, none, Bool-cases, ◌≡◌, ◌∷◌, some, inr, ap, ◌++◌, false, [],
  arith, inl, refl, List, sym, Bool, true, All-append, ◌∙◌,
}
use sing_ewp.Service.Calls.{
  Call, sets_deadline, reads, sends, closes, hands_over, deadline_after, set_handshake_deadline,
  clear_deadline, last_call, dispatch_calls, handle_calls, answer_calls,
}
use sing_ewp.Service.{Dispatch, dispatch, handle_transport, Service, offer}
use sing_ewp.Errors.{err, ok, Result, Error, transport, nil_key, Result-cases, ◌>>=◌}

-- A call after which the flow goes on.
abbrev pub is_work : Call → Bool
is_work (sets_deadline t) = true
is_work reads = true
is_work (sends m) = true
is_work closes = false
is_work (hands_over d) = false

abbrev pub IsWork : Call → Type 0
IsWork c = is_work c ≡ true

-- The calls of a flow with the result `r`: one close or one call of the handler, at the end, and no
-- deadline on a transport that the handler gets.
pub record IsOrderly (settable : Bool) (r : Result Dispatch) (calls : List Call) : Type 0 where
  pub before : List Call
  pub whole : calls ≡ before ++ (last_call r ∷ [])
  pub working : All IsWork before
  pub cleared :
      (d : Dispatch) (t : Option ℕ) → r ≡ ok d → settable ≡ true → deadline_after before t ≡ none

pub deadline_after-append :
    (a b : List Call) (t : Option ℕ)
    → deadline_after (a ++ b) t ≡ deadline_after b (deadline_after a t)
unfolding deadline_after
deadline_after-append [] b t = refl
deadline_after-append (sets_deadline x ∷ a) b t = deadline_after-append a b x
deadline_after-append (reads ∷ a) b t = deadline_after-append a b t
deadline_after-append (sends m ∷ a) b t = deadline_after-append a b t
deadline_after-append (closes ∷ a) b t = deadline_after-append a b t
deadline_after-append (hands_over d ∷ a) b t = deadline_after-append a b t

-- More work first.
behind :
    (settable : Bool) (r : Result Dispatch) (work calls : List Call)
    → All IsWork work
    → IsOrderly settable r calls
    → IsOrderly settable r (work ++ calls)
behind settable r work calls w o = record {
  before = work ++ o.before;
  whole = ap (λ x. work ++ x) o.whole ∙ sym (append_assoc work o.before (last_call r ∷ []));
  working = All-append IsWork work o.before w o.working;
  cleared =
      λ d t e q. deadline_after-append work o.before t ∙ o.cleared d (deadline_after work t) e q;
}

failing :
    (settable : Bool) (e : Error) (r : Result Dispatch)
    → r ≡ err e
    → IsOrderly settable r (closes ∷ [])
unfolding last_call
failing settable e r q = rw q (record {
  before = [];
  whole = refl;
  working = tt;
  cleared = λ d t h s. absurd (ground (arith, h));
})

pub set-IsWork : (settable : Bool) (t : Option ℕ) → All IsWork (set_handshake_deadline settable t)
unfolding set_handshake_deadline
set-IsWork settable none = tt
set-IsWork true (some t) = (refl, tt)
set-IsWork false (some t) = tt

clear-IsWork : (settable : Bool) → All IsWork (clear_deadline settable)
unfolding clear_deadline
clear-IsWork true = (refl, tt)
clear-IsWork false = tt

-- The calls after the deadline was cleared, which set none.
pub record Settled (r : Result Dispatch) (calls : List Call) : Type 0 where
  pub before : List Call
  pub whole : calls ≡ before ++ (last_call r ∷ [])
  pub working : All IsWork before
  pub unset : (t : Option ℕ) → deadline_after before t ≡ t

cleared-IsOrderly :
    (settable : Bool) (r : Result Dispatch) (calls : List Call)
    → Settled r calls
    → IsOrderly settable r (clear_deadline settable ++ calls)
unfolding clear_deadline deadline_after
cleared-IsOrderly true r calls o = record {
  before = sets_deadline none ∷ o.before;
  whole = ap (λ x. sets_deadline none ∷ x) o.whole;
  working = (refl, o.working);
  cleared = λ d t e q. o.unset none;
}
cleared-IsOrderly false r calls o = record {
  before = o.before;
  whole = o.whole;
  working = o.working;
  cleared = λ d t e q. absurd (ground (arith, q));
}

module _ (p : Primitives) where
  dispatch-Settled :
      (underlying : Bool) (ch : ClientHello) (keys : SessionKeys) (first : Result (List ℕ))
      → Settled (dispatch p underlying ch keys first) (dispatch_calls p underlying ch keys first)
  unfolding dispatch_calls deadline_after
  dispatch-Settled underlying ch keys first = elim (Bool-cases (ch.command == command_udp)) [
    | inl e ↦ record {
      before = reads ∷ [];
      whole = ground (arith, e);
      working = (refl, tt);
      unset = λ t. refl;
    }
    | inr e ↦ record { before = []; whole = ground (arith, e); working = tt; unset = λ t. refl }
  ]

module _ (p : Primitives) (kx : KeyExchange) where
  answer-IsOrderly :
      (times : ServerTimes) (key : Option (List ℕ)) (coins : List ℕ) (delivers : List ℕ → Bool)
      (settable underlying : Bool) (msg : List ℕ) (first : Result (List ℕ)) (s : Service)
      → IsOrderly settable
          (handle_transport p kx times key coins delivers underlying (ok msg) first s).1
          (answer_calls p kx times key coins delivers settable underlying msg first s)
  unfolding answer_calls handle_transport offer ◌>>=◌
  answer-IsOrderly times key coins delivers settable underlying msg first s =
      let r = (accept_client_hello p kx s.lookup times key coins msg s.replay).1 in
      let result = (handle_transport p kx times key coins delivers underlying (ok msg) first s).1 in
      let calls = answer_calls p kx times key coins delivers settable underlying msg first s in
      elim (Result-cases r) [
        | inr (e, q) ↦
            let ends : calls ≡ closes ∷ [] = ground (arith, q) in
            rw ends (failing settable e result (ground (arith, q)))
        | inl ((out, res), q) ↦ elim (Bool-cases (delivers out)) [
          | inr f ↦
              let ends : calls ≡ sends out ∷ closes ∷ [] = ground (arith, q, f) in
              rw ends (
                behind settable result (sends out ∷ []) (closes ∷ []) (refl, tt)
                  (failing settable transport result (ground (arith, q, f))))
          | inl f ↦ elim (Result-cases (or_fail res.client_hello nil_key)) [
            | inr (e, g) ↦
                let ends : calls ≡ sends out ∷ (clear_deadline settable ++ (closes ∷ [])) =
                  ground (arith, q, f, g) in
                rw ends (
                  behind settable result (sends out ∷ []) _ (refl, tt)
                    (behind settable result (clear_deadline settable) (closes ∷ [])
                      (clear-IsWork settable)
                      (failing settable e result (ground (arith, q, f, g)))))
            | inl (ch, g) ↦
                let more = dispatch_calls p underlying ch res.keys first in
                let ends : calls ≡ sends out ∷ (clear_deadline settable ++ more) =
                  ground (arith, q, f, g) in
                let same : result ≡ dispatch p underlying ch res.keys first =
                  ground (arith, q, f, g) in
                rw (ends, same)
                  (behind settable _ (sends out ∷ []) _ (refl, tt)
                    (cleared-IsOrderly settable _ more
                      (dispatch-Settled p underlying ch res.keys first)))
          ]
        ]
      ]

  -- How handleTransport leaves the transport. Of its calls only the last closes the transport or calls
  -- the handler: a close where it fails before the handler, the call of the handler else. Where the
  -- transport has SetDeadline, no deadline is left when the handler is called.
  pub handle_calls-IsOrderly :
      (deadline : Option ℕ) (times : ServerTimes) (key : Option (List ℕ)) (coins : List ℕ)
      (delivers : List ℕ → Bool) (settable underlying : Bool) (hello first : Result (List ℕ))
      (s : Service)
      → IsOrderly settable
          (handle_transport p kx times key coins delivers underlying hello first s).1
          (handle_calls p kx deadline times key coins delivers settable underlying hello first s)
  unfolding handle_calls handle_transport
  handle_calls-IsOrderly deadline times key coins delivers settable underlying (err e) first s =
      behind settable (err e) (set_handshake_deadline settable deadline) _
        (set-IsWork settable deadline)
        (behind settable (err e) (reads ∷ []) _ (refl, tt) (failing settable e (err e) refl))
  handle_calls-IsOrderly deadline times key coins delivers settable underlying (ok msg) first s =
      let r = (handle_transport p kx times key coins delivers underlying (ok msg) first s).1 in
      behind settable r (set_handshake_deadline settable deadline) _ (set-IsWork settable deadline)
        (behind settable r (reads ∷ []) _ (refl, tt)
          (answer-IsOrderly times key coins delivers settable underlying msg first s))
