-- ===== src/Service/Calls.antt =====
-- handleTransport of server.go with its calls of the transport and of the handler, in their order.
-- The deadline is that of the context, for a transport that has SetDeadline.
pub mod Endings
pub mod Waiting
mod Tests
use sing_ewp.Kdf.{SessionKeys}
use sing_ewp.Prelude.{Option, ◌==◌, ℕ, ◌++◌, if◌then◌else◌, some, Bool, none, ◌∷◌, List, not, []}
use sing_ewp.Service.{Dispatch, Service, dispatch}
use sing_ewp.Handshake.{ServerTimes, accept_client_hello}
use sing_ewp.Handshake.Asymmetric.{KeyExchange}
use sing_ewp.Crypto.{Primitives}
use sing_ewp.Hello.{command_udp, or_fail, ClientHello}
use sing_ewp.Errors.{err, ok, Result, nil_key}

-- SetDeadline (with nothing for the zero time), ReadMessage, SendMessage and Close of the transport, and
-- the call of the handler
pub data Call : Type 0 where
  sets_deadline : Option ℕ → Call
  reads : Call
  sends : List ℕ → Call
  closes : Call
  hands_over : Dispatch → Call

-- The deadline of the transport after the calls.
unfoldable pub deadline_after : List Call → Option ℕ → Option ℕ
deadline_after [] d = d
deadline_after (sets_deadline t ∷ calls) d = deadline_after calls t
deadline_after (reads ∷ calls) d = deadline_after calls d
deadline_after (sends m ∷ calls) d = deadline_after calls d
deadline_after (closes ∷ calls) d = deadline_after calls d
deadline_after (hands_over x ∷ calls) d = deadline_after calls d

-- `settable` says that the transport has SetDeadline.
unfoldable pub set_handshake_deadline : Bool → Option ℕ → List Call
set_handshake_deadline settable none = []
set_handshake_deadline settable (some t) = if settable then sets_deadline (some t) ∷ [] else []

unfoldable pub clear_deadline : Bool → List Call
clear_deadline settable = if settable then sets_deadline none ∷ [] else []

-- How a flow ends: with the call of the handler, or with the close of the transport. Recv closes the
-- stream on each error, and a second Close of the stream does nothing.
unfoldable pub last_call : Result Dispatch → Call
last_call (err e) = closes
last_call (ok d) = hands_over d

module _ (p : Primitives) where
  -- The calls of the switch on the command.
  unfoldable pub dispatch_calls : Bool → ClientHello → SessionKeys → Result (List ℕ) → List Call
  dispatch_calls underlying ch keys first =
      let ending = last_call (dispatch p underlying ch keys first) in
      if ch.command == command_udp then reads ∷ ending ∷ [] else ending ∷ []

module _ (p : Primitives) (kx : KeyExchange) where
  -- The calls after the ClientHello was read.
  unfoldable pub answer_calls :
      ServerTimes
      → Option (List ℕ)
      → List ℕ
      → (List ℕ → Bool)
      → Bool
      → Bool
      → List ℕ
      → Result (List ℕ)
      → Service
      → List Call
  answer_calls times x25519_key coins delivers settable underlying msg first s =
      elim (accept_client_hello p kx s.lookup times x25519_key coins msg s.replay).1 [
        | err e ↦ closes ∷ []
        | ok (out, res) ↦
            if not (delivers out)
            then sends out ∷ closes ∷ []
            else (sends out
                ∷ (clear_deadline settable ++ elim (or_fail res.client_hello nil_key) [
                  | err e ↦ closes ∷ []
                  | ok ch ↦ dispatch_calls p underlying ch res.keys first
                ]))
      ]

  unfoldable pub handle_calls :
      Option ℕ
      → ServerTimes
      → Option (List ℕ)
      → List ℕ
      → (List ℕ → Bool)
      → Bool
      → Bool
      → Result (List ℕ)
      → Result (List ℕ)
      → Service
      → List Call
  handle_calls deadline times x25519_key coins delivers settable underlying hello first s =
      set_handshake_deadline settable deadline
      ++ (reads ∷ elim hello [
        | err e ↦ closes ∷ []
        | ok msg ↦ answer_calls times x25519_key coins delivers settable underlying msg first s
      ])
