-- ===== src/Service/Calls/Waiting.antt =====
-- The wait for the first UDP_NEW in handleTransport.
use sing_ewp.Service.Calls.Endings.{IsWork, set-IsWork, deadline_after-append}
use sing_ewp.Service.Dispatched.{handle_inv}
use sing_ewp.Service.Session.{handle_accepted}
use sing_ewp.Service.{handle_transport, new_packet_connection, Metadata, dispatch}
use sing_ewp.PacketConn.{PacketConn}
use sing_ewp.Kdf.{SessionKeys}
use sing_ewp.Service.Calls.{reads, sends}
use sing_ewp.Hello.{command_udp, ClientHello, or_fail, command_tcp}
use sing_ewp.Handshake.Asymmetric.{KeyExchange}
use sing_ewp.Prelude.{
  ◌++◌, List, some, [], ℕ, ◌≡◌, ◌∷◌, Option, arith, none, Bool, refl, true, All, ◌∙◌, Bool-cases,
  All-append, inl, ◌==◌, inr,
}
use sing_ewp.Crypto.{Primitives}
use sing_ewp.Service.Calls.{
  Call, sets_deadline, reads, sends, deadline_after, set_handshake_deadline, clear_deadline,
  last_call, dispatch_calls, answer_calls, handle_calls,
}
use sing_ewp.Service.{Service, dispatch}
use sing_ewp.Handshake.{ServerTimes, accept_client_hello, HandshakeResult}
use sing_ewp.Errors.{ok, Result}

module _ (p : Primitives) where
  packet_command :
      (underlying : Bool) (ch : ClientHello) (keys : SessionKeys) (first : Result (List ℕ))
      (c : PacketConn) (m : Metadata)
      → dispatch p underlying ch keys first ≡ ok (new_packet_connection c m)
      → ch.command ≡ command_udp
  unfolding dispatch
  packet_command underlying ch keys first c m h = elim (Bool-cases (ch.command == command_tcp)) [
    | inl e ↦ absurd (ground (arith, e, h))
    | inr e ↦ elim (Bool-cases (ch.command == command_udp)) [
      | inl f ↦ ground (arith, f)
      | inr f ↦ absurd (ground (arith, e, f, h))
    ]
  ]

module _ (p : Primitives) (kx : KeyExchange) where
  -- The calls of a flow for UDP whose hello is accepted and answered.
  udp_calls :
      (deadline : Option ℕ) (times : ServerTimes) (key : Option (List ℕ)) (coins msg out : List ℕ)
      (delivers : List ℕ → Bool) (underlying : Bool) (first : Result (List ℕ)) (s : Service)
      (res : HandshakeResult) (ch : ClientHello)
      → (accept_client_hello p kx s.lookup times key coins msg s.replay).1 ≡ ok (out, res)
      → delivers out ≡ true
      → res.client_hello ≡ some ch
      → ch.command ≡ command_udp
      → handle_calls p kx deadline times key coins delivers true underlying (ok msg) first s
        ≡ (set_handshake_deadline true deadline ++ (reads ∷ sends out ∷ sets_deadline none ∷ []))
          ++ (reads
              ∷ last_call
                  (handle_transport p kx times key coins delivers underlying (ok msg) first s).1
              ∷ [])
  unfolding handle_calls answer_calls dispatch_calls clear_deadline set_handshake_deadline or_fail
  udp_calls none times key coins msg out delivers underlying first s res ch q f g u =
      let same =
        (handle_accepted p kx times key coins delivers underlying msg out res ch first s q f g).0 in
      ground (arith, q, f, g, u, same)
  udp_calls (some t) times key coins msg out delivers underlying first s res ch q f g u =
      let same =
        (handle_accepted p kx times key coins delivers underlying msg out res ch first s q f g).0 in
      ground (arith, q, f, g, u, same)

  -- Nothing bounds the wait for the first UDP_NEW. Take a transport that has SetDeadline, and a hello for
  -- which the handler gets a packet connection if a certain message comes next. Whatever comes next
  -- instead, or if nothing does, handleTransport reads once more before it closes the transport or calls
  -- the handler, the one of these that its result says comes right after this read, and during the read
  -- no deadline is set, whatever that of the context is and whatever was set before.
  pub udp_new_wait_unbounded :
      (deadline before : Option ℕ) (times : ServerTimes) (key : Option (List ℕ))
      (coins msg : List ℕ) (delivers : List ℕ → Bool) (underlying : Bool)
      (good first : Result (List ℕ)) (s s' : Service) (c : PacketConn) (m : Metadata)
      (sent : List (List ℕ))
      → handle_transport p kx times key coins delivers underlying (ok msg) good s
        ≡ (s', ok (new_packet_connection c m), sent)
      → let calls =
          handle_calls p kx deadline times key coins delivers true underlying (ok msg) first s in
        let result =
          (handle_transport p kx times key coins delivers underlying (ok msg) first s).1 in
        (done : List Call) × (calls ≡ done ++ (reads ∷ last_call result ∷ []))
        × All IsWork done
        × (deadline_after done before ≡ none)
  udp_new_wait_unbounded deadline before times key coins msg delivers underlying good first s s' c m
        sent h =
      let (out, res, ch, q, f, g, d) =
        handle_inv p kx times key coins delivers underlying msg good s s'
          (new_packet_connection c m) sent h in
      let u = packet_command p underlying ch res.keys good c m d in
      (
        set_handshake_deadline true deadline ++ (reads ∷ sends out ∷ sets_deadline none ∷ []),
        udp_calls deadline times key coins msg out delivers underlying first s res ch q f g u,
        All-append IsWork (set_handshake_deadline true deadline) _ (set-IsWork true deadline)
            (refl, (refl, (refl, tt))),
        deadline_after-append (set_handshake_deadline true deadline)
              (reads ∷ sends out ∷ sets_deadline none ∷ []) before
            ∙ (unfold deadline_after in refl),
      )
