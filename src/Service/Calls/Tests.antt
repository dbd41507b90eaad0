-- ===== src/Service/Calls/Tests.antt =====
-- The calls of a session for TCP, and those of one for UDP whose client sends nothing.
use sing_ewp.Service.Session.{triple}
use sing_ewp.Service.UdpSession.{dial_packet_conn_session}
use sing_ewp.Address.{zero_address}
use sing_ewp.PacketConn.{PacketConn}
use sing_ewp.Address.Wire.{on_wire}
use sing_ewp.Service.Calls.{reads, last_call}
use sing_ewp.Service.{Handled, handle_transport, new_packet_connection, Metadata}
use sing_ewp.Handshake.Toy.{draws}
use sing_ewp.Service.Toy.{near, env_1, env_1-Works}
use sing_ewp.Hello.Toy.{user}
use sing_ewp.Crypto.Random.{zeros-FillsBuffer, zeros}
use sing_ewp.Crypto.Toy.{toy-IsLawful, toy}
use sing_ewp.Prelude.{
  ◌++◌, refl, List, ◌∷◌, arith, some, none, [], ◌≡◌, false, true, All, ℕ, replicate,
}
use sing_ewp.Service.Calls.{handle_calls, Call, deadline_after, reads}
use sing_ewp.Service.Calls.Endings.{handle_calls-IsOrderly, IsOrderly, IsWork}
use sing_ewp.Service.Calls.Waiting.{udp_new_wait_unbounded}
use sing_ewp.Service.Toy.{served, toy_service, near, secret, toy_client, toy_service-IsService}
use sing_ewp.Handshake.Toy.{
  times_1, toy_exchange, toy-IsKeyExchange, draws, state_2, written_2, not_seen_2,
}
use sing_ewp.Hello.Toy.{msg_1, accept_all, place, place-IsAddress, user-IsArray, msg_2}
use sing_ewp.Errors.{err, ok, eof, Result}

handle_calls-IsOrderly_example : IsOrderly true served.1 (
    handle_calls toy toy_exchange
      (some 99)
      times_1
      (some (3 ∷ []))
      (4 ∷ [])
      accept_all
      true
      false
      (ok msg_1)
      (err eof)
      toy_service)
handle_calls-IsOrderly_example =
    handle_calls-IsOrderly toy toy_exchange (some 99) times_1 (some (3 ∷ [])) (4 ∷ []) accept_all
      true false (ok msg_1) (err eof) toy_service

-- The session for UDP, and its client that sends nothing after its hello instead.
abbrev flow : List ℕ → Result (List ℕ) → Handled
flow msg next =
    handle_transport toy toy_exchange times_1 (some (3 ∷ [])) (4 ∷ []) accept_all true (ok msg) next
      toy_service

served_packets :
    (wire : List ℕ) × (c : PacketConn) × (m : Metadata) × (flow msg_2 (ok wire)
      ≡ ((flow msg_2 (ok wire)).0, ok (new_packet_connection c m), (flow msg_2 (ok wire)).2))
served_packets =
    let r =
      dial_packet_conn_session toy toy-IsLawful toy_exchange toy-IsKeyExchange draws accept_all 1000
        1003 place toy_client msg_2 state_2 toy_service [] [] times_1 (4 ∷ []) (1 ∷ []) (3 ∷ [])
        secret accept_all true zeros (replicate 8 0) env_1 (9 ∷ 8 ∷ []) zero_address
        zeros-FillsBuffer zeros-FillsBuffer user-IsArray place-IsAddress written_2
        toy_service-IsService refl tt (near 1000 1001 (omega arith) (omega arith)) not_seen_2 refl
        refl (near 1002 1003 (omega arith) (omega arith)) (λ m. refl) zeros-FillsBuffer refl
        zeros-FillsBuffer env_1-Works (omega arith) (omega arith) in
    (
      r.1,
      r.5.server,
      record { user_uuid = user; destination = on_wire place },
      triple (flow msg_2 (ok r.1)) r.5.handled refl,
    )

udp_new_wait_unbounded_example :
    let calls =
      handle_calls toy toy_exchange
        (some 99)
        times_1
        (some (3 ∷ []))
        (4 ∷ [])
        accept_all
        true
        true
        (ok msg_2)
        (err eof)
        toy_service in
    (done : List Call) × (calls ≡ done ++ (reads ∷ last_call (flow msg_2 (err eof)).1 ∷ []))
    × All IsWork done
    × (deadline_after done none ≡ none)
udp_new_wait_unbounded_example =
    udp_new_wait_unbounded toy toy_exchange (some 99) none times_1 (some (3 ∷ [])) (4 ∷ []) msg_2
      accept_all true (ok served_packets.0) (err eof) toy_service
      (flow msg_2 (ok served_packets.0)).0 served_packets.1 served_packets.2
      (flow msg_2 (ok served_packets.0)).2 served_packets.3
