-- ===== src/Service/Tests.antt =====
-- Runs of the service's users.
use sing_ewp.Hello.ClientCodec.{decode_client_hello-encode}
use sing_ewp.Service.Toy.{
  served-ok, env_1-Works, served, near, toy_service-IsService, env_1, secret, toy_client,
  toy_service,
}
use sing_ewp.Framer.{send_message, write}
use sing_ewp.Framer.Order.{send_messages}
use sing_ewp.Service.Conn.{handle_conn-send_messages}
use sing_ewp.Service.Once.{handle_transport_once}
use sing_ewp.Handshake.Accept.{Authentic-authenticate}
use sing_ewp.AntiReplay.{Call, mark_seen_or_reject, ReplayCache, run}
use sing_ewp.Hello.ClientRoundTrip.{arrived}
use sing_ewp.PacketConn.{PacketConn}
use sing_ewp.StreamConn.{StreamConn}
use sing_ewp.Address.{zero_address}
use sing_ewp.Service.Session.{dial_conn_session, answer_of}
use sing_ewp.SecureStream.Delivery.{Linked}
use sing_ewp.Service.UdpSession.{dial_packet_conn_session}
use sing_ewp.Service.FirstDatagram.{IsFirstExchange}
use sing_ewp.Service.Gate.{IsAdmitted, handle_transport-IsAdmitted}
use sing_ewp.Errors.{ok, eof, err, Error}
use sing_ewp.Crypto.Random.{zeros, zeros-FillsBuffer, broken}
use sing_ewp.Handshake.Toy.{
  draws, written_1, state_2, toy_exchange, state_1, written_2, times_1, toy-IsKeyExchange,
  not_seen_2, not_seen, fresh_cache, msg_1-Authentic,
}
use sing_ewp.Client.{dial_conn, dial_packet_conn}
use sing_ewp.Address.Wire.{on_wire}
use sing_ewp.Hello.Toy.{
  msg_1, accept_all, user-IsArray, user, msg_2, place-IsAddress, place, hello_1,
  hello_1-IsClientHello, encoded_1,
}
use sing_ewp.Handshake.{ServerTimes}
use sing_ewp.Bytes.{IsByte, IsArray}
use sing_ewp.Service.Users.{IsService, remove_user_refines}
use sing_ewp.Kdf.{uuid_len}
use sing_ewp.Prelude.{
  replicate, List, refl, All-replicate, ℕ, length-replicate, ◌&&◌, ◌∷◌, not, bytes_eq, ◌≡◌, [],
  arith, none, ap, false, some, true, Option,
}
use sing_ewp.Crypto.Toy.{toy, toy-IsLawful}
use sing_ewp.Service.{
  Service, remove_user, listed, new_service, rebuild_lookup, handle_transport, new_connection,
  handle_conn,
}
use sing_ewp.Uuid.Canonical.{canonical, parse_uuid-canonical}

abbrev uuid_1 : List ℕ
uuid_1 = replicate 16 171

abbrev uuid_2 : List ℕ
uuid_2 = replicate 16 18

uuid_1-IsArray : IsArray uuid_len uuid_1
uuid_1-IsArray = (length-replicate 16 171, All-replicate IsByte 16 171 (omega arith))

empty-IsService : IsService toy (new_service toy)
empty-IsService = record { distinct = tt; current = refl }

abbrev one_user : Service
one_user = rebuild_lookup toy (record (new_service toy) { users = uuid_1 ∷ [] })

one_user-IsService : IsService toy one_user
unfolding listed
one_user-IsService = record { distinct = (refl, tt); current = refl }

remove_user_refines_example :
    let r = remove_user toy (canonical uuid_1) one_user in
    (r.1 ≡ listed uuid_1 (uuid_1 ∷ []))
    × IsService toy r.0
    × (listed uuid_1 r.0.users ≡ (listed uuid_1 (uuid_1 ∷ []) && not (bytes_eq uuid_1 uuid_1)))
remove_user_refines_example =
    remove_user_refines toy (canonical uuid_1) uuid_1 uuid_1 one_user one_user-IsService
      (parse_uuid-canonical uuid_1 uuid_1-IsArray)

dial_conn_session_example :
    let flow = λ (msg : List ℕ).
      handle_transport toy toy_exchange times_1
        (some (3 ∷ []))
        (4 ∷ [])
        accept_all
        false
        (ok msg)
        (err eof)
        toy_service in
    (out : List ℕ) × (server : StreamConn) × (client : StreamConn) × (flow msg_1 ≡ (
      (flow msg_1).0,
      ok (new_connection server (record { user_uuid = user; destination = on_wire place })),
      out ∷ [],
    ))
    × (dial_conn toy toy_exchange draws
          (record { takes = accept_all; answer = λ msg. answer_of (flow msg).2 })
          1000
          1003
          place
          toy_client
        ≡ ok client)
    × Linked client.stream server.stream
    × Linked server.stream client.stream
dial_conn_session_example =
    dial_conn_session toy toy-IsLawful toy_exchange toy-IsKeyExchange draws accept_all 1000 1003
      place toy_client msg_1 state_1 toy_service [] [] times_1 (4 ∷ []) (1 ∷ []) (3 ∷ []) secret
      accept_all false (err eof) zeros-FillsBuffer zeros-FillsBuffer user-IsArray place-IsAddress
      written_1 toy_service-IsService refl tt (near 1000 1001 (omega arith) (omega arith)) not_seen
      refl refl (near 1002 1003 (omega arith) (omega arith)) (λ m. refl)

dial_packet_conn_session_example :
    let flow = λ (msg : List ℕ) (wire : List ℕ).
      handle_transport toy toy_exchange times_1
        (some (3 ∷ []))
        (4 ∷ [])
        accept_all
        true
        (ok msg)
        (ok wire)
        toy_service in
    (client : PacketConn) × (wire : List ℕ) × (client' : PacketConn) × (server' : PacketConn)
    × (dial_packet_conn toy toy_exchange draws zeros
          (record { takes = accept_all; answer = λ msg. answer_of (flow msg wire).2 })
          1000
          1003
          place
          toy_client
        ≡ ok client)
    × IsFirstExchange toy env_1
        (9 ∷ 8 ∷ [])
        zero_address
        client
        user
        place
        (flow msg_2 wire).1
        client'
        server'
        wire
dial_packet_conn_session_example =
    dial_packet_conn_session toy toy-IsLawful toy_exchange toy-IsKeyExchange draws accept_all 1000
      1003 place toy_client msg_2 state_2 toy_service [] [] times_1 (4 ∷ []) (1 ∷ []) (3 ∷ [])
      secret accept_all true zeros (replicate 8 0) env_1 (9 ∷ 8 ∷ []) zero_address zeros-FillsBuffer
      zeros-FillsBuffer user-IsArray place-IsAddress written_2 toy_service-IsService refl tt
      (near 1000 1001 (omega arith) (omega arith)) not_seen_2 refl refl
      (near 1002 1003 (omega arith) (omega arith)) (λ m. refl) zeros-FillsBuffer refl
      zeros-FillsBuffer env_1-Works (omega arith) (omega arith)

handle_transport-IsAdmitted_example :
    (msg : List ℕ) × (ok msg_1 ≡ ok msg) × IsAdmitted toy times_1 toy_service msg served-ok.0
handle_transport-IsAdmitted_example =
    handle_transport-IsAdmitted toy toy_exchange times_1 (some (3 ∷ [])) (4 ∷ []) accept_all false
      (ok msg_1) (err eof) toy_service served.0 served-ok.0 served.2 toy_service-IsService
      (ap (λ r. (served.0, r, served.2)) served-ok.1)

-- Another admission, and the same hello a hundred seconds later.
abbrev other : List Call
other = record { now = 1010; uuid = user; nonce = replicate 12 1 } ∷ []

abbrev later_times : ServerTimes
later_times = record { checked = 1100; marked = 1101; stamped = 1101 }

abbrev with_hello : ReplayCache
with_hello = (mark_seen_or_reject 1001 user (replicate 12 0) fresh_cache).0

handle_transport_once_example :
    let t : Service = record served.0 { replay = some (run other with_hello) } in
    (served.0.replay ≡ some with_hello)
    × ((e : Error) × (handle_transport toy toy_exchange later_times none [] accept_all false
            (ok msg_1)
            (err eof)
            t
          ≡ (t, err e, [])))
handle_transport_once_example =
    handle_transport_once toy toy_exchange times_1 later_times (some (3 ∷ [])) none (4 ∷ []) []
      accept_all accept_all false false msg_1 (err eof) (err eof) toy_service served.0 served-ok.0
      (arrived hello_1) fresh_cache other 1 served.2 refl tt refl
      (Authentic-authenticate toy toy_service.lookup 1001 msg_1 (arrived hello_1)
        (msg_1-Authentic 1001 (omega arith) (omega arith)))
      (ap (λ r. (served.0, r, served.2)) served-ok.1) (omega arith) (omega arith, tt) (omega arith)

abbrev on_wire_bytes : List ℕ × Option Error
on_wire_bytes = send_messages (λ b. none) (msg_1 ∷ (9 ∷ []) ∷ []) []

on_wire_bytes-ok : on_wire_bytes.1 ≡ none
unfolding send_messages send_message write
on_wire_bytes-ok =
    let size =
      decode_client_hello-encode toy toy-IsLawful broken zeros zeros-FillsBuffer hello_1 msg_1
        hello_1-IsClientHello encoded_1 in
    ground (arith, size.1, size.2)

handle_conn-send_messages_example :
    handle_conn toy toy_exchange times_1
      (some (3 ∷ []))
      (4 ∷ [])
      accept_all
      on_wire_bytes.0
      toy_service
    ≡ handle_transport toy toy_exchange times_1
        (some (3 ∷ []))
        (4 ∷ [])
        accept_all
        true
        (ok msg_1)
        (ok (9 ∷ []))
        toy_service
handle_conn-send_messages_example =
    handle_conn-send_messages toy toy_exchange times_1 (some (3 ∷ [])) (4 ∷ []) accept_all
      (λ b. none) msg_1 (9 ∷ []) [] on_wire_bytes.0 toy_service
      (ap (λ (e : Option Error). (on_wire_bytes.0, e)) on_wire_bytes-ok)
