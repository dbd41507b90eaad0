-- ===== src/Service/Session.antt =====
-- A client and a service on one transport, from the dial to the connections of both sides.
use sing_ewp.Address.{Address}
use sing_ewp.Bytes.{IsArray}
use sing_ewp.PacketConn.{new_client_packet_conn, new_server_packet_conn}
use sing_ewp.Service.Users.{IsService}
use sing_ewp.Address.Wire.{IsAddress, on_wire}
use sing_ewp.Crypto.Random.{Reader, FillsBuffer}
use sing_ewp.Handshake.Asymmetric.{KeyExchange, IsKeyExchange}
use sing_ewp.SecureStream.Delivery.{new_streams-Linked, Linked}
use sing_ewp.SecureStream.{new_server_stream, SecureStream, recv_event, Event, new_client_stream}
use sing_ewp.Handshake.EndToEnd.{handshake_agreement}
use sing_ewp.Frame.{udp_new}
use sing_ewp.StreamConn.{StreamConn}
use sing_ewp.Kdf.{handshake_timestamp_window, SessionKeys, uuid_len, verify_outer_mac}
use sing_ewp.Crypto.{IsLawful, Primitives}
use sing_ewp.Service.{
  Handled, Dispatch, dispatch, new_packet_connection, dispatch_udp, Service, new_connection,
  handle_transport, offer,
}
use sing_ewp.Handshake.Accept.{unsigned, signature}
use sing_ewp.Errors.{ok, err, eof, Result}
use sing_ewp.Hello.{ClientHello, command_tcp, command_udp}
use sing_ewp.Client.{Client, client_handshake, dial_conn, dial_packet_conn, Peer}
use sing_ewp.Prelude.{
  Bool, List, ◌≤◌, some, true, All, ◌++◌, ◌^◌, ℕ, [], ap, ◌∙◌, Option, ◌≡◌, ◌∷◌, ◌%◌, refl, false,
  arith,
}
use sing_ewp.Handshake.{
  ClientHandshakeState, ClientDraws, write_client_hello, abs_diff, HandshakeResult, check_replay,
  read_server_hello, make_uuid_lookup, accept_client_hello, ServerTimes,
}

module _ (p : Primitives) (kx : KeyExchange) where
  -- The service after an accepted hello whose answer the transport takes.
  pub handle_accepted :
      (times : ServerTimes) (key : Option (List ℕ)) (coins : List ℕ) (delivers : List ℕ → Bool)
      (underlying : Bool) (msg out : List ℕ) (res : HandshakeResult) (ch : ClientHello)
      (first : Result (List ℕ)) (s : Service)
      → (accept_client_hello p kx s.lookup times key coins msg s.replay).1 ≡ ok (out, res)
      → delivers out ≡ true
      → res.client_hello ≡ some ch
      → ((handle_transport p kx times key coins delivers underlying (ok msg) first s).1
          ≡ dispatch p underlying ch res.keys first)
        × ((handle_transport p kx times key coins delivers underlying (ok msg) first s).2
            ≡ out ∷ [])
  unfolding handle_transport offer
  handle_accepted times key coins delivers underlying msg out res ch first s a d h =
      (ground (arith, a, d, h), ground (arith, a, d, h))

  client_ok :
      (draws : ClientDraws) (tr : Peer) (now later cmd : ℕ) (dst : Address) (c : Client)
      (hello out : List ℕ) (st : ClientHandshakeState) (res : HandshakeResult)
      → write_client_hello p kx draws tr.takes now c.uuid cmd dst ≡ ok (hello, st)
      → tr.answer hello ≡ ok out
      → (read_server_hello p kx st later out).1 ≡ ok res
      → client_handshake p kx draws tr now later cmd dst c ≡ ok (new_client_stream res.keys)
  unfolding client_handshake
  client_ok draws tr now later cmd dst c hello out st res h a r = rw (h, a, r) refl

  dial_conn_ok :
      (draws : ClientDraws) (tr : Peer) (now later : ℕ) (dst : Address) (c : Client)
      (stream : SecureStream)
      → client_handshake p kx draws tr now later command_tcp dst c ≡ ok stream
      → dial_conn p kx draws tr now later dst c ≡ ok (record { stream = stream; read_buf = [] })
  unfolding dial_conn
  dial_conn_ok draws tr now later dst c stream h = rw h refl

  pub dial_packet_conn_ok :
      (draws : ClientDraws) (draw_id : Reader) (tr : Peer) (now later : ℕ) (dst : Address)
      (c : Client) (gid : List ℕ) (stream : SecureStream)
      → client_handshake p kx draws tr now later command_udp dst c ≡ ok stream
      → draw_id 8 ≡ some gid
      → dial_packet_conn p kx draws draw_id tr now later dst c
        ≡ ok (new_client_packet_conn stream true gid dst)
  unfolding dial_packet_conn
  dial_packet_conn_ok draws draw_id tr now later dst c gid stream h g = rw (h, g) refl

module _ (p : Primitives) where
  dispatch_tcp :
      (underlying : Bool) (ch : ClientHello) (keys : SessionKeys) (first : Result (List ℕ))
      → ch.command ≡ command_tcp
      → dispatch p underlying ch keys first
        ≡ ok (
            new_connection
              (record { stream = new_server_stream keys; read_buf = [] })
              (record { user_uuid = ch.uuid; destination = ch.address }))
  unfolding dispatch
  dispatch_tcp underlying ch keys first h = rw h refl

  pub dispatch_first :
      (underlying : Bool) (ch : ClientHello) (keys : SessionKeys) (first : Result (List ℕ))
      (s' : SecureStream) (ev : Event)
      → ch.command ≡ command_udp
      → recv_event p first (new_server_stream keys) ≡ (s', ok ev)
      → ev.type ≡ udp_new
      → ev.has_addr ≡ true
      → dispatch p underlying ch keys first
        ≡ ok (
            new_packet_connection
              (new_server_packet_conn s' underlying ev.global_id ev.address ev.payload)
              (record { user_uuid = ch.uuid; destination = ch.address }))
  unfolding dispatch dispatch_udp
  dispatch_first underlying ch keys first s' ev h r t a = rw (h, r, t, a) refl

-- What a client reads from a transport that took these messages.
unfoldable pub answer_of : List (List ℕ) → Result (List ℕ)
answer_of [] = err eof
answer_of (m ∷ ms) = ok m

pub triple :
    (r : Handled) {x : Result Dispatch} {sent : List (List ℕ)}
    → r.1 ≡ x
    → r.2 ≡ sent
    → r ≡ (r.0, x, sent)
triple r {x} {sent} h k = rw (← h, ← k) refl

-- A handshake that both sides finish: the service's answer, and the keys and the hello on both sides.
pub record Agreement (p : Primitives) (kx : KeyExchange) (draws : ClientDraws)
    (takes : List ℕ → Bool) (now later cmd : ℕ) (dst : Address) (c : Client) (hello : List ℕ)
    (times : ServerTimes) (key : Option (List ℕ)) (coins : List ℕ) (s : Service) : Type 0 where
  pub out : List ℕ
  pub res : HandshakeResult
  pub ch : ClientHello
  pub answered :
      (accept_client_hello p kx s.lookup times key coins hello s.replay).1 ≡ ok (out, res)
  pub received : res.client_hello ≡ some ch
  pub dialed :
      (answer : List ℕ → Result (List ℕ))
      → answer hello ≡ ok out
      → client_handshake p kx draws (record { takes = takes; answer = answer }) now later cmd dst c
        ≡ ok (new_client_stream res.keys)
  pub request : (ch.uuid ≡ c.uuid) × (ch.command ≡ cmd) × (ch.address ≡ on_wire dst)

module _ (p : Primitives) (lawful : IsLawful p) (kx : KeyExchange) (laws : IsKeyExchange kx) where
  pub session-Agreement :
      (draws : ClientDraws) (takes : List ℕ → Bool) (now later cmd : ℕ) (dst : Address) (c : Client)
      (hello : List ℕ) (st : ClientHandshakeState) (s : Service) (before after : List (List ℕ))
      (times : ServerTimes) (coins a b k : List ℕ)
      → FillsBuffer draws.nonce
      → FillsBuffer draws.pad
      → IsArray uuid_len c.uuid
      → IsAddress dst
      → write_client_hello p kx draws takes now c.uuid cmd dst ≡ ok (hello, st)
      → IsService p s
      → s.users ≡ before ++ (c.uuid ∷ after)
      → All (λ v. verify_outer_mac p v (unsigned hello) (signature hello) ≡ false) before
      → abs_diff (now % 2 ^ 32) times.checked ≤ handshake_timestamp_window
      → (check_replay times.marked st.hello s.replay).1 ≡ true
      → st.x25519_priv ≡ some a
      → kx.ecdh b (kx.x25519_public a) ≡ some k
      → abs_diff (times.stamped % 2 ^ 32) later ≤ handshake_timestamp_window
      → Agreement p kx draws takes now later cmd dst c hello times (some b) coins s
  session-Agreement draws takes now later cmd dst c hello st s before after times coins a b k fn fp
        hu ha h is users others near fresh hk he near' =
      let (out, server, client, answer, accepted, agreed) =
        handshake_agreement p lawful kx laws draws takes now c.uuid cmd dst hello st before after
          times coins a b k s.replay later fn fp hu ha h others near fresh hk he near' in
      let current : s.lookup ≡ make_uuid_lookup p (before ++ (c.uuid ∷ after)) =
        is.current ∙ ap (make_uuid_lookup p) users in
      record {
        out = out;
        res = server;
        ch = agreed.hello;
        answered = rw current answer;
        received = agreed.received;
        dialed = λ answer same. rw (← agreed.same_keys) (
            client_ok p kx draws (record { takes = takes; answer = answer }) now later cmd dst c
              hello out st client h same accepted);
        request = (agreed.user, agreed.command, agreed.destination);
      }

  -- A client with a valid request for TCP and a service that has its UUID end with a connection each.
  -- Let the client's hello be written and delivered, no UUID before the client's in the list have its
  -- MAC, both clocks be within 120 seconds when each side checks, the replay cache hold no live entry
  -- for the hello, the server's key generation and ECDH succeed, and the answer be delivered. Then the
  -- service sends one message and its handler gets a connection with the client's UUID and its
  -- destination as it is sent; DialConn on a transport that answers a message as this service does
  -- returns a connection; and the two streams are linked in both directions.
  pub dial_conn_session :
      (draws : ClientDraws) (takes : List ℕ → Bool) (now later : ℕ) (dst : Address) (c : Client)
      (hello : List ℕ) (st : ClientHandshakeState) (s : Service) (before after : List (List ℕ))
      (times : ServerTimes) (coins a b k : List ℕ) (delivers : List ℕ → Bool) (underlying : Bool)
      (first : Result (List ℕ))
      → FillsBuffer draws.nonce
      → FillsBuffer draws.pad
      → IsArray uuid_len c.uuid
      → IsAddress dst
      → write_client_hello p kx draws takes now c.uuid command_tcp dst ≡ ok (hello, st)
      → IsService p s
      → s.users ≡ before ++ (c.uuid ∷ after)
      → All (λ v. verify_outer_mac p v (unsigned hello) (signature hello) ≡ false) before
      → abs_diff (now % 2 ^ 32) times.checked ≤ handshake_timestamp_window
      → (check_replay times.marked st.hello s.replay).1 ≡ true
      → st.x25519_priv ≡ some a
      → kx.ecdh b (kx.x25519_public a) ≡ some k
      → abs_diff (times.stamped % 2 ^ 32) later ≤ handshake_timestamp_window
      → ((m : List ℕ) → delivers m ≡ true)
      → let flow = λ (msg : List ℕ).
        handle_transport p kx times (some b) coins delivers underlying (ok msg) first s in
        (out : List ℕ) × (server : StreamConn) × (client : StreamConn) × (flow hello ≡ (
          (flow hello).0,
          ok (new_connection server (record { user_uuid = c.uuid; destination = on_wire dst })),
          out ∷ [],
        ))
        × (dial_conn p kx draws
              (record { takes = takes; answer = λ msg. answer_of (flow msg).2 })
              now
              later
              dst
              c
            ≡ ok client)
        × Linked client.stream server.stream
        × Linked server.stream client.stream
  dial_conn_session draws takes now later dst c hello st s before after times coins a b k delivers
        underlying first fn fp hu ha h is users others near fresh hk he near' sent =
      let g =
        session-Agreement draws takes now later command_tcp dst c hello st s before after times
          coins a b k fn fp hu ha h is users others near fresh hk he near' in
      let links = new_streams-Linked g.res.keys in
      let flow = λ (msg : List ℕ).
        handle_transport p kx times (some b) coins delivers underlying (ok msg) first s in
      let (result, one) =
        handle_accepted p kx times (some b) coins delivers underlying hello g.out g.res g.ch first s
          g.answered (sent g.out) g.received in
      let handled =
        result
        ∙ (dispatch_tcp p underlying g.ch g.res.keys first g.request.1
            ∙ rw (g.request.0, g.request.2) refl) in
      let answer = λ (msg : List ℕ). answer_of (flow msg).2 in
      (
        g.out,
        record { stream = new_server_stream g.res.keys; read_buf = [] },
        record { stream = new_client_stream g.res.keys; read_buf = [] },
        triple (flow hello) handled one,
        dial_conn_ok p kx draws (record { takes = takes; answer = answer }) now later dst c
            (new_client_stream g.res.keys) (g.dialed answer (unfold answer_of in ap answer_of one)),
        links.0,
        links.1,
      )
