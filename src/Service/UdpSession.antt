-- ===== src/Service/UdpSession.antt =====
-- A client and a service on one transport, up to the first datagram.
use sing_ewp.Service.FirstDatagram.{first_exchange, IsFirstExchange}
use sing_ewp.Client.{dial_packet_conn, Client}
use sing_ewp.Service.Users.{IsService}
use sing_ewp.Handshake.Accept.{unsigned, signature}
use sing_ewp.Handshake.Agreement.{write_inv}
use sing_ewp.Kdf.{uuid_len, verify_outer_mac, handshake_timestamp_window}
use sing_ewp.Hello.ClientCodec.{encode_hello_inv}
use sing_ewp.Errors.{Result, ok}
use sing_ewp.SecureStream.Total.{Works}
use sing_ewp.SecureStream.{new_client_stream, SendEnv}
use sing_ewp.Service.{Dispatch, Service, handle_transport, Address}
use sing_ewp.PacketConn.{PacketConn, new_client_packet_conn}
use sing_ewp.Handshake.{
  ClientDraws, ClientHandshakeState, write_client_hello, ServerTimes, check_replay, abs_diff,
}
use sing_ewp.Handshake.Asymmetric.{IsKeyExchange, KeyExchange}
use sing_ewp.Service.Session.{dial_packet_conn_ok, session-Agreement, handle_accepted, answer_of}
use sing_ewp.Crypto.{Primitives, IsLawful}
use sing_ewp.Address.Wire.{sendable, IsAddress}
use sing_ewp.Hello.{command_udp}
use sing_ewp.Crypto.Random.{FillsBuffer, Reader}
use sing_ewp.Bytes.{IsArray}
use sing_ewp.Prelude.{
  ◌≤◌, ◌∙◌, ◌<◌, length, List, Bool, ap, ◌≡◌, true, sym, ◌∷◌, ℕ, ◌%◌, ◌++◌, ◌^◌, All, some, false,
  subst,
}

module _ (p : Primitives) (lawful : IsLawful p) (kx : KeyExchange) (laws : IsKeyExchange kx) where
  -- A hello that was written has an address that can be sent.
  written_sends :
      (draws : ClientDraws) (takes : List ℕ → Bool) (now cmd : ℕ) (dst : Address)
      (uuid hello : List ℕ) (st : ClientHandshakeState)
      → FillsBuffer draws.nonce
      → FillsBuffer draws.pad
      → IsArray uuid_len uuid
      → IsAddress dst
      → write_client_hello p kx draws takes now uuid cmd dst ≡ ok (hello, st)
      → sendable dst ≡ true
  written_sends draws takes now cmd dst uuid hello st fn fp hu ha h =
      let w = write_inv p kx laws draws takes now uuid cmd dst hello st fn hu ha h in
      let parts = encode_hello_inv p lawful draws.pad_len draws.pad fp w.hello hello w.encoded in
      ap sendable (sym w.request.2) ∙ parts.sends

  -- A client with a valid request for UDP and a service that has its UUID exchange a first datagram.
  -- Let the client's hello be written and delivered, no UUID before the client's in the list have its
  -- MAC, both clocks be within 120 seconds when each side checks, the replay cache hold no live entry
  -- for the hello, the server's key generation and ECDH succeed, the answer be delivered, an id be
  -- drawn, and the client's crypto/rand and transport work. Then DialPacketConn, on a transport that answers
  -- a message as this service does, returns a connection; a
  -- first write of 1 to 60000 bytes to any target sends one message and reports all bytes; with
  -- that message the handler gets a connection with the client's UUID and its destination as it is
  -- sent, whose first read returns as many of the bytes as fit and that destination as their source;
  -- and after it the session is open in both directions.
  pub dial_packet_conn_session :
      (draws : ClientDraws) (takes : List ℕ → Bool) (now later : ℕ) (dst : Address) (c : Client)
      (hello : List ℕ) (st : ClientHandshakeState) (s : Service) (before after : List (List ℕ))
      (times : ServerTimes) (coins a b k : List ℕ) (delivers : List ℕ → Bool) (underlying : Bool)
      (draw_id : Reader) (gid : List ℕ) (env : SendEnv) (payload : List ℕ) (target : Address)
      → FillsBuffer draws.nonce
      → FillsBuffer draws.pad
      → IsArray uuid_len c.uuid
      → IsAddress dst
      → write_client_hello p kx draws takes now c.uuid command_udp dst ≡ ok (hello, st)
      → IsService p s
      → s.users ≡ before ++ (c.uuid ∷ after)
      → All (λ v. verify_outer_mac p v (unsigned hello) (signature hello) ≡ false) before
      → abs_diff (now % 2 ^ 32) times.checked ≤ handshake_timestamp_window
      → (check_replay times.marked st.hello s.replay).1 ≡ true
      → st.x25519_priv ≡ some a
      → kx.ecdh b (kx.x25519_public a) ≡ some k
      → abs_diff (times.stamped % 2 ^ 32) later ≤ handshake_timestamp_window
      → ((m : List ℕ) → delivers m ≡ true)
      → FillsBuffer draw_id
      → draw_id 8 ≡ some gid
      → FillsBuffer env.fill
      → Works env
      → 0 < length payload
      → length payload ≤ 60000
      → let flow = λ (msg : List ℕ) (wire : List ℕ).
        handle_transport p kx times (some b) coins delivers underlying (ok msg) (ok wire) s in
        (client : PacketConn) × (wire : List ℕ) × (client' : PacketConn) × (server' : PacketConn)
        × (dial_packet_conn p kx draws draw_id
              (record { takes = takes; answer = λ msg. answer_of (flow msg wire).2 })
              now
              later
              dst
              c
            ≡ ok client)
        × IsFirstExchange p env payload target client c.uuid dst
            (flow hello wire).1
            client'
            server'
            wire
  dial_packet_conn_session draws takes now later dst c hello st s before after times coins a b k
        delivers underlying draw_id gid env payload target fn fp hu ha h is users others near fresh
        hk he near' sent fi hid fills works nonempty small =
      let g =
        session-Agreement p lawful kx laws draws takes now later command_udp dst c hello st s before
          after times coins a b k fn fp hu ha h is users others near fresh hk he near' in
      let sends = written_sends draws takes now command_udp dst c.uuid hello st fn fp hu ha h in
      let (wire, client', server', done) =
        first_exchange p lawful g.res.keys gid dst target env payload underlying g.ch fills works
          (fi 8 gid hid) ha sends nonempty small g.request.1 g.request.2 in
      let client = new_client_packet_conn (new_client_stream g.res.keys) true gid dst in
      let dispatched =
        (handle_transport p kx times (some b) coins delivers underlying (ok hello) (ok wire) s).1 in
      let Goal : List ℕ → Result Dispatch → Type 0 =
        λ user r. IsFirstExchange p env payload target client user dst r client' server' wire in
      let (handled, sends_out) =
        handle_accepted p kx times (some b) coins delivers underlying hello g.out g.res g.ch
          (ok wire) s g.answered (sent g.out) g.received in
      let answer = λ (msg : List ℕ).
        answer_of
          (handle_transport p kx times (some b) coins delivers underlying (ok msg) (ok wire) s).2 in
      (
        client,
        wire,
        client',
        server',
        dial_packet_conn_ok p kx draws draw_id (record { takes = takes; answer = answer }) now later
            dst c gid (new_client_stream g.res.keys)
            (g.dialed answer (unfold answer_of in ap answer_of sends_out)) hid,
        subst (λ user. Goal user dispatched) g.request.0
            (subst (Goal g.ch.uuid) (sym handled) done),
      )
