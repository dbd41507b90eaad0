-- ===== src/Client.antt =====
-- Client of client.go: the handshake on a transport, and the two connections on it.
use sing_ewp.PacketConn.{new_client_packet_conn, PacketConn}
use sing_ewp.Crypto.{Primitives}
use sing_ewp.Uuid.{parse_uuid}
use sing_ewp.Address.{Address}
use sing_ewp.Handshake.{ClientDraws, read_server_hello, write_client_hello}
use sing_ewp.Handshake.Asymmetric.{KeyExchange}
use sing_ewp.Crypto.Random.{Reader}
use sing_ewp.Hello.{command_udp, or_fail, command_tcp}
use sing_ewp.SecureStream.{SecureStream, new_client_stream}
use sing_ewp.StreamConn.{StreamConn}
use sing_ewp.Prelude.{true, ℕ, List, [], Bool}
use sing_ewp.Errors.{rand, ◌>>=◌, Result, ok}

pub record Client : Type 0 where
  pub uuid : List ℕ

-- NewClient
unfoldable pub new_client : List ℕ → Result Client
new_client uuid_str = parse_uuid uuid_str >>= λ u. ok (record { uuid = u })

-- The transport of one handshake: whether it takes the hello, and what ReadMessage gives after it. The
-- deadlines of the context only make these calls fail.
pub record Peer : Type 0 where
  pub takes : List ℕ → Bool
  pub answer : List ℕ → Result (List ℕ)

module _ (p : Primitives) (kx : KeyExchange) where
  -- Client.handshake. `now` is the time of the hello, `later` that of the answer. Every error closes the
  -- transport.
  unfoldable pub client_handshake :
      ClientDraws → Peer → ℕ → ℕ → ℕ → Address → Client → Result SecureStream
  client_handshake draws tr now later cmd dst c = do
    (hello, st) ← write_client_hello p kx draws tr.takes now c.uuid cmd dst
    reply ← tr.answer hello
    res ← (read_server_hello p kx st later reply).1
    ok (new_client_stream res.keys)

  unfoldable pub dial_conn : ClientDraws → Peer → ℕ → ℕ → Address → Client → Result StreamConn
  dial_conn draws tr now later dst c = do
    stream ← client_handshake draws tr now later command_tcp dst c
    ok (record { stream = stream; read_buf = [] })

  -- DialPacketConn. `draw_id` is the read of NewGlobalID, which panics where it fails.
  unfoldable pub dial_packet_conn :
      ClientDraws → Reader → Peer → ℕ → ℕ → Address → Client → Result PacketConn
  dial_packet_conn draws draw_id tr now later dst c = do
    stream ← client_handshake draws tr now later command_udp dst c
    gid ← or_fail (draw_id 8) rand
    ok (new_client_packet_conn stream true gid dst)
