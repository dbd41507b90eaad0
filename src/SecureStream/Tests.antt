-- ===== src/SecureStream/Tests.antt =====
-- Runs of a session with the concrete primitives.
use sing_ewp.Crypto.Random.{zeros, zeros-NeverFails}
use sing_ewp.Bytes.{
  IsArray, IsByte, byte_at, uint32, put_uint32, uint16, put_uint64, put_uint16, uint64,
}
use sing_ewp.Kdf.{SessionKeys}
use sing_ewp.SecureStream.Lifecycle.{IsFinal, recv_error-IsFinal}
use sing_ewp.SecureStream.UdpMeta.{build_udp_meta}
use sing_ewp.SecureStream.Total.{send_frame_total, Works, send_tcp_data_total}
use sing_ewp.Prelude.Int.{negsuc}
use sing_ewp.Crypto.Toy.{toy, checksum, tag}
use sing_ewp.SecureStream.{
  Event, new_server_stream, recv_event, Sent, send_with_meta, send_tcp_data, SecureStream,
  bare_event, new_client_stream, send_frame, close, deliver, SendEnv, event_of,
}
use sing_ewp.Address.{append, Address, zero_address}
use sing_ewp.Prelude.{
  length, ℕ, refl, Option, arith, none, ap, replicate, List, ◌++◌, All-replicate, true, ◌∷◌, [],
  ◌≡◌, length-replicate, take, bytes_eq, drop, false,
}
use sing_ewp.Errors.{Result, Error, err, unexpected_eof, ok}
use sing_ewp.Frame.{
  sealed, read_full, ping, udp_data, valid, decode_frame, parse_header, open_frame, put_header,
  discard, decode_body, check_header,
}
use sing_ewp.Address.Wire.{IsAddress}
use sing_ewp.SecureStream.Delivery.{frame_of}

abbrev keys : SessionKeys
keys = record {
  c2s_key = 1 ∷ [];
  s2c_key = 2 ∷ [];
  c2s_nonce = 1 ∷ 2 ∷ 3 ∷ 4 ∷ [];
  s2c_nonce = 5 ∷ 6 ∷ 7 ∷ 8 ∷ [];
}

abbrev client : SecureStream
client = new_client_stream keys

abbrev server : SecureStream
server = new_server_stream keys

abbrev env_1 : SendEnv
env_1 = record { cut = zeros; pick = zeros; fill = zeros; now = 5; delivers = λ _. true }

env_1-Works : Works env_1
env_1-Works = record { fills = zeros-NeverFails; delivers = λ m. refl }

abbrev download : List ℕ
download = replicate 20000 7

send_tcp_data_total_example :
    ((send_tcp_data toy (λ _. env_1) download client).2 ≡ none)
    × ((send_tcp_data toy (λ _. env_1) download client).0.closed ≡ false)
send_tcp_data_total_example =
    send_tcp_data_total toy (λ _. env_1) download client (λ _. env_1-Works) refl

abbrev sent_tcp : Sent
sent_tcp = send_tcp_data toy (λ _. env_1) download client

sent_tcp-ok : sent_tcp ≡ (sent_tcp.0, sent_tcp.1, none)
sent_tcp-ok =
    ap (λ (e : Option Error). (sent_tcp.0, sent_tcp.1, e))
      (send_tcp_data_total toy (λ _. env_1) download client (λ _. env_1-Works) refl).0

abbrev sent_ping : Sent
sent_ping = send_frame toy env_1 ping [] (9 ∷ []) (negsuc 0) client

sent_ping-ok : sent_ping ≡ (sent_ping.0, sent_ping.1, none)
sent_ping-ok =
    ap (λ (e : Option Error). (sent_ping.0, sent_ping.1, e))
      (send_frame_total toy env_1 ping [] (9 ∷ []) client env_1-Works refl (unfold valid in refl)
        (omega arith) (omega arith)).0

abbrev session : List ℕ
session = replicate 8 3

session-IsArray : IsArray 8 session
session-IsArray = (length-replicate 8 3, All-replicate IsByte 8 3 (omega arith))

abbrev place : Address
place = record zero_address { domain = 103 ∷ 111 ∷ []; port = 443 }

place-typed : IsAddress place
place-typed = record {
  ip = tt;
  ip_port = omega arith;
  name = (omega arith, (omega arith, tt));
  name_port = omega arith;
}

abbrev meta_1 : List ℕ
meta_1 = session ++ (3 ∷ 2 ∷ 103 ∷ 111 ∷ 1 ∷ 187 ∷ [])

meta_1-built : build_udp_meta session place ≡ ok meta_1
unfolding build_udp_meta append replicate
meta_1-built = refl

abbrev sent_udp : Sent
sent_udp = send_frame toy env_1 udp_data meta_1 (9 ∷ []) (negsuc 0) client

length-meta_1 : length meta_1 ≡ 14
unfolding replicate
length-meta_1 = refl

sent_udp-ok :
    send_with_meta toy env_1 udp_data (build_udp_meta session place) (9 ∷ []) client
    ≡ (sent_udp.0, sent_udp.1, none)
sent_udp-ok = rw meta_1-built (
    ap (λ (e : Option Error). (sent_udp.0, sent_udp.1, e))
      (send_frame_total toy env_1 udp_data meta_1 (9 ∷ []) client env_1-Works refl
        (unfold valid in refl) (omega (arith, length-meta_1)) (omega (arith, length-meta_1))).0)

garbage : recv_event toy (ok (1 ∷ 2 ∷ [])) server ≡ (close server, err unexpected_eof)
unfolding recv_event decode_frame read_full
garbage = refl

recv_error-IsFinal_example : IsFinal toy (close server)
recv_error-IsFinal_example =
    recv_error-IsFinal toy (ok (1 ∷ 2 ∷ [])) server (close server) unexpected_eof garbage

-- A ping of one byte without padding, from the client.
abbrev ping_wire : List ℕ
ping_wire = sealed toy client.send ping [] (9 ∷ []) 0

abbrev got_ping : SecureStream × Result Event
got_ping = recv_event toy (ok ping_wire) server

abbrev ping_event : Event
ping_event = bare_event (frame_of client ping [] (9 ∷ []))

ping-received : got_ping ≡ (got_ping.0, ok ping_event)
unfolding recv_event decode_frame read_full sealed put_header put_uint32 put_uint64 put_uint16 tag
    replicate check_header parse_header uint32 take uint16 drop decode_body byte_at uint64 checksum
    discard open_frame valid deliver event_of bytes_eq
ping-received = refl
