-- ===== src/Hello/Tests.antt =====
-- Runs of the hello codecs.
use sing_ewp.Kdf.{outer_mac}
use sing_ewp.Hello.ClientRoundTrip.{arrived}
use sing_ewp.Crypto.Toy.{toy-IsLawful, toy, checksum}
use sing_ewp.Hello.Toy.{
  hello_1-IsClientHello, answer_1, answer_1-IsServerHello, user, msg_1, hello_1, encoded_1,
}
use sing_ewp.Bytes.{small-IsBytes, IsBytes, put_uint32}
use sing_ewp.Hello.{decode_server_hello, encode_server_hello, decode_client_hello, server_body}
use sing_ewp.Crypto.Random.{zeros-FillsBuffer, broken, zeros}
use sing_ewp.Errors.{ok}
use sing_ewp.Hello.ServerRoundTrip.{decode_server_hello-encode}
use sing_ewp.Prelude.{ℕ, refl, List, length, ◌≤◌, ◌≡◌, take, replicate}
use sing_ewp.Hello.ClientCodec.{decode_client_hello-encode}

decode_client_hello-encode_example :
    (decode_client_hello toy msg_1 user ≡ ok (arrived hello_1))
    × (1350 ≤ length msg_1)
    × (length msg_1 ≤ 2566)
decode_client_hello-encode_example =
    decode_client_hello-encode toy toy-IsLawful broken zeros zeros-FillsBuffer hello_1 msg_1
      hello_1-IsClientHello encoded_1

abbrev answer_msg : List ℕ
answer_msg = encode_server_hello toy answer_1 user

answer_msg-IsBytes : IsBytes answer_msg
unfolding encode_server_hello server_body replicate checksum put_uint32 outer_mac take
answer_msg-IsBytes = small-IsBytes answer_msg refl

answer_read : decode_server_hello toy answer_msg user ≡ ok answer_1
answer_read = decode_server_hello-encode toy answer_1 user toy-IsLawful answer_1-IsServerHello
