-- ===== src/Hello/Toy.antt =====
-- A concrete ClientHello and ServerHello, encoded with the concrete primitives.
use sing_ewp.Hello.Layout.{IsServerHello, IsClientHello}
use sing_ewp.Address.Wire.{IsAddress}
use sing_ewp.Kdf.{uuid_len}
use sing_ewp.Errors.{ok, err}
use sing_ewp.Crypto.Random.{zeros, broken}
use sing_ewp.Crypto.Toy.{toy, block, block-IsArray}
use sing_ewp.Hello.{
  encode_client_hello, seal_client_hello, command_tcp, command_udp, ClientHello, inner, ServerHello,
}
use sing_ewp.Frame.PadLen.{suggest_between, suggest_pad_len, draw_below}
use sing_ewp.Address.{zero_address, append, Address}
use sing_ewp.Bytes.{put_uint32, put_uint16, IsByte, IsArray}
use sing_ewp.Prelude.{
  ◌∷◌, Bool, ◌≡◌, List, ℕ, true, refl, replicate, [], All-replicate, length-replicate, arith,
}

abbrev pub user : List ℕ
user = replicate 16 7

abbrev pub place : Address
place = record zero_address { domain = 103 ∷ 111 ∷ []; port = 443 }

abbrev pub accept_all : List ℕ → Bool
accept_all _ = true

abbrev pub hello_1 : ClientHello
hello_1 = record {
  nonce = replicate 12 0;
  classical_pub = block 32 (1 ∷ []);
  pq_pub = block 1184 (2 ∷ []);
  timestamp = 1000;
  uuid = user;
  command = command_tcp;
  address = place;
}

abbrev pub plain_1 : List ℕ
plain_1 = inner hello_1 (3 ∷ 2 ∷ 103 ∷ 111 ∷ 1 ∷ 187 ∷ []) (replicate 64 0)

abbrev pub msg_1 : List ℕ
msg_1 = elim (seal_client_hello toy hello_1 plain_1) [ ok m ↦ m | err _ ↦ [] ]

pub sealed_1 : seal_client_hello toy hello_1 plain_1 ≡ ok msg_1
unfolding seal_client_hello inner put_uint32 put_uint16 replicate
sealed_1 = refl

pub encoded_1 : encode_client_hello toy broken zeros hello_1 ≡ ok msg_1
unfolding encode_client_hello append suggest_pad_len suggest_between draw_below
encoded_1 = sealed_1

-- The same request for UDP.
abbrev pub hello_2 : ClientHello
hello_2 = record hello_1 { command = command_udp }

abbrev pub msg_2 : List ℕ
msg_2 =
    elim (seal_client_hello toy hello_2
      (inner hello_2 (3 ∷ 2 ∷ 103 ∷ 111 ∷ 1 ∷ 187 ∷ []) (replicate 64 0))) [ ok m ↦ m | err _ ↦ [] ]

pub encoded_2 : encode_client_hello toy broken zeros hello_2 ≡ ok msg_2
unfolding encode_client_hello append suggest_pad_len suggest_between draw_below seal_client_hello
    inner put_uint32 put_uint16 replicate
encoded_2 = refl

pub user-IsArray : IsArray uuid_len user
user-IsArray = (length-replicate 16 7, All-replicate IsByte 16 7 (omega arith))

pub place-IsAddress : IsAddress place
place-IsAddress = record {
  ip = tt;
  ip_port = omega arith;
  name = (omega arith, (omega arith, tt));
  name_port = omega arith;
}

zeros_12 : IsArray 12 (replicate 12 0)
zeros_12 = (length-replicate 12 0, All-replicate IsByte 12 0 (omega arith))

pub hello_1-IsClientHello : IsClientHello hello_1
hello_1-IsClientHello = record {
  nonce_size = zeros_12;
  classical_size = block-IsArray 32 (1 ∷ []);
  pq_size = block-IsArray 1184 (2 ∷ []);
  timestamp_fits = omega arith;
  uuid_size = user-IsArray;
  command_fits = omega arith;
  address_typed = place-IsAddress;
}

abbrev pub answer_1 : ServerHello
answer_1 = record {
  nonce_echo = replicate 12 0;
  classical_pub = block 32 (3 ∷ []);
  pq_cipher = block 1088 (4 ∷ []);
  server_time = 1001;
  status = 0;
}

pub answer_1-IsServerHello : IsServerHello answer_1
answer_1-IsServerHello = record {
  nonce_size = zeros_12;
  classical_size = block-IsArray 32 (3 ∷ []);
  pq_size = block-IsArray 1088 (4 ∷ []);
  time_fits = omega arith;
  status_fits = omega arith;
}
