-- ===== src/Hello.antt =====
-- handshake.go: the two hello messages and their wire codecs.
pub mod Layout
pub mod ClientRoundTrip
pub mod ServerRoundTrip
pub mod ClientCodec
pub mod Toy
mod Tests
use sing_ewp.Crypto.{Primitives}
use sing_ewp.Crypto.Random.{Reader}
use sing_ewp.Frame.PadLen.{suggest_pad_len}
use sing_ewp.Bytes.{byte_at, uint32, put_uint32, put_uint16, uint16}
use sing_ewp.Prelude.Int.{pos}
use sing_ewp.Address.{append, zero_address, decode_address, Address}
use sing_ewp.Errors.{
  handshake_long, reject, rand, handshake_short, plaintext_layout, ok, Result, Error,
  aead_handshake, err, ◌>>=◌, ◌>>◌, outer_mac_error,
}
use sing_ewp.Kdf.{
  mlkem768_cipher_len, min_handshake_pad, uuid_len, verify_outer_mac, handshake_aead_key,
  outer_mac_len, mlkem768_pub_len, handshake_nonce, x25519_pub_len, max_handshake_pad, outer_mac,
}
use sing_ewp.Prelude.{
  ℕ, Option, ◌∷◌, drop, take, ◌==◌, ◌++◌, List, not, ◌-◌, length, leb, ◌+◌, if◌then◌else◌, [], none,
  replicate, ltb, some,
}

abbrev pub command_tcp : ℕ
command_tcp = 0x01

abbrev pub command_udp : ℕ
command_udp = 0x02

pub record ClientHello : Type 0 where
  pub nonce : List ℕ
  pub classical_pub : List ℕ
  pub pq_pub : List ℕ
  pub timestamp : ℕ
  pub uuid : List ℕ
  pub command : ℕ
  pub address : Address

pub record ServerHello : Type 0 where
  pub nonce_echo : List ℕ
  pub classical_pub : List ℕ
  pub pq_cipher : List ℕ
  pub server_time : ℕ
  pub status : ℕ

-- chacha20poly1305Overhead
abbrev pub overhead : ℕ
overhead = 16

-- HandshakeNonce + X25519PubLen + MLKEM768PubLen + 2
abbrev pub fixed_header : ℕ
fixed_header = handshake_nonce + x25519_pub_len + mlkem768_pub_len + 2

-- The plaintext of a ClientHello, around the address and the padding.
unfoldable pub inner : ClientHello → List ℕ → List ℕ → List ℕ
inner ch addr pad =
    put_uint32 ch.timestamp
    ++ (ch.uuid ++ (ch.command ∷ (addr ++ (put_uint16 (length pad) ++ pad))))

-- Everything before the ciphertext, which is the additional data.
unfoldable pub client_aad : ClientHello → ℕ → List ℕ
client_aad ch ct_len = ch.nonce ++ (ch.classical_pub ++ (ch.pq_pub ++ put_uint16 ct_len))

-- Everything of a ServerHello before its MAC.
unfoldable pub server_body : ServerHello → List ℕ
server_body sh =
    sh.nonce_echo
    ++ (sh.classical_pub ++ (sh.pq_cipher ++ (put_uint32 sh.server_time ++ sh.status ∷ [])))

-- `if o == nil { return nil, e }`, for a call outside the package
abbrev pub or_fail : {A : Type 0} → Option A → Error → Result A
or_fail none e = err e
or_fail (some a) e = ok a

-- The error of a call, replaced by another one.
abbrev pub wrap : {A : Type 0} → Result A → Error → Result A
wrap (ok a) e = ok a
wrap (err _) e = err e

module _ (p : Primitives) where
  -- The message for a plaintext.
  unfoldable pub seal_client_hello : ClientHello → List ℕ → Result (List ℕ)
  seal_client_hello ch plain =
      let key = handshake_aead_key p ch.uuid ch.nonce in
      let ct_len = length plain + overhead in
      let aad = client_aad ch ct_len in
      let out = aad ++ p.seal key ch.nonce plain aad in
      if ltb 65535 ct_len then err handshake_long else ok (out ++ outer_mac p ch.uuid out)

  -- EncodeClientHello. The first reader draws the length of the padding, the second its bytes.
  unfoldable pub encode_client_hello : Reader → Reader → ClientHello → Result (List ℕ)
  encode_client_hello draw_len draw_pad ch = do
    addr ← append ch.address []
    let pad_len = suggest_pad_len draw_len (pos min_handshake_pad) (pos max_handshake_pad)
    pad ← or_fail (draw_pad pad_len) rand
    seal_client_hello ch (inner ch addr pad)

  unfoldable pub encode_server_hello : ServerHello → List ℕ → List ℕ
  encode_server_hello sh uuid = server_body sh ++ outer_mac p uuid (server_body sh)

-- The decrypted part of a ClientHello; the first argument holds the public fields.
unfoldable pub parse_inner : ClientHello → List ℕ → Result ClientHello
parse_inner ch plain = do
  reject (ltb (length plain) (4 + uuid_len + 1 + 1 + 2)) plaintext_layout
  (addr, n) ← wrap (decode_address (drop 21 plain)) plaintext_layout
  let at = 21 + n
  reject (ltb (length plain) (at + 2)) plaintext_layout
  let pad_len = uint16 (take 2 (drop at plain))
  reject (not (length plain == at + 2 + pad_len)) plaintext_layout
  ok (record ch {
    timestamp = uint32 (take 4 plain);
    uuid = take uuid_len (drop 4 plain);
    command = byte_at 20 plain;
    address = addr;
  })

-- The public fields of a ClientHello; the others have Go's zero values.
unfoldable pub parse_public : List ℕ → ClientHello
parse_public msg = record {
  nonce = take handshake_nonce msg;
  classical_pub = take x25519_pub_len (drop 12 msg);
  pq_pub = take mlkem768_pub_len (drop 44 msg);
  timestamp = 0;
  uuid = replicate uuid_len 0;
  command = 0;
  address = zero_address;
}

-- HandshakeNonce + X25519PubLen + MLKEM768CipherL + 4 + 1 + OuterMACLen
abbrev pub server_wire_len : ℕ
server_wire_len = handshake_nonce + x25519_pub_len + mlkem768_cipher_len + 4 + 1 + outer_mac_len

-- Where the MAC of a ServerHello begins.
abbrev pub server_mac_off : ℕ
server_mac_off = server_wire_len - outer_mac_len

module _ (p : Primitives) where
  unfoldable pub decode_client_hello : List ℕ → List ℕ → Result ClientHello
  decode_client_hello msg uuid = do
    reject (ltb (length msg) (fixed_header + overhead + outer_mac_len)) handshake_short
    let public = parse_public msg
    let ct_len = uint16 (take 2 (drop 1228 msg))
    reject (leb ct_len overhead) handshake_short
    reject (not (fixed_header + ct_len + outer_mac_len == length msg)) handshake_short
    let cipher = take ct_len (drop fixed_header msg)
    let aad = take fixed_header msg
    let key = handshake_aead_key p uuid public.nonce
    plain ← or_fail (p.unseal key public.nonce cipher aad) aead_handshake
    parse_inner public plain

  unfoldable pub decode_server_hello : List ℕ → List ℕ → Result ServerHello
  decode_server_hello msg uuid = do
    reject (not (length msg == server_wire_len)) handshake_short
    let body = take server_mac_off msg
    reject (not (verify_outer_mac p uuid body (drop server_mac_off msg))) outer_mac_error
    ok (record {
      nonce_echo = take handshake_nonce msg;
      classical_pub = take x25519_pub_len (drop 12 msg);
      pq_cipher = take mlkem768_cipher_len (drop 44 msg);
      server_time = uint32 (take 4 (drop 1132 msg));
      status = byte_at 1136 msg;
    })
