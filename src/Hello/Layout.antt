-- ===== src/Hello/Layout.antt =====
-- What Go's types say of the hello messages, and the sizes of what is written.
use sing_ewp.Bytes.{IsArray}
use sing_ewp.Crypto.{Primitives, IsLawful}
use sing_ewp.Address.Wire.{IsAddress}
use sing_ewp.Crypto.Toy.{tag}
use sing_ewp.Kdf.{
  outer_mac, mlkem768_cipher_len, verify_outer_mac, mlkem768_pub_len, x25519_pub_len, uuid_psk,
  handshake_nonce, uuid_len,
}
use sing_ewp.Hello.{ClientHello, ServerHello}
use sing_ewp.Prelude.{
  List, arith, length-take, ℕ, true, ◌^◌, ◌≡◌, bytes_eq_refl, length, ◌<◌, bytes_eq_iff,
}

pub record IsClientHello (ch : ClientHello) : Type 0 where
  pub nonce_size : IsArray handshake_nonce ch.nonce
  pub classical_size : IsArray x25519_pub_len ch.classical_pub
  pub pq_size : IsArray mlkem768_pub_len ch.pq_pub
  pub timestamp_fits : ch.timestamp < 2 ^ 32
  pub uuid_size : IsArray uuid_len ch.uuid
  pub command_fits : ch.command < 256
  pub address_typed : IsAddress ch.address

pub record IsServerHello (sh : ServerHello) : Type 0 where
  pub nonce_size : IsArray handshake_nonce sh.nonce_echo
  pub classical_size : IsArray x25519_pub_len sh.classical_pub
  pub pq_size : IsArray mlkem768_cipher_len sh.pq_cipher
  pub time_fits : sh.server_time < 2 ^ 32
  pub status_fits : sh.status < 256

module _ (p : Primitives) (lawful : IsLawful p) where
  pub length-outer_mac : (uuid msg : List ℕ) → length (outer_mac p uuid msg) ≡ 16
  unfolding outer_mac
  length-outer_mac uuid msg = omega (
    arith,
    length-take 16 (p.hmac (uuid_psk p uuid) msg),
    (lawful.hmac_size (uuid_psk p uuid) msg).0,
  )

pub verify-outer_mac :
    (p : Primitives) (uuid msg : List ℕ) → verify_outer_mac p uuid msg (outer_mac p uuid msg) ≡ true
unfolding verify_outer_mac
verify-outer_mac p uuid msg = bytes_eq_refl (outer_mac p uuid msg)

-- A tag that verifies is the MAC of the message.
pub verify_inv :
    (p : Primitives) (uuid msg tag : List ℕ)
    → verify_outer_mac p uuid msg tag ≡ true
    → outer_mac p uuid msg ≡ tag
unfolding verify_outer_mac
verify_inv p uuid msg tag h = (bytes_eq_iff (outer_mac p uuid msg) tag).0 h
