-- ===== src/Kdf.antt =====
-- kdf.go: the constants of the protocol and the keys.
use sing_ewp.Prelude.{ℕ, Bool, List, ◌++◌, take, bytes_eq}
use sing_ewp.Prelude.Text.{codes}
use sing_ewp.Crypto.{Primitives}

abbrev pub aead_key_len : ℕ
aead_key_len = 32

abbrev pub aead_nonce_len : ℕ
aead_nonce_len = 12

abbrev pub nonce_prefix_len : ℕ
nonce_prefix_len = 4

abbrev pub handshake_nonce : ℕ
handshake_nonce = 12

abbrev pub x25519_pub_len : ℕ
x25519_pub_len = 32

abbrev pub mlkem768_pub_len : ℕ
mlkem768_pub_len = 1184

abbrev pub mlkem768_cipher_len : ℕ
mlkem768_cipher_len = 1088

abbrev pub outer_mac_len : ℕ
outer_mac_len = 16

abbrev pub min_handshake_pad : ℕ
min_handshake_pad = 64

abbrev pub max_handshake_pad : ℕ
max_handshake_pad = 1024

abbrev pub max_frame_pad : ℕ
max_frame_pad = 4096

abbrev pub max_frame_size : ℕ
max_frame_size = 65536

abbrev pub max_meta_len : ℕ
max_meta_len = 1024

abbrev pub uuid_len : ℕ
uuid_len = 16

-- seconds
abbrev pub handshake_timestamp_window : ℕ
handshake_timestamp_window = 120

abbrev pub info_handshake_aead : List ℕ
info_handshake_aead = codes "EWPv2 handshake aead"

abbrev pub info_salt_prefix : List ℕ
info_salt_prefix = codes "EWPv2-salt"

abbrev pub info_c2s_key : List ℕ
info_c2s_key = codes "EWPv2 c2s key"

abbrev pub info_s2c_key : List ℕ
info_s2c_key = codes "EWPv2 s2c key"

abbrev pub info_c2s_nonce : List ℕ
info_c2s_nonce = codes "EWPv2 c2s nonce"

abbrev pub info_s2c_nonce : List ℕ
info_s2c_nonce = codes "EWPv2 s2c nonce"

pub record SessionKeys : Type 0 where
  pub c2s_key : List ℕ
  pub s2c_key : List ℕ
  pub c2s_nonce : List ℕ
  pub s2c_nonce : List ℕ

module _ (p : Primitives) where
  unfoldable pub uuid_psk : List ℕ → List ℕ
  uuid_psk uuid = p.sha256 uuid

  -- `hkdf.New` extracts and expands. Its reader fails past 8160 bytes only, so neither this function
  -- nor `derive_session_keys` reaches its panic.
  unfoldable pub handshake_aead_key : List ℕ → List ℕ → List ℕ
  unfolding uuid_psk
  handshake_aead_key uuid nonce =
      p.hkdf_expand (p.hkdf_extract (uuid_psk uuid) nonce) info_handshake_aead aead_key_len

  unfoldable pub outer_mac : List ℕ → List ℕ → List ℕ
  unfolding uuid_psk
  outer_mac uuid msg = take outer_mac_len (p.hmac (uuid_psk uuid) msg)

  unfoldable pub verify_outer_mac : List ℕ → List ℕ → List ℕ → Bool
  verify_outer_mac uuid msg tag = bytes_eq (outer_mac uuid msg) tag

  unfoldable pub derive_session_keys : List ℕ → List ℕ → List ℕ → List ℕ → SessionKeys
  derive_session_keys x25519_shared mlkem_shared client_nonce server_nonce_echo =
      let ikm = x25519_shared ++ mlkem_shared in
      let salt = (info_salt_prefix ++ client_nonce) ++ server_nonce_echo in
      let prk = p.hkdf_extract ikm salt in
      record {
        c2s_key = p.hkdf_expand prk info_c2s_key aead_key_len;
        s2c_key = p.hkdf_expand prk info_s2c_key aead_key_len;
        c2s_nonce = p.hkdf_expand prk info_c2s_nonce nonce_prefix_len;
        s2c_nonce = p.hkdf_expand prk info_s2c_nonce nonce_prefix_len;
      }
