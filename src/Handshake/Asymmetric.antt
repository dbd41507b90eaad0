-- ===== src/Handshake/Asymmetric.antt =====
-- crypto/ecdh and crypto/mlkem, which the handshake calls: a parameter, with the laws of a key
-- exchange. A private key is what its generator drew.
use sing_ewp.Bytes.{IsArray}
use sing_ewp.Prelude.{◌≡◌, some, List, Option, true, ℕ, Bool}

pub record KeyExchange : Type 0 where
  -- PublicKey().Bytes(), and whether NewPublicKey accepts
  pub x25519_public : List ℕ → List ℕ
  pub x25519_parses : List ℕ → Bool
  -- private key, public key; `none` is the error of ECDH
  pub ecdh : List ℕ → List ℕ → Option (List ℕ)
  -- EncapsulationKey().Bytes(), and whether NewEncapsulationKey768 accepts
  pub mlkem_public : List ℕ → List ℕ
  pub mlkem_parses : List ℕ → Bool
  -- encapsulation key, randomness; the shared key and the ciphertext
  pub encapsulate : List ℕ → List ℕ → List ℕ × List ℕ
  -- decapsulation key, ciphertext
  pub decapsulate : List ℕ → List ℕ → Option (List ℕ)

-- Sizes, both sides of X25519 compute the same, and a ciphertext opens to the key it was made with.
pub record IsKeyExchange (kx : KeyExchange) : Type 0 where
  pub x25519_size : (a : List ℕ) → IsArray 32 (kx.x25519_public a)
  pub x25519_accepts : (a : List ℕ) → kx.x25519_parses (kx.x25519_public a) ≡ true
  pub ecdh_agrees : (a b : List ℕ) → kx.ecdh a (kx.x25519_public b) ≡ kx.ecdh b (kx.x25519_public a)
  pub mlkem_size : (d : List ℕ) → IsArray 1184 (kx.mlkem_public d)
  pub mlkem_accepts : (d : List ℕ) → kx.mlkem_parses (kx.mlkem_public d) ≡ true
  pub cipher_size : (e r : List ℕ) → IsArray 1088 (kx.encapsulate e r).1
  pub decapsulate-encapsulate :
      (d r : List ℕ)
      → kx.decapsulate d (kx.encapsulate (kx.mlkem_public d) r).1
        ≡ some (kx.encapsulate (kx.mlkem_public d) r).0
