-- ===== src/Crypto.antt =====
-- The packages that the program calls and that are not in the repository: crypto/sha256,
-- crypto/hmac, golang.org/x/crypto/hkdf and golang.org/x/crypto/chacha20poly1305. They are a
-- parameter, with their documented behaviour as named laws. aead.go is the construction of an AEAD
-- from a key of 32 bytes, which cannot fail; an AEAD is its key here.
pub mod Random
pub mod Toy
use sing_ewp.Prelude.{ℕ, ◌+◌, ◌≤◌, ◌≡◌, Option, some, List, length}
use sing_ewp.Bytes.{IsBytes, IsArray}

pub record Primitives : Type 0 where
  pub sha256 : List ℕ → List ℕ
  -- key, message
  pub hmac : List ℕ → List ℕ → List ℕ
  -- secret, salt
  pub hkdf_extract : List ℕ → List ℕ → List ℕ
  -- pseudorandom key, info, and the number of bytes that are read
  pub hkdf_expand : List ℕ → List ℕ → ℕ → List ℕ
  -- key, nonce, plaintext, additional data
  pub seal : List ℕ → List ℕ → List ℕ → List ℕ → List ℕ
  -- key, nonce, ciphertext, additional data
  pub unseal : List ℕ → List ℕ → List ℕ → List ℕ → Option (List ℕ)

-- Sizes; `Open` gives back what `Seal` was given, and accepts nothing but what `Seal` gives.
pub record IsLawful (p : Primitives) : Type 0 where
  pub sha256_size : (m : List ℕ) → IsArray 32 (p.sha256 m)
  pub hmac_size : (k m : List ℕ) → IsArray 32 (p.hmac k m)
  pub expand_size : (k i : List ℕ) (n : ℕ) → n ≤ 8160 → IsArray n (p.hkdf_expand k i n)
  pub seal_size : (k n m a : List ℕ) → length (p.seal k n m a) ≡ length m + 16
  pub seal_bytes : (k n m a : List ℕ) → IsBytes m → IsBytes (p.seal k n m a)
  pub unseal-seal : (k n m a : List ℕ) → p.unseal k n (p.seal k n m a) a ≡ some m
  pub seal-unseal : (k n c a m : List ℕ) → p.unseal k n c a ≡ some m → p.seal k n m a ≡ c
