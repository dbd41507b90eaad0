-- ===== src/Crypto/Toy.antt =====
-- A concrete instance of the primitives that meets their laws: a checksum in place of every hash, and
-- an AEAD that writes the tag of the text before the text.
use sing_ewp.Prelude.{
  ℕ, ◌+◌, ◌*◌, ◌%◌, ◌≡◌, some, none, List, [], ◌∷◌, ◌++◌, arith, take, drop, replicate,
  length-replicate, All-replicate, All-append, length-append, take-append, drop-append,
  take-append-drop, bytes_eq, bytes_eq_iff, bytes_eq_refl, if◌then◌else◌,
}
use sing_ewp.Bytes.{IsByte, IsArray}
use sing_ewp.Crypto.{Primitives, IsLawful}

unfoldable pub checksum : List ℕ → ℕ
checksum [] = 0
checksum (b ∷ bs) = (b + 3 * checksum bs) % 256

checksum-IsByte : (bs : List ℕ) → IsByte (checksum bs)
unfolding checksum
checksum-IsByte [] = omega arith
checksum-IsByte (b ∷ bs) = omega arith

unfoldable pub tag : List ℕ → List ℕ → List ℕ → List ℕ → List ℕ
unfolding checksum
tag k n m a = replicate 16 (checksum (k ++ (n ++ (m ++ a))))

abbrev pub block : ℕ → List ℕ → List ℕ
block n m = replicate n (checksum m)

abbrev pub toy : Primitives
toy = record {
  sha256 = block 32;
  hmac = λ k m. block 32 (k ++ m);
  hkdf_extract = λ s t. block 32 (s ++ t);
  hkdf_expand = λ k i n. block n (k ++ i);
  seal = λ k n m a. tag k n m a ++ m;
  unseal =
      λ k n c a. if bytes_eq (take 16 c) (tag k n (drop 16 c) a) then some (drop 16 c) else none;
}

pub block-IsArray : (n : ℕ) (m : List ℕ) → IsArray n (block n m)
block-IsArray n m = (length-replicate n _, All-replicate IsByte n _ (checksum-IsByte m))

tag-IsArray : (k n m a : List ℕ) → IsArray 16 (tag k n m a)
unfolding tag
tag-IsArray k n m a = block-IsArray 16 (k ++ (n ++ (m ++ a)))

toy-unseal-seal : (k n m a : List ℕ) → toy.unseal k n (toy.seal k n m a) a ≡ some m
toy-unseal-seal k n m a =
    let s = tag-IsArray k n m a in
    rw (take-append 16 (tag k n m a) m s.0, drop-append 16 (tag k n m a) m s.0, bytes_eq_refl)

toy-seal-unseal : (k n c a m : List ℕ) → toy.unseal k n c a ≡ some m → toy.seal k n m a ≡ c
toy-seal-unseal k n c a m h =
    ground (arith, bytes_eq_iff (take 16 c) (tag k n (drop 16 c) a), take-append-drop 16 c)

pub toy-IsLawful : IsLawful toy
toy-IsLawful = record {
  sha256_size = block-IsArray 32;
  hmac_size = λ k m. block-IsArray 32 (k ++ m);
  expand_size = λ k i n h. block-IsArray n (k ++ i);
  seal_size = λ k n m a. omega (arith, length-append (tag k n m a) m, (tag-IsArray k n m a).0);
  seal_bytes = λ k n m a h. All-append IsByte (tag k n m a) m (tag-IsArray k n m a).1 h;
  unseal-seal = toy-unseal-seal;
  seal-unseal = toy-seal-unseal;
}
