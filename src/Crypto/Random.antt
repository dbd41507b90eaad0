-- ===== src/Crypto/Random.antt =====
-- crypto/rand. One use of `io.ReadFull(crand.Reader, buf)` is a function from the size of `buf` to
-- the bytes that are drawn, or `none` where the read fails.
use sing_ewp.Prelude.{
  ℕ, ◌≡◌, Option, some, none, List, replicate, length-replicate, All-replicate, arith, refl,
}
use sing_ewp.Bytes.{IsByte, IsArray}

abbrev pub Reader : Type 0
Reader = ℕ → Option (List ℕ)

-- `io.ReadFull` fills the whole buffer or fails.
abbrev pub FillsBuffer : Reader → Type 0
FillsBuffer r = (n : ℕ) (b : List ℕ) → r n ≡ some b → IsArray n b

-- Concrete readers: one that draws zeros, one that always fails.
abbrev pub zeros : Reader
zeros n = some (replicate n 0)

abbrev pub broken : Reader
broken n = none

pub zeros-FillsBuffer : FillsBuffer zeros
zeros-FillsBuffer n b h =
    let e : replicate n 0 ≡ b = cc in
    rw (← e) (length-replicate n 0, All-replicate IsByte n 0 (omega arith))

-- The reads do not fail.
abbrev pub NeverFails : Reader → Type 0
NeverFails r = (n : ℕ) → (b : List ℕ) × (r n ≡ some b)

pub zeros-NeverFails : NeverFails zeros
zeros-NeverFails n = (replicate n 0, refl)
