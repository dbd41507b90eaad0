-- ===== src/Bytes.antt =====
-- Byte strings and the big-endian numbers of Go's encoding/binary.
-- A Go `[]byte`, `string` or `[N]byte` is a list of numbers below 256.
use sing_ewp.Prelude.{
  ℕ, ◌+◌, ◌*◌, ◌/◌, ◌%◌, ◌^◌, ◌<◌, ◌≡◌, arith, List, [], ◌∷◌, length, All, drop, suc, refl, zero,
  Bool, ltb, true, ◌&&◌,
}

abbrev pub IsByte : ℕ → Type 0
IsByte b = b < 256

abbrev pub IsBytes : List ℕ → Type 0
IsBytes = All IsByte

-- A `[n]byte`.
abbrev pub IsArray : ℕ → List ℕ → Type 0
IsArray n xs = (length xs ≡ n) × IsBytes xs

-- binary.BigEndian.PutUint16 of `uint16(v)`, and so on for 32 and 64 bits.
unfoldable pub put_uint16 : ℕ → List ℕ
put_uint16 v = (v / 256 % 256) ∷ (v % 256) ∷ []

unfoldable pub put_uint32 : ℕ → List ℕ
put_uint32 v = (v / 2 ^ 24 % 256) ∷ (v / 2 ^ 16 % 256) ∷ (v / 256 % 256) ∷ (v % 256) ∷ []

unfoldable pub put_uint64 : ℕ → List ℕ
put_uint64 v =
    (v / 2 ^ 56 % 256)
    ∷ (v / 2 ^ 48 % 256)
    ∷ (v / 2 ^ 40 % 256)
    ∷ (v / 2 ^ 32 % 256)
    ∷ (v / 2 ^ 24 % 256)
    ∷ (v / 2 ^ 16 % 256)
    ∷ (v / 256 % 256)
    ∷ (v % 256)
    ∷ []

-- binary.BigEndian.Uint16 and so on. Go panics on a slice that is too short; the code measures each
-- slice before it reads a number, and the value 0 stands for that case here.
unfoldable pub uint16 : List ℕ → ℕ
uint16 (a ∷ b ∷ _) = a * 256 + b
uint16 _ = 0

unfoldable pub uint32 : List ℕ → ℕ
uint32 (a ∷ b ∷ c ∷ d ∷ _) = a * 2 ^ 24 + b * 2 ^ 16 + c * 256 + d
uint32 _ = 0

unfoldable pub uint64 : List ℕ → ℕ
uint64 (a ∷ b ∷ c ∷ d ∷ e ∷ f ∷ g ∷ h ∷ _) =
    a * 2 ^ 56 + b * 2 ^ 48 + c * 2 ^ 40 + d * 2 ^ 32 + e * 2 ^ 24 + f * 2 ^ 16 + g * 256 + h
uint64 _ = 0

-- `bs[i]` for an index that is in range; the code measures first.
unfoldable pub byte_at : ℕ → List ℕ → ℕ
byte_at i bs = elim (drop i bs) [ [] ↦ 0 | b ∷ _ ↦ b ]

pub byte_at_lem : (i : ℕ) (bs rest : List ℕ) (b : ℕ) → drop i bs ≡ b ∷ rest → byte_at i bs ≡ b
unfolding byte_at
byte_at_lem i bs rest b h = rw (h, byte_at)

-- A byte that is in range, with what follows it.
pub drop-byte_at :
    (i : ℕ) (bs : List ℕ) → i < length bs → drop i bs ≡ byte_at i bs ∷ drop (suc i) bs
unfolding byte_at drop
drop-byte_at i [] h = absurd (omega arith)
drop-byte_at zero (b ∷ bs) h = refl
drop-byte_at (suc i) (b ∷ bs) h = drop-byte_at i bs (omega arith)

pub uint16-put_uint16 : (v : ℕ) → v < 2 ^ 16 → uint16 (put_uint16 v) ≡ v
unfolding uint16 put_uint16
uint16-put_uint16 v h = omega arith

pub uint32-put_uint32 : (v : ℕ) → v < 2 ^ 32 → uint32 (put_uint32 v) ≡ v
unfolding uint32 put_uint32
uint32-put_uint32 v h = omega arith

pub uint64-put_uint64 : (v : ℕ) → v < 2 ^ 64 → uint64 (put_uint64 v) ≡ v
unfolding uint64 put_uint64
uint64-put_uint64 v h = omega arith

pub put_uint16-IsArray : (v : ℕ) → IsArray 2 (put_uint16 v)
unfolding put_uint16
put_uint16-IsArray v = omega arith

pub put_uint32-IsArray : (v : ℕ) → IsArray 4 (put_uint32 v)
unfolding put_uint32
put_uint32-IsArray v = omega arith

pub put_uint64-IsArray : (v : ℕ) → IsArray 8 (put_uint64 v)
unfolding put_uint64
put_uint64-IsArray v = omega arith

-- A number that was read writes back the bytes it was read from.
pub put_uint16-uint16 : (xs : List ℕ) → IsArray 2 xs → put_uint16 (uint16 xs) ≡ xs
unfolding uint16 put_uint16
put_uint16-uint16 (a ∷ b ∷ []) h = ground arith
put_uint16-uint16 [] h = absurd (omega arith)
put_uint16-uint16 (a ∷ []) h = absurd (omega arith)
put_uint16-uint16 (a ∷ b ∷ c ∷ xs) h = absurd (omega arith)

pub put_uint32-uint32 : (xs : List ℕ) → IsArray 4 xs → put_uint32 (uint32 xs) ≡ xs
unfolding uint32 put_uint32
put_uint32-uint32 (a ∷ b ∷ c ∷ d ∷ []) h = ground arith
put_uint32-uint32 [] h = absurd (omega arith)
put_uint32-uint32 (a ∷ []) h = absurd (omega arith)
put_uint32-uint32 (a ∷ b ∷ []) h = absurd (omega arith)
put_uint32-uint32 (a ∷ b ∷ c ∷ []) h = absurd (omega arith)
put_uint32-uint32 (a ∷ b ∷ c ∷ d ∷ e ∷ xs) h = absurd (omega arith)

pub uint16-lt : (xs : List ℕ) → IsBytes xs → uint16 xs < 2 ^ 16
unfolding uint16
uint16-lt [] h = omega arith
uint16-lt (a ∷ []) h = omega arith
uint16-lt (a ∷ b ∷ xs) h = omega arith

pub uint32-lt : (xs : List ℕ) → IsBytes xs → uint32 xs < 2 ^ 32
unfolding uint32
uint32-lt [] h = omega arith
uint32-lt (a ∷ []) h = omega arith
uint32-lt (a ∷ b ∷ []) h = omega arith
uint32-lt (a ∷ b ∷ c ∷ []) h = omega arith
uint32-lt (a ∷ b ∷ c ∷ d ∷ xs) h = omega arith

-- A list is decided to be bytes.
abbrev pub all_bytes : List ℕ → Bool
all_bytes [] = true
all_bytes (b ∷ bs) = ltb b 256 && all_bytes bs

pub small-IsBytes : (bs : List ℕ) → all_bytes bs ≡ true → IsBytes bs
small-IsBytes [] h = tt
small-IsBytes (b ∷ bs) h = (ground (arith, h), small-IsBytes bs (ground (arith, h)))
