-- ===== src/Uuid.antt =====
-- ParseUUID of client.go. A string is the list of its bytes.
pub mod Canonical
mod Tests
use sing_ewp.Hello.{or_fail}
use sing_ewp.Errors.{uuid_length, Result, uuid_digit, err}
use sing_ewp.Prelude.{
  if◌then◌else◌, ℕ, [], ◌&&◌, ◌+◌, Option, leb, ◌-◌, List, none, not, some, length, ◌==◌, ◌*◌, ◌∷◌,
}

abbrev pub hyphen : ℕ
hyphen = 45

-- `strings.ReplaceAll(s, "-", "")`
unfoldable pub without_hyphens : List ℕ → List ℕ
without_hyphens [] = []
without_hyphens (c ∷ s) = let rest = without_hyphens s in if c == hyphen then rest else c ∷ rest

-- The value of a digit of encoding/hex, in either case.
unfoldable pub hex_value : ℕ → Option ℕ
hex_value c =
    if leb 48 c && leb c 57
    then some (c - 48)
    else if leb 97 c && leb c 102
    then some (c - 87)
    else if leb 65 c && leb c 70
    then some (c - 55)
    else none

-- hex.DecodeString: a byte for each two digits.
unfoldable pub hex_decode : List ℕ → Option (List ℕ)
hex_decode [] = some []
hex_decode (c ∷ []) = none
hex_decode (c ∷ d ∷ s) = elim (hex_value c) [
  | none ↦ none
  | some hi ↦ elim (hex_value d) [
    | none ↦ none
    | some lo ↦ elim (hex_decode s) [ none ↦ none | some bs ↦ some ((hi * 16 + lo) ∷ bs) ]
  ]
]

unfoldable pub parse_uuid : List ℕ → Result (List ℕ)
parse_uuid s =
    let clean = without_hyphens s in
    if not (length clean == 32) then err uuid_length else or_fail (hex_decode clean) uuid_digit
