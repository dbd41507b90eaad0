-- ===== src/Uuid/Canonical.antt =====
-- The canonical form of a UUID is read back.
-- The lower case digit of a number below 16.
use sing_ewp.Errors.{ok}
use sing_ewp.Kdf.{uuid_len}
use sing_ewp.Uuid.{without_hyphens, hex_value, hyphen, hex_decode, parse_uuid}
use sing_ewp.Prelude.{
  ◌++◌, ◌+◌, ◌*◌, length, some, ◌∷◌, ◌%◌, refl, ltb, ◌≡◌, ◌<◌, arith, ℕ, take, [], ◌/◌, List, drop,
  if◌then◌else◌, drop_split, ◌∙◌, ap, All-take, All-drop, take-append-drop, append-nil,
}
use sing_ewp.Bytes.{IsArray, IsBytes, IsByte}

abbrev pub digit : ℕ → ℕ
digit n = if ltb n 10 then 48 + n else 87 + n

-- Two digits for each byte.
unfoldable pub hex_encode : List ℕ → List ℕ
hex_encode [] = []
hex_encode (b ∷ bs) = digit (b / 16) ∷ digit (b % 16) ∷ hex_encode bs

-- Groups of 8, 4, 4, 4 and 12 digits.
unfoldable pub canonical : List ℕ → List ℕ
canonical u =
    hex_encode (take 4 u)
    ++ (hyphen
        ∷ (hex_encode (take 2 (drop 4 u))
            ++ (hyphen
                ∷ (hex_encode (take 2 (drop 6 u))
                    ++ (hyphen
                        ∷ (hex_encode (take 2 (drop 8 u)) ++ (hyphen ∷ hex_encode (drop 10 u))))))))

without_hyphens-hex :
    (bs s : List ℕ)
    → IsBytes bs
    → without_hyphens (hex_encode bs ++ s) ≡ hex_encode bs ++ without_hyphens s
unfolding without_hyphens hex_encode
without_hyphens-hex [] s h = refl
without_hyphens-hex (b ∷ bs) s h = ground (arith, without_hyphens-hex bs s h.1, h.0)

without_hyphens-hyphen : (s : List ℕ) → without_hyphens (hyphen ∷ s) ≡ without_hyphens s
unfolding without_hyphens
without_hyphens-hyphen s = refl

hex_encode-append : (xs ys : List ℕ) → hex_encode xs ++ hex_encode ys ≡ hex_encode (xs ++ ys)
unfolding hex_encode
hex_encode-append [] ys = refl
hex_encode-append (x ∷ xs) ys = rw (hex_encode-append xs ys) refl

length-hex_encode : (bs : List ℕ) → length (hex_encode bs) ≡ 2 * length bs
unfolding hex_encode
length-hex_encode [] = refl
length-hex_encode (b ∷ bs) = omega (arith, length-hex_encode bs)

hex_value-digit : (n : ℕ) → n < 16 → hex_value (digit n) ≡ some n
unfolding hex_value
hex_value-digit n h = ground arith

hex_decode-hex_encode : (bs : List ℕ) → IsBytes bs → hex_decode (hex_encode bs) ≡ some bs
unfolding hex_decode hex_encode
hex_decode-hex_encode [] h = refl
hex_decode-hex_encode (b ∷ bs) h =
    let high = hex_value-digit (b / 16) (omega (arith, h.0)) in
    let low = hex_value-digit (b % 16) (omega arith) in
    let split : b / 16 * 16 + b % 16 ≡ b = omega arith in
    ground (arith, high, low, hex_decode-hex_encode bs h.1, split)

without_hyphens-end : (bs : List ℕ) → IsBytes bs → without_hyphens (hex_encode bs) ≡ hex_encode bs
unfolding without_hyphens
without_hyphens-end bs h = rw append-nil at (without_hyphens-hex bs [] h)

-- One group and its hyphen, before the rest.
without_hyphens-group :
    (o k n : ℕ) (u s : List ℕ)
    → IsBytes u
    → n ≡ o + k
    → without_hyphens s ≡ hex_encode (drop n u)
    → without_hyphens (hex_encode (take k (drop o u)) ++ (hyphen ∷ s)) ≡ hex_encode (drop o u)
without_hyphens-group o k n u s h e rest =
    let group = take k (drop o u) in
    let typed : IsBytes group = All-take IsByte k (drop o u) (All-drop IsByte o u h) in
    let split : group ++ drop n u ≡ drop o u =
      rw (drop_split n o k u e) (take-append-drop k (drop o u)) in
    without_hyphens-hex group (hyphen ∷ s) typed
    ∙ (ap (λ (x : List ℕ). hex_encode group ++ x) (without_hyphens-hyphen s ∙ rest)
        ∙ (hex_encode-append group (drop n u) ∙ ap hex_encode split))

without_hyphens-canonical : (u : List ℕ) → IsBytes u → without_hyphens (canonical u) ≡ hex_encode u
unfolding canonical drop
without_hyphens-canonical u h = without_hyphens-group 0 4 4 u _ h refl (
    without_hyphens-group 4 2 6 u _ h refl (
      without_hyphens-group 6 2 8 u _ h refl (
        without_hyphens-group 8 2 10 u _ h refl
          (without_hyphens-end (drop 10 u) (All-drop IsByte 10 u h)))))

-- Every UUID is read back from its canonical form: 32 lower case digits in groups of 8, 4, 4, 4 and 12
-- with hyphens between them.
pub parse_uuid-canonical : (u : List ℕ) → IsArray uuid_len u → parse_uuid (canonical u) ≡ ok u
unfolding parse_uuid
parse_uuid-canonical u h =
    rw (without_hyphens-canonical u h.1, hex_decode-hex_encode u h.1)
      (ground (arith, length-hex_encode u, h.0))
