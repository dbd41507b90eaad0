-- ===== src/Frame/PadLen.antt =====
-- `SuggestPadLen` of frame.go, which the handshake calls for its padding.
use sing_ewp.Kdf.{max_frame_pad}
use sing_ewp.Crypto.Random.{Reader}
use sing_ewp.Bytes.{uint32}
use sing_ewp.Prelude.Int.{pos_part, ℤ, negsuc, pos}
use sing_ewp.Prelude.{
  ℕ, inr, if◌then◌else◌, min, some, ◌≡◌, inl, arith, ◌<◌, ◌≤◌, ◌+◌, ◌^◌, none, Option-cases, ◌-◌,
  ◌%◌, leb, Option,
}

-- `int(binary.BigEndian.Uint32(b[:])) & 0x7fffffff`, reduced to a range
unfoldable pub draw_below : Reader → ℕ → Option ℕ
draw_below draw span = elim (draw 4) [ none ↦ none | some b ↦ some (uint32 b % 2 ^ 31 % span) ]

unfoldable pub suggest_between : Reader → ℕ → ℕ → ℕ
suggest_between draw lo hi =
    if leb hi lo then lo else (elim (draw_below draw (hi - lo + 1)) [ none ↦ lo | some r ↦ lo + r ])

-- A negative upper bound is below the lower one, which is at least 0 by then.
unfoldable pub suggest_pad_len : Reader → ℤ → ℤ → ℕ
suggest_pad_len draw min_pad max_pad =
    let lo = pos_part min_pad in
    elim max_pad [ negsuc _ ↦ lo | pos hi ↦ suggest_between draw lo (min hi max_frame_pad) ]

pub draw_below-lt :
    (draw : Reader) (span r : ℕ) → 0 < span → draw_below draw span ≡ some r → r < span
unfolding draw_below
draw_below-lt draw span r h e = elim (Option-cases (draw 4)) [
  | inl n ↦ absurd (ground arith)
  | inr (b, n) ↦ grind arith
]

suggest_between_bounds :
    (draw : Reader) (lo hi : ℕ)
    → lo ≤ hi
    → (lo ≤ suggest_between draw lo hi) × (suggest_between draw lo hi ≤ hi)
unfolding suggest_between
suggest_between_bounds draw lo hi h = elim (Option-cases (draw_below draw (hi - lo + 1))) [
  | inl n ↦ ground arith
  | inr (r, n) ↦ ground (arith, draw_below-lt draw (hi - lo + 1) r (omega arith) n)
]

-- Whatever crypto/rand does, and also if it fails, `SuggestPadLen` answers within the bounds it was
-- given and within MaxFramePad, if the lower bound is at most the upper one and MaxFramePad; a
-- negative lower bound counts as 0.
pub suggest_pad_len_bounds :
    (draw : Reader) (lo : ℤ) (hi : ℕ)
    → pos_part lo ≤ hi
    → pos_part lo ≤ max_frame_pad
    → (pos_part lo ≤ suggest_pad_len draw lo (pos hi))
      × (suggest_pad_len draw lo (pos hi) ≤ hi)
      × (suggest_pad_len draw lo (pos hi) ≤ max_frame_pad)
unfolding suggest_pad_len
suggest_pad_len_bounds draw lo hi h k =
    omega (arith, suggest_between_bounds draw (pos_part lo) (min hi max_frame_pad) (omega arith))
