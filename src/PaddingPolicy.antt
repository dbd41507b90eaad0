-- ===== src/PaddingPolicy.antt =====
-- padding_policy.go: the length that a frame of the stream is padded to.
pub mod Bounds
pub mod Buckets
mod Tests
use sing_ewp.Crypto.Random.{Reader}
use sing_ewp.Frame.PadLen.{draw_below}
use sing_ewp.Kdf.{max_frame_size, max_frame_pad}
use sing_ewp.Prelude.{
  none, ltb, Option, some, List, ◌*◌, ◌∷◌, ℕ, [], if◌then◌else◌, ◌+◌, ◌-◌, ◌/◌, leb,
}

abbrev pub steady_buckets : List ℕ
steady_buckets = 256 ∷ 512 ∷ 1024 ∷ 1500 ∷ 2048 ∷ 4096 ∷ 8192 ∷ 12288 ∷ 16384 ∷ []

abbrev pub handshake_buckets : List ℕ
handshake_buckets = 1500 ∷ 4096 ∷ 8192 ∷ 16384 ∷ []

abbrev pub handshake_phase_frames : ℕ
handshake_phase_frames = 16

abbrev pub bucket_up_prob_bp : ℕ
bucket_up_prob_bp = 4500

-- A value below `n`, and 0 where crypto/rand fails.
unfoldable pub secure_rand_intn : Reader → ℕ → ℕ
secure_rand_intn draw n =
    if leb n 1 then 0 else (elim (draw_below draw n) [ none ↦ 0 | some r ↦ r ])

-- MaxFrameSize less the four bytes of the FrameLen field
abbrev pub max_wire : ℕ
max_wire = max_frame_size - 4

-- The loop over the ladder: the smallest bucket that is large enough, with the buckets above it.
unfoldable pub smallest_fit : ℕ → List ℕ → Option (ℕ × List ℕ)
smallest_fit raw [] = none
smallest_fit raw (b ∷ ladder) = if leb raw b then some (b, ladder) else smallest_fit raw ladder

-- The bucket itself or, where there is a next one, by chance that.
unfoldable pub bump : Reader → ℕ → List ℕ → ℕ
bump draw bucket [] = bucket
bump draw bucket (next ∷ _) =
    if ltb (secure_rand_intn draw 10000) bucket_up_prob_bp then next else bucket

-- The switch; `none` where the function returns 0 at once.
unfoldable pub target : Reader → ℕ → List ℕ → Option ℕ
target draw raw ladder = elim (smallest_fit raw ladder) [
  | some (bucket, above) ↦ some (bump draw bucket above)
  | none ↦ let t = (raw + 1023) / 1024 * 1024 in if ltb max_wire t then none else some t
]

-- The clamps after the switch. A difference that is negative in Go is set to 0 there.
unfoldable pub clamp_pad : ℕ → ℕ → ℕ
clamp_pad raw goal =
    let pad = goal - raw in
    let pad' = if ltb max_frame_pad pad then max_frame_pad else pad in
    if ltb max_wire (raw + pad') then max_wire - raw else pad'

unfoldable pub pad_to_bucket : Reader → ℕ → List ℕ → ℕ
pad_to_bucket draw raw ladder = elim (target draw raw ladder) [
  | none ↦ 0
  | some goal ↦ clamp_pad raw goal
]

unfoldable pub suggest_stream_pad : Reader → ℕ → ℕ → ℕ
suggest_stream_pad draw raw phase_frame_index =
    if ltb phase_frame_index handshake_phase_frames
    then pad_to_bucket draw raw handshake_buckets
    else pad_to_bucket draw raw steady_buckets
