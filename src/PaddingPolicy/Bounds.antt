-- ===== src/PaddingPolicy/Bounds.antt =====
-- The padding never makes a frame too large.
use sing_ewp.Kdf.{max_frame_pad, max_meta_len}
use sing_ewp.Crypto.Random.{Reader}
use sing_ewp.Frame.PadLen.{draw_below, draw_below-lt}
use sing_ewp.Frame.{frame_header_size, aead_tag_len, valid}
use sing_ewp.PaddingPolicy.{
  secure_rand_intn, max_wire, handshake_buckets, target, pad_to_bucket, steady_buckets, clamp_pad,
  suggest_stream_pad,
}
use sing_ewp.Frame.Encode.{Fits}
use sing_ewp.Prelude.{true, ℕ, inr, inl, arith, ◌≡◌, ◌<◌, List, ◌≤◌, ◌+◌, length, Option-cases, max}

-- `secureRandIntn` stays below its argument, also where crypto/rand fails.
pub secure_rand_intn-lt : (draw : Reader) (n : ℕ) → 0 < n → secure_rand_intn draw n < n
unfolding secure_rand_intn
secure_rand_intn-lt draw n h = elim (Option-cases (draw_below draw n)) [
  | inl e ↦ ground arith
  | inr (r, e) ↦ ground (arith, draw_below-lt draw n r h e)
]

clamp_pad_bounds :
    (raw goal : ℕ)
    → (clamp_pad raw goal ≤ max_frame_pad) × (raw + clamp_pad raw goal ≤ max max_wire raw)
unfolding clamp_pad
clamp_pad_bounds raw goal = ground arith

-- For every ladder, size and random draw the padding is at most MaxFramePad, and it takes the wire
-- size past 65532 bytes only if the frame was larger than that without it.
pub pad_to_bucket_bounds :
    (draw : Reader) (raw : ℕ) (ladder : List ℕ)
    → (pad_to_bucket draw raw ladder ≤ max_frame_pad)
      × (raw + pad_to_bucket draw raw ladder ≤ max max_wire raw)
unfolding pad_to_bucket
pad_to_bucket_bounds draw raw ladder = elim (Option-cases (target draw raw ladder)) [
  | inl e ↦ ground arith
  | inr (goal, e) ↦ rw (e, pad_to_bucket) (clamp_pad_bounds raw goal)
]

-- A frame of a known type whose meta is at most 1024 bytes and whose unpadded wire size is at most
-- 65532 bytes is within the limits of `EncodeFrameAppend` with the padding that the policy chooses,
-- in both phases and for every random draw.
pub suggest_stream_pad-Fits :
    (draw : Reader) (phase t : ℕ) (meta payload : List ℕ)
    → valid t ≡ true
    → length meta ≤ max_meta_len
    → frame_header_size + length meta + length payload + aead_tag_len ≤ max_wire
    → Fits t meta payload (
        suggest_stream_pad draw
          (frame_header_size + length meta + length payload + aead_tag_len)
          phase)
unfolding suggest_stream_pad
suggest_stream_pad-Fits draw phase t meta payload hv hm hw =
    let raw = frame_header_size + length meta + length payload + aead_tag_len in
    let early = pad_to_bucket_bounds draw raw handshake_buckets in
    let late = pad_to_bucket_bounds draw raw steady_buckets in
    record {
      type = hv;
      meta_fits = hm;
      pad_fits = ground (arith, early, late);
      frame_fits = ground (arith, early, late);
    }
