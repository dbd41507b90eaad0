-- ===== src/PaddingPolicy/Tests.antt =====
-- Runs of the padding policy, where crypto/rand draws zeros or fails.
use sing_ewp.Frame.PadLen.{draw_below}
use sing_ewp.Kdf.{max_frame_pad}
use sing_ewp.PaddingPolicy.Buckets.{large_frames_tell_size, In}
use sing_ewp.PaddingPolicy.{
  smallest_fit, target, handshake_buckets, suggest_stream_pad, bump, clamp_pad, steady_buckets,
  pad_to_bucket, secure_rand_intn,
}
use sing_ewp.Crypto.Random.{broken, zeros}
use sing_ewp.Prelude.{arith, some, [], refl, ◌∷◌, ◌+◌, ◌≡◌}

suggest_stream_pad-same_bucket : suggest_stream_pad broken 600 0 ≡ 3496
unfolding suggest_stream_pad pad_to_bucket target smallest_fit bump clamp_pad secure_rand_intn
    draw_below
suggest_stream_pad-same_bucket = refl

first_fit :
    smallest_fit 600 steady_buckets ≡ some (1024, 1500 ∷ 2048 ∷ 4096 ∷ 8192 ∷ 12288 ∷ 16384 ∷ [])
unfolding smallest_fit
first_fit = refl

large_frames_tell_size_example :
    (suggest_stream_pad zeros 9000 3 ≡ max_frame_pad)
    × ¬ In (9000 + suggest_stream_pad zeros 9000 3) handshake_buckets
large_frames_tell_size_example =
    large_frames_tell_size zeros 9000 3 (omega arith) (omega arith) (omega arith)
