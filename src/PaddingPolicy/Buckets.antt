-- ===== src/PaddingPolicy/Buckets.antt =====
-- The wire sizes that the policy produces.
use sing_ewp.Kdf.{max_frame_pad}
use sing_ewp.Crypto.Random.{Reader}
use sing_ewp.PaddingPolicy.{
  smallest_fit, target, clamp_pad, secure_rand_intn, bump, max_wire, bucket_up_prob_bp,
  pad_to_bucket, handshake_phase_frames, handshake_buckets, suggest_stream_pad,
}
use sing_ewp.Prelude.{
  Bool-cases, ◌∷◌, ℕ, inr, [], ◌⊎◌, some, ◌≡◌, arith, inl, List, ◌≤◌, leb, refl, ◌+◌, ◌<◌, ltb, ◌-◌,
  subst, Option,
}

-- A number of the list.
abbrev pub In : ℕ → List ℕ → Type 0
In a [] = ⊥
In a (x ∷ xs) = (a ≡ x) ⊎ In a xs

abbrev pub Ascending : List ℕ → Type 0
Ascending [] = Unit
Ascending (x ∷ []) = Unit
Ascending (x ∷ y ∷ ladder) = (x ≤ y) × Ascending (y ∷ ladder)

bump_lem :
    (draw : Reader) (raw x : ℕ) (ladder : List ℕ)
    → Ascending (x ∷ ladder)
    → raw ≤ x
    → (raw ≤ bump draw x ladder) × In (bump draw x ladder) (x ∷ ladder)
unfolding bump
bump_lem draw raw x [] up h = (h, inl refl)
bump_lem draw raw x (y ∷ ladder) up h =
    elim (Bool-cases (ltb (secure_rand_intn draw 10000) bucket_up_prob_bp)) [
      | inl e ↦ rw e (omega arith, inr (inl refl))
      | inr e ↦ rw e (h, inl refl)
    ]

Ascending-tail : (x : ℕ) (ladder : List ℕ) → Ascending (x ∷ ladder) → Ascending ladder
Ascending-tail x [] up = tt
Ascending-tail x (y ∷ ladder) up = up.1

same_bump :
    (draw : Reader) (x b : ℕ) (ladder above : List ℕ)
    → ◌≡◌ {A = Option (ℕ × List ℕ)} (some (x, ladder)) (some (b, above))
    → bump draw x ladder ≡ bump draw b above
same_bump draw x b ladder above p = cc

-- The target is a bucket that is large enough.
smallest_fit-bump :
    (draw : Reader) (raw b : ℕ) (ladder above : List ℕ)
    → Ascending ladder
    → smallest_fit raw ladder ≡ some (b, above)
    → (raw ≤ bump draw b above) × In (bump draw b above) ladder
unfolding smallest_fit
smallest_fit-bump draw raw b [] above up h = absurd (ground arith)
smallest_fit-bump draw raw b (x ∷ ladder) above up h = elim (Bool-cases (leb raw x)) [
  | inl e ↦
      let p : ◌≡◌ {A = Option (ℕ × List ℕ)} (some (x, ladder)) (some (b, above)) = rw e at h in
      let q : bump draw x ladder ≡ bump draw b above = same_bump draw x b ladder above p in
      subst (λ (v : ℕ). (raw ≤ v) × In v (x ∷ ladder)) q
        (bump_lem draw raw x ladder up (ground arith))
  | inr e ↦
      let q : smallest_fit raw ladder ≡ some (b, above) = rw e at h in
      let r = smallest_fit-bump draw raw b ladder above (Ascending-tail x ladder up) q in
      (r.0, inr r.1)
]

clamp_pad_lem :
    (raw goal : ℕ)
    → raw ≤ goal
    → goal ≤ max_wire
    → (raw + clamp_pad raw goal ≡ goal)
      ⊎ ((clamp_pad raw goal ≡ max_frame_pad) × (raw + max_frame_pad < goal))
unfolding clamp_pad
clamp_pad_lem raw goal h k = elim (Bool-cases (ltb max_frame_pad (goal - raw))) [
  | inl e ↦ inr (ground arith, ground arith)
  | inr e ↦ inl (ground arith)
]

-- On an ascending ladder with a bucket for the frame, the padded frame has the size of a bucket, or
-- the padding is MaxFramePad and the bucket that was drawn is further away than that.
pub pad_to_bucket_lands :
    (draw : Reader) (raw b : ℕ) (ladder above : List ℕ)
    → Ascending ladder
    → smallest_fit raw ladder ≡ some (b, above)
    → bump draw b above ≤ max_wire
    → In (raw + pad_to_bucket draw raw ladder) ladder
      ⊎ ((pad_to_bucket draw raw ladder ≡ max_frame_pad)
          × (raw + max_frame_pad < bump draw b above))
unfolding pad_to_bucket target
pad_to_bucket_lands draw raw b ladder above up h top =
    let fit = smallest_fit-bump draw raw b ladder above up h in
    let e : pad_to_bucket draw raw ladder ≡ clamp_pad raw (bump draw b above) =
      rw (h, pad_to_bucket, target) in
    rw e (elim (clamp_pad_lem raw (bump draw b above) fit.0 top) [
      | inl lands ↦ inl (rw lands fit.1)
      | inr full ↦ inr full
    ])

-- In the first 16 frames of a stream a frame of at most 1500 bytes is padded to 1500 or to 4096
-- bytes, whatever its size is.
pub small_frames_look_alike :
    (draw : Reader) (raw phase : ℕ)
    → raw ≤ 1500
    → phase < handshake_phase_frames
    → (raw + suggest_stream_pad draw raw phase ≡ 1500)
      ⊎ (raw + suggest_stream_pad draw raw phase ≡ 4096)
unfolding suggest_stream_pad pad_to_bucket target smallest_fit bump clamp_pad
small_frames_look_alike draw raw phase h k =
    elim (Bool-cases (ltb (secure_rand_intn draw 10000) bucket_up_prob_bp)) [
      | inl e ↦ inr (ground arith)
      | inr e ↦ inl (ground arith)
    ]

-- In the first 16 frames the padding of a frame of more than 8192 and less than 12288 bytes is always
-- MaxFramePad: its only bucket, 16384, is out of reach, so its padded size tells its own size.
pub large_frames_tell_size :
    (draw : Reader) (raw phase : ℕ)
    → 8192 < raw
    → raw < 12288
    → phase < handshake_phase_frames
    → (suggest_stream_pad draw raw phase ≡ max_frame_pad)
      × ¬ In (raw + suggest_stream_pad draw raw phase) handshake_buckets
unfolding suggest_stream_pad pad_to_bucket target smallest_fit bump clamp_pad
large_frames_tell_size draw raw phase h k l =
    let e : suggest_stream_pad draw raw phase ≡ max_frame_pad = ground arith in
    (e, rw e (λ i. omega arith))
