-- ===== src/Frame/Writer.antt =====
-- EncodeFrame of frame.go, and a sequence of frames on a byte stream.
-- A frame to send: the arguments of EncodeFrame and the randomness of its padding.
use sing_ewp.StreamConn.{read}
use sing_ewp.Crypto.Random.{FillsBuffer, Reader}
use sing_ewp.Frame.RoundTrip.{decode_frame-encode}
use sing_ewp.Prelude.Int.{ℤ}
use sing_ewp.Frame.Encode.{length-encode_frame_append}
use sing_ewp.Frame.{encode_frame_append, decode_frame, DecodedFrame, FrameAead}
use sing_ewp.Errors.{ok, err, Result, Error, transport, ◌>>=◌}
use sing_ewp.Crypto.{IsLawful, Primitives}
use sing_ewp.Prelude.{
  if◌then◌else◌, ◌%◌, inr, ap, some, List, ◌+◌, ◌++◌, append_assoc, ◌∙◌, Bool-cases, refl, suc, sym,
  [], Option, Option-cases, arith, ◌∷◌, All, none, inl, ◌<◌, zero, ℕ, ◌^◌, Bool, ◌≡◌, length,
}

pub record Outgoing : Type 0 where
  pub fill : Reader
  pub type : ℕ
  pub meta : List ℕ
  pub payload : List ℕ
  pub pad : ℤ

module _ (p : Primitives) where
  -- EncodeFrame, where the writer takes the bytes or fails: the bytes that it took.
  unfoldable pub encode_frame :
      (List ℕ → Bool) → Outgoing → FrameAead → FrameAead × List ℕ × Option Error
  encode_frame takes o f =
      let (f', wire, failure) = encode_frame_append p o.fill [] f o.type o.meta o.payload o.pad in
      elim failure [
        | some e ↦ (f', [], some e)
        | none ↦ if takes wire then (f', wire, none) else (f', [], some transport)
      ]

  -- EncodeFrame of each frame in turn, until one fails.
  unfoldable pub encode_frames :
      (List ℕ → Bool) → List Outgoing → FrameAead → FrameAead × List ℕ × Option Error
  encode_frames takes [] f = (f, [], none)
  encode_frames takes (o ∷ os) f =
      let (f', wire, failure) = encode_frame takes o f in
      let (f'', more, failure') = encode_frames takes os f' in
      elim failure [ some e ↦ (f', wire, some e) | none ↦ (f'', wire ++ more, failure') ]

  -- DecodeFrame as often as this, until it fails.
  unfoldable pub decode_frames :
      ℕ → List ℕ → FrameAead → FrameAead × List ℕ × Result (List DecodedFrame)
  decode_frames zero src f = (f, src, ok [])
  decode_frames (suc n) src f =
      let (f', rest, r) = decode_frame p src f in
      let (f'', rest', more) = decode_frames n rest f' in
      elim r [ err e ↦ (f', rest, err e) | ok fr ↦ (f'', rest', more >>= λ frs. ok (fr ∷ frs)) ]

-- The frames as a receiver sees them, counted from `c` on.
unfoldable pub numbered : ℕ → List Outgoing → List DecodedFrame
numbered c [] = []
numbered c (o ∷ os) =
    record { counter = c; type = o.type; meta = o.meta; payload = o.payload }
    ∷ numbered ((c + 1) % 2 ^ 64) os

module _ (p : Primitives) where
  encode_frame_inv :
      (takes : List ℕ → Bool) (o : Outgoing) (f f' : FrameAead) (wire : List ℕ)
      → encode_frame p takes o f ≡ (f', wire, none)
      → encode_frame_append p o.fill [] f o.type o.meta o.payload o.pad ≡ (f', wire, none)
  unfolding encode_frame
  encode_frame_inv takes o f f' wire h =
      let r = encode_frame_append p o.fill [] f o.type o.meta o.payload o.pad in
      elim (Option-cases r.2) [
        | inr (e, q) ↦ absurd (ground (arith, q, h))
        | inl q ↦ elim (Bool-cases (takes r.1)) [
          | inl t ↦ ground (arith, q, t, h)
          | inr t ↦ absurd (ground (arith, q, t, h))
        ]
      ]

  decode_next :
      (n : ℕ) (src rest rest' : List ℕ) (f f' f'' : FrameAead) (fr : DecodedFrame)
      (frs : List DecodedFrame)
      → decode_frame p src f ≡ (f', rest, ok fr)
      → decode_frames p n rest f' ≡ (f'', rest', ok frs)
      → decode_frames p (suc n) src f ≡ (f'', rest', ok (fr ∷ frs))
  unfolding decode_frames
  decode_next n src rest rest' f f' f'' fr frs h k = ground (arith, h, k)

module _ (p : Primitives) (lawful : IsLawful p) where
  -- Frames that EncodeFrame writes one after the other onto a byte stream without an error are decoded
  -- from it by a receiver with the same key, prefix and counter, whatever follows them: as many frames
  -- as were written, in order, each with its type, meta and payload and with the next counter on 64
  -- bits. What follows is left in the reader, and both sides have the same next counter.
  pub decode_frames-encode_frames :
      (takes : List ℕ → Bool) (os : List Outgoing) (f f' : FrameAead) (bytes rest : List ℕ)
      → All (λ (o : Outgoing). FillsBuffer o.fill) os
      → f.counter < 2 ^ 64
      → encode_frames p takes os f ≡ (f', bytes, none)
      → decode_frames p (length os) (bytes ++ rest) f ≡ (f', rest, ok (numbered f.counter os))
  unfolding encode_frames decode_frames numbered
  decode_frames-encode_frames takes [] f f' bytes rest fills hc h =
      let same : f ≡ f' = ground (arith, h) in
      let nil : [] ≡ bytes = ground (arith, h) in rw (← nil, same) refl
  decode_frames-encode_frames takes (o ∷ os) f f' bytes rest fills hc h =
      let first = encode_frame p takes o f in
      let others = encode_frames p takes os first.0 in
      elim (Option-cases first.2) [
        | inr (e, q) ↦ absurd (ground (arith, q, h))
        | inl q ↦
            let both : first.1 ++ others.1 ≡ bytes = ground (arith, q, h) in
            let later : others ≡ (f', others.1, none) = ground (arith, q, h) in
            let sent = encode_frame_inv p takes o f first.0 first.1 (ground (arith, q)) in
            let (w, cut, read) =
              decode_frame-encode p lawful o.fill fills.0 [] f o.type o.meta o.payload o.pad first.0
                first.1 (others.1 ++ rest) hc sent in
            let size =
              length-encode_frame_append p lawful o.fill fills.0 [] f o.type o.meta o.payload o.pad
                first.0 first.1 sent in
            let tail =
              decode_frames-encode_frames takes os first.0 f' others.1 rest fills.1
                (omega (arith, size)) later in
            let joined : bytes ++ rest ≡ w ++ (others.1 ++ rest) =
              ap (λ x. x ++ rest) (sym both)
              ∙ (append_assoc first.1 others.1 rest ∙ ap (λ x. x ++ (others.1 ++ rest)) cut) in
            ap (λ x. decode_frames p (suc (length os)) x f) joined
            ∙ decode_next p (length os) (w ++ (others.1 ++ rest)) (others.1 ++ rest) rest f first.0
                f' _ (numbered ((f.counter + 1) % 2 ^ 64) os) read (rw (size.2) at tail)
      ]
