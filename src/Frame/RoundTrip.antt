-- ===== src/Frame/RoundTrip.antt =====
-- `DecodeFrame` after `EncodeFrameAppend`.
use sing_ewp.Crypto.Random.{Reader, FillsBuffer}
use sing_ewp.Crypto.{IsLawful, Primitives}
use sing_ewp.Frame.Decode.{decode_frame-sealed}
use sing_ewp.Errors.{ok}
use sing_ewp.Frame.{decode_frame, encode_frame_append, sealed, FrameAead}
use sing_ewp.Prelude.Int.{pos_part, ℤ}
use sing_ewp.Prelude.{◌<◌, ◌++◌, none, List, ◌≡◌, ◌^◌, append_assoc, ℕ}
use sing_ewp.Frame.Encode.{encode_inv}

module _ (p : Primitives) (lawful : IsLawful p) (draw : Reader) (fills : FillsBuffer draw) where
  -- The bytes that `EncodeFrameAppend` adds to `dst`, whatever follows them, are decoded by a receiver
  -- with the same key, prefix and counter into the type, meta and payload that were given; what
  -- follows is left in the reader, and both sides have the same next counter.
  pub decode_frame-encode :
      (dst : List ℕ) (f : FrameAead) (t : ℕ) (meta payload : List ℕ) (pad : ℤ) (f' : FrameAead)
      (out rest : List ℕ)
      → f.counter < 2 ^ 64
      → encode_frame_append p draw dst f t meta payload pad ≡ (f', out, none)
      → (w : List ℕ) × (out ≡ dst ++ w)
        × (decode_frame p (w ++ rest) f ≡ (
          f',
          rest,
          ok (record { counter = f.counter; type = t; meta = meta; payload = payload }),
        ))
  decode_frame-encode dst f t meta payload pad f' out rest hc h =
      let e = encode_inv p lawful draw fills dst f t meta payload pad f' out h in
      let body = sealed p f t meta payload (pos_part pad) in
      (
        body ++ e.pad,
        e.written,
        rw (append_assoc body e.pad rest, e.advanced)
            (decode_frame-sealed p lawful f t meta payload e.pad rest (pos_part pad) e.fits hc
              e.pad_size),
      )
