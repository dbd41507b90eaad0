-- ===== src/Frame/Encode.antt =====
-- What `EncodeFrameAppend` writes, and when it refuses.
use sing_ewp.Bytes.{IsBytes}
use sing_ewp.Errors.{Error}
use sing_ewp.Prelude.Int.{ℤ, pos_part}
use sing_ewp.Kdf.{max_frame_pad, max_frame_size, max_meta_len}
use sing_ewp.Prelude.{
  suc, length-append, zero, true, arith, Option-cases, ◌+◌, inl, append-nil, ◌++◌, ◌≡◌, refl, [],
  inr, none, ◌≤◌, List, length, ℕ, sym, some, ◌^◌, ◌↔◌, ◌∙◌, ap, ◌%◌,
}
use sing_ewp.Frame.{
  FrameAead, valid, sealed, emit, put_header, frame_length, advance, compose_nonce,
  encode_frame_append,
}
use sing_ewp.Frame.Header.{length-put_header}
use sing_ewp.Crypto.{Primitives, IsLawful}
use sing_ewp.Crypto.Random.{Reader, FillsBuffer, NeverFails}

-- The limits of a frame: a known type, at most 1024 bytes of meta, at most 4096 bytes of padding, and
-- a FrameLen of at most 65536.
pub record Fits (t : ℕ) (meta payload : List ℕ) (pad_len : ℕ) : Type 0 where
  pub type : valid t ≡ true
  pub meta_fits : length meta ≤ max_meta_len
  pub pad_fits : pad_len ≤ max_frame_pad
  pub frame_fits : frame_length (length meta + length payload) pad_len ≤ max_frame_size

module _ (p : Primitives) (lawful : IsLawful p) where
  pub length-sealed :
      (f : FrameAead) (t : ℕ) (meta payload : List ℕ) (d : ℕ)
      → length (sealed p f t meta payload d) ≡ 33 + (length meta + length payload)
  unfolding sealed
  length-sealed f t meta payload d =
      let plain = meta ++ payload in
      let hdr = put_header (frame_length (length plain) d) f.counter t (length meta) d in
      omega (
        arith,
        length-append hdr (p.seal f.key (compose_nonce f f.counter) plain hdr),
        length-put_header (frame_length (length plain) d) f.counter t (length meta) d,
        lawful.seal_size f.key (compose_nonce f f.counter) plain hdr,
        length-append meta payload,
      )

-- A frame is emitted: the counter advances, `dst` grows by the sealed part and the padding.
pub record Emitted (p : Primitives) (dst : List ℕ) (f : FrameAead) (t : ℕ) (meta payload : List ℕ)
    (d : ℕ) (f' : FrameAead) (out : List ℕ) : Type 0 where
  pub fits : Fits t meta payload d
  pub advanced : f' ≡ advance f
  pub pad : List ℕ
  pub pad_size : length pad ≡ d
  pub pad_bytes : IsBytes pad
  pub written : out ≡ dst ++ (sealed p f t meta payload d ++ pad)

module _ (p : Primitives) (draw : Reader) (fills : FillsBuffer draw) where
  emit_inv :
      (dst : List ℕ) (f : FrameAead) (t : ℕ) (meta payload : List ℕ) (d : ℕ) (f' : FrameAead)
      (out : List ℕ)
      → Fits t meta payload d
      → emit p draw dst f t meta payload d ≡ (f', out, none)
      → Emitted p dst f t meta payload d f' out
  unfolding emit
  emit_inv dst f t meta payload zero f' out fits h = record {
    fits = fits;
    advanced = ground arith;
    pad = [];
    pad_size = refl;
    pad_bytes = tt;
    written = rw append-nil (ground arith);
  }
  emit_inv dst f t meta payload (suc d) f' out fits h = elim (Option-cases (draw (suc d))) [
    | inl e ↦ ground arith
    | inr (pad, e) ↦ record {
      fits = fits;
      advanced = ground arith;
      pad = pad;
      pad_size = (fills (suc d) pad e).0;
      pad_bytes = (fills (suc d) pad e).1;
      written = ground arith;
    }
  ]

module _ (p : Primitives) (draw : Reader) where
  -- A frame that is emitted is within the limits.
  encode-Fits :
      (dst : List ℕ) (f : FrameAead) (t : ℕ) (meta payload : List ℕ) (pad : ℤ) (f' : FrameAead)
      (out : List ℕ)
      → encode_frame_append p draw dst f t meta payload pad ≡ (f', out, none)
      → Fits t meta payload (pos_part pad)
  unfolding encode_frame_append
  encode-Fits dst f t meta payload pad f' out h = record {
    type = ground arith;
    meta_fits = ground arith;
    pad_fits = ground arith;
    frame_fits = ground arith;
  }

  -- Within the limits the guards pass.
  encode-eq-emit :
      (dst : List ℕ) (f : FrameAead) (t : ℕ) (meta payload : List ℕ) (pad : ℤ)
      → Fits t meta payload (pos_part pad)
      → encode_frame_append p draw dst f t meta payload pad
        ≡ emit p draw dst f t meta payload (pos_part pad)
  unfolding encode_frame_append
  encode-eq-emit dst f t meta payload pad fits = ground arith

  emit_keeps :
      (dst : List ℕ) (f : FrameAead) (t : ℕ) (meta payload : List ℕ) (d : ℕ) (f' : FrameAead)
      (out : List ℕ) (e : Error)
      → emit p draw dst f t meta payload d ≡ (f', out, some e)
      → (f' ≡ f) × (out ≡ dst)
  unfolding emit
  emit_keeps dst f t meta payload d f' out e h = ground arith

  -- On every error of `EncodeFrameAppend` the counter has not moved and `dst` is returned as it came.
  pub encode_frame_append_error :
      (dst : List ℕ) (f : FrameAead) (t : ℕ) (meta payload : List ℕ) (pad : ℤ) (f' : FrameAead)
      (out : List ℕ) (e : Error)
      → encode_frame_append p draw dst f t meta payload pad ≡ (f', out, some e)
      → (f' ≡ f) × (out ≡ dst)
  unfolding encode_frame_append
  encode_frame_append_error dst f t meta payload pad f' out e h =
      ground (arith, emit_keeps dst f t meta payload (pos_part pad) f' out e)

  emit_total :
      NeverFails draw
      → (dst : List ℕ) (f : FrameAead) (t : ℕ) (meta payload : List ℕ) (d : ℕ)
      → (emit p draw dst f t meta payload d).2 ≡ none
  unfolding emit
  emit_total works dst f t meta payload d = let (b, e) = works d in ground (arith, e)

  -- With a working crypto/rand, `EncodeFrameAppend` succeeds exactly on the frames that are within the
  -- limits: a known type, meta of at most 1024 bytes, padding of at most 4096 (a negative length
  -- counts as 0) and a FrameLen of at most 65536.
  pub encode_frame_append_ok_iff :
      NeverFails draw
      → (dst : List ℕ) (f : FrameAead) (t : ℕ) (meta payload : List ℕ) (pad : ℤ)
      → ((encode_frame_append p draw dst f t meta payload pad).2 ≡ none)
        ↔ Fits t meta payload (pos_part pad)
  encode_frame_append_ok_iff works dst f t meta payload pad = (
    λ h.
        let r = encode_frame_append p draw dst f t meta payload pad in
        encode-Fits dst f t meta payload pad r.0 r.1 (λ i. (r.0, r.1, h i)),
    λ fits.
        rw (encode-eq-emit dst f t meta payload pad fits)
          (emit_total works dst f t meta payload (pos_part pad)),
  )

module _ (p : Primitives) (lawful : IsLawful p) (draw : Reader) (fills : FillsBuffer draw) where
  pub encode_inv :
      (dst : List ℕ) (f : FrameAead) (t : ℕ) (meta payload : List ℕ) (pad : ℤ) (f' : FrameAead)
      (out : List ℕ)
      → encode_frame_append p draw dst f t meta payload pad ≡ (f', out, none)
      → Emitted p dst f t meta payload (pos_part pad) f' out
  encode_inv dst f t meta payload pad f' out h =
      let fits = encode-Fits p draw dst f t meta payload pad f' out h in
      emit_inv p draw fills dst f t meta payload (pos_part pad) f' out fits
        (sym (encode-eq-emit p draw dst f t meta payload pad fits) ∙ h)

  -- A frame that is emitted adds its FrameLen and the four bytes of that number to `dst`, at most
  -- 65540 bytes, and moves the counter by one on 64 bits.
  pub length-encode_frame_append :
      (dst : List ℕ) (f : FrameAead) (t : ℕ) (meta payload : List ℕ) (pad : ℤ) (f' : FrameAead)
      (out : List ℕ)
      → encode_frame_append p draw dst f t meta payload pad ≡ (f', out, none)
      → (length out ≡ length dst + 4 + frame_length (length meta + length payload) (pos_part pad))
        × (length out ≤ length dst + 65540)
        × (f'.counter ≡ (f.counter + 1) % 2 ^ 64)
  length-encode_frame_append dst f t meta payload pad f' out h =
      let e = encode_inv dst f t meta payload pad f' out h in
      let size : length out
          ≡ length dst + 4 + frame_length (length meta + length payload) (pos_part pad) =
        ap length e.written
        ∙ omega (
          arith,
          e.pad_size,
          length-append dst (sealed p f t meta payload (pos_part pad) ++ e.pad),
          length-append (sealed p f t meta payload (pos_part pad)) e.pad,
          length-sealed p lawful f t meta payload (pos_part pad),
        ) in
      (size, omega (arith, size, e.fits.frame_fits), ap (λ (g : FrameAead). g.counter) e.advanced)
