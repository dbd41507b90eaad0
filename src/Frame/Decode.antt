-- ===== src/Frame/Decode.antt =====
-- `DecodeFrame` reads what `EncodeFrameAppend` wrote.
use sing_ewp.Frame.Encode.{Fits}
use sing_ewp.Errors.{ok}
use sing_ewp.Frame.Header.{parse_header-put_header, length-put_header}
use sing_ewp.Frame.{
  valid, compose_nonce, put_header, advance, DecodedFrame, open_frame, FrameHeader, check_header,
  decode_frame, frame_length, body_len, sealed, decode_body, FrameAead, max_frame_size,
}
use sing_ewp.Crypto.{IsLawful, Primitives}
use sing_ewp.Prelude.{
  refl, take-append, ◌<◌, List, ◌^◌, ℕ, ◌≤◌, none, ◌++◌, true, ◌-◌, length, length-append,
  append_assoc, drop-append, ◌≡◌, arith,
}
use sing_ewp.Frame.Read.{read_full-append, discard-append}

module _ (p : Primitives) (lawful : IsLawful p) where
  -- The frame that the receiver of the counter returns.
  abbrev pub received : FrameAead → ℕ → List ℕ → List ℕ → DecodedFrame
  received f t meta payload = record {
    counter = f.counter;
    type = t;
    meta = meta;
    payload = payload;
  }

  abbrev header_of : FrameAead → ℕ → List ℕ → List ℕ → ℕ → FrameHeader
  header_of f t meta payload d = record {
    frame_len = frame_length (length (meta ++ payload)) d;
    counter = f.counter;
    type = t;
    meta_len = length meta;
    pad_len = d;
  }

  open-seal :
      (f : FrameAead) (t : ℕ) (meta payload hdr : List ℕ) (d : ℕ)
      → valid t ≡ true
      → open_frame p f hdr
          (header_of f t meta payload d)
          (p.seal f.key (compose_nonce f f.counter) (meta ++ payload) hdr)
        ≡ (advance f, ok (received f t meta payload))
  unfolding open_frame
  open-seal f t meta payload hdr d h = ground (
    arith,
    lawful.unseal-seal f.key (compose_nonce f f.counter) (meta ++ payload) hdr,
    length-append meta payload,
    take-append (length meta) meta payload refl,
    drop-append (length meta) meta payload refl,
  )

  check-header_of :
      (f : FrameAead) (t : ℕ) (meta payload : List ℕ) (d : ℕ)
      → Fits t meta payload d
      → check_header (header_of f t meta payload d) ≡ none
  unfolding check_header
  check-header_of f t meta payload d fits =
      ground (arith, length-append meta payload, fits.meta_fits, fits.pad_fits, fits.frame_fits)

  decode_body-sealed :
      (f : FrameAead) (t : ℕ) (meta payload hdr pad rest : List ℕ) (d : ℕ)
      → valid t ≡ true
      → length pad ≡ d
      → decode_body p f hdr
          (header_of f t meta payload d)
          (p.seal f.key (compose_nonce f f.counter) (meta ++ payload) hdr ++ (pad ++ rest))
        ≡ (advance f, rest, ok (received f t meta payload))
  unfolding decode_body
  decode_body-sealed f t meta payload hdr pad rest d h hd =
      let c = p.seal f.key (compose_nonce f f.counter) (meta ++ payload) hdr in
      let n = body_len (header_of f t meta payload d) - d in
      let size : length c ≡ n =
        omega (arith, lawful.seal_size f.key (compose_nonce f f.counter) (meta ++ payload) hdr) in
      ground (
        arith,
        read_full-append n c (pad ++ rest) size,
        discard-append d pad rest hd,
        open-seal f t meta payload hdr d h,
      )

  -- A sealed frame with its padding is read whole and opened, whatever follows it.
  pub decode_frame-sealed :
      (f : FrameAead) (t : ℕ) (meta payload pad rest : List ℕ) (d : ℕ)
      → Fits t meta payload d
      → f.counter < 2 ^ 64
      → length pad ≡ d
      → decode_frame p (sealed p f t meta payload d ++ (pad ++ rest)) f
        ≡ (advance f, rest, ok (received f t meta payload))
  unfolding decode_frame sealed
  decode_frame-sealed f t meta payload pad rest d fits hc hd =
      let plain = meta ++ payload in
      let l = frame_length (length plain) d in
      let hdr = put_header l f.counter t (length meta) d in
      let c = p.seal f.key (compose_nonce f f.counter) plain hdr in
      let hl : l ≤ max_frame_size = omega (arith, length-append meta payload, fits.frame_fits) in
      rw (append_assoc hdr c (pad ++ rest)) (
        ground (
          arith,
          read_full-append 17 hdr (c ++ (pad ++ rest))
              (length-put_header l f.counter t (length meta) d),
          parse_header-put_header l f.counter t (length meta) d (omega arith) hc
              (omega (arith, fits.meta_fits)) (omega (arith, fits.pad_fits)),
          check-header_of f t meta payload d fits,
          decode_body-sealed f t meta payload hdr pad rest d fits.type hd,
        ))
