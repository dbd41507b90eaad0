-- ===== src/Frame/Accept.antt =====
-- What `DecodeFrame` accepts, and what it leaves alone when it refuses.
use sing_ewp.Frame.Read.{read_full_inv, discard_inv, discard-append, read_full-append}
use sing_ewp.Crypto.{Primitives}
use sing_ewp.Errors.{ok, Result-cases, err, Error}
use sing_ewp.Frame.{
  compose_nonce, DecodedFrame, open_frame, advance, valid, FrameHeader, body_len, FrameAead,
  decode_body, read_full, discard, decode_frame, frame_header_size, parse_header, check_header,
}
use sing_ewp.Prelude.{
  Option-cases, take, List, drop, ◌++◌, inl, length, true, ℕ, ◌≤◌, ◌-◌, arith, some, inr, ◌≡◌, ◌∙◌,
  sym, none,
}

module _ (p : Primitives) where
  -- What a frame that is opened says of its header and its ciphertext.
  pub record Opened (f : FrameAead) (hdr : List ℕ) (h : FrameHeader) (cipher : List ℕ)
      (f' : FrameAead) (fr : DecodedFrame) : Type 0 where
    pub in_order : h.counter ≡ f.counter
    pub known : valid h.type ≡ true
    pub advanced : f' ≡ advance f
    pub plain : List ℕ
    pub authentic : p.unseal f.key (compose_nonce f h.counter) cipher hdr ≡ some plain
    pub splits : h.meta_len ≤ length plain
    pub frame : fr ≡ record {
      counter = h.counter;
      type = h.type;
      meta = take h.meta_len plain;
      payload = drop h.meta_len plain;
    }

  pub open_frame_inv :
      (f : FrameAead) (hdr : List ℕ) (h : FrameHeader) (cipher : List ℕ) (f' : FrameAead)
      (fr : DecodedFrame)
      → open_frame p f hdr h cipher ≡ (f', ok fr)
      → Opened f hdr h cipher f' fr
  unfolding open_frame
  open_frame_inv f hdr h cipher f' fr e =
      elim (Option-cases (p.unseal f.key (compose_nonce f h.counter) cipher hdr)) [
        | inl x ↦ absurd (ground arith)
        | inr (plain, x) ↦ record {
          in_order = ground arith;
          known = ground arith;
          advanced = ground arith;
          plain = plain;
          authentic = x;
          splits = ground arith;
          frame = ground arith;
        }
      ]

  open_frame_error :
      (f : FrameAead) (hdr : List ℕ) (h : FrameHeader) (cipher : List ℕ) (f' : FrameAead)
      (e : Error)
      → open_frame p f hdr h cipher ≡ (f', err e)
      → f' ≡ f
  unfolding open_frame
  open_frame_error f hdr h cipher f' e x = ground arith

  -- The reads of a body that is decoded.
  pub record Body (f : FrameAead) (hdr : List ℕ) (h : FrameHeader) (src : List ℕ) (f' : FrameAead)
      (rest : List ℕ) (fr : DecodedFrame) : Type 0 where
    pub cipher : List ℕ
    pub pad : List ℕ
    pub cut : src ≡ cipher ++ (pad ++ rest)
    pub cipher_size : length cipher ≡ body_len h - h.pad_len
    pub pad_size : length pad ≡ h.pad_len
    pub opens : open_frame p f hdr h cipher ≡ (f', ok fr)

  decode_body_step :
      (f : FrameAead) (hdr : List ℕ) (h : FrameHeader) (src cipher src' rest : List ℕ)
      → read_full (body_len h - h.pad_len) src ≡ ok (cipher, src')
      → discard h.pad_len src' ≡ ok rest
      → decode_body p f hdr h src
        ≡ ((open_frame p f hdr h cipher).0, rest, (open_frame p f hdr h cipher).1)
  unfolding decode_body
  decode_body_step f hdr h src cipher src' rest r d = ground arith

  decode_body_inv :
      (f : FrameAead) (hdr : List ℕ) (h : FrameHeader) (src : List ℕ) (f' : FrameAead)
      (rest : List ℕ) (fr : DecodedFrame)
      → decode_body p f hdr h src ≡ (f', rest, ok fr)
      → Body f hdr h src f' rest fr
  decode_body_inv f hdr h src f' rest fr e =
      elim (Result-cases (read_full (body_len h - h.pad_len) src)) [
        | inr (x, r) ↦ absurd (unfold decode_body in ground arith)
        | inl ((cipher, src'), r) ↦ elim (Result-cases (discard h.pad_len src')) [
          | inr (x, d) ↦ absurd (unfold decode_body in ground arith)
          | inl (rest', d) ↦
              let step = sym (decode_body_step f hdr h src cipher src' rest' r d) ∙ e in
              let read = read_full_inv (body_len h - h.pad_len) src cipher src' r in
              let skip = discard_inv h.pad_len src' rest' d in
              record {
                cipher = cipher;
                pad = take h.pad_len src';
                cut = ground arith;
                cipher_size = read.1;
                pad_size = skip.1;
                opens = ground arith;
              }
        ]
      ]

  decode_body_error :
      (f : FrameAead) (hdr : List ℕ) (h : FrameHeader) (src : List ℕ) (f' : FrameAead)
      (rest : List ℕ) (e : Error)
      → decode_body p f hdr h src ≡ (f', rest, err e)
      → f' ≡ f
  unfolding decode_body
  decode_body_error f hdr h src f' rest e x =
      elim (Result-cases (read_full (body_len h - h.pad_len) src)) [
        | inr (y, r) ↦ ground arith
        | inl ((cipher, src'), r) ↦ elim (Result-cases (discard h.pad_len src')) [
          | inr (y, d) ↦ ground arith
          | inl (rest', d) ↦ ground (
            arith,
            Result-cases (open_frame p f hdr h cipher).1,
            open_frame_error f hdr h cipher f' e,
          )
        ]
      ]

  -- A frame that is refused leaves the counter where it was.
  pub decode_frame_error :
      (src : List ℕ) (f f' : FrameAead) (rest : List ℕ) (e : Error)
      → decode_frame p src f ≡ (f', rest, err e)
      → f' ≡ f
  unfolding decode_frame
  decode_frame_error src f f' rest e x = elim (Result-cases (read_full frame_header_size src)) [
    | inr (y, r) ↦ ground arith
    | inl ((hdr, src'), r) ↦
        ground (arith, decode_body_error f hdr (parse_header hdr) src' f' rest e)
  ]

  -- A frame that is accepted: its header, which passed the checks, and its body.
  pub record Whole (src : List ℕ) (f f' : FrameAead) (rest : List ℕ) (fr : DecodedFrame)
      : Type 0 where
    pub hdr : List ℕ
    pub src' : List ℕ
    pub front : src ≡ hdr ++ src'
    pub hdr_size : length hdr ≡ 17
    pub checked : check_header (parse_header hdr) ≡ none
    pub body : Body f hdr (parse_header hdr) src' f' rest fr

  pub decode_frame_inv :
      (src : List ℕ) (f f' : FrameAead) (rest : List ℕ) (fr : DecodedFrame)
      → decode_frame p src f ≡ (f', rest, ok fr)
      → Whole src f f' rest fr
  decode_frame_inv src f f' rest fr x = elim (Result-cases (read_full frame_header_size src)) [
    | inr (y, r) ↦ absurd (unfold decode_frame in ground arith)
    | inl ((hdr, src'), r) ↦
        let read = read_full_inv frame_header_size src hdr src' r in
        let pass : check_header (parse_header hdr) ≡ none = unfold decode_frame in ground arith in
        record {
          hdr = hdr;
          src' = src';
          front = read.0;
          hdr_size = read.1;
          checked = pass;
          body =
              decode_body_inv f hdr (parse_header hdr) src' f' rest fr
                (unfold decode_frame in ground arith);
        }
  ]

  -- An input that was accepted is read the same way in any other state.
  pub decode_frame_again :
      (src : List ℕ) (f f' g : FrameAead) (rest : List ℕ) (fr : DecodedFrame)
      (w : Whole src f f' rest fr)
      → let r = open_frame p g w.hdr (parse_header w.hdr) w.body.cipher in
        decode_frame p src g ≡ (r.0, rest, r.1)
  unfolding decode_frame
  decode_frame_again src f f' g rest fr w =
      let b = w.body in
      let h = parse_header w.hdr in
      let step =
        decode_body_step g w.hdr h w.src' b.cipher (b.pad ++ rest) rest
          (rw b.cut
            (read_full-append (body_len h - h.pad_len) b.cipher (b.pad ++ rest) b.cipher_size))
          (discard-append h.pad_len b.pad rest b.pad_size) in
      let start : read_full frame_header_size src ≡ ok (w.hdr, w.src') =
        rw w.front (read_full-append frame_header_size w.hdr w.src' w.hdr_size) in
      ground (arith, start, w.checked, step)
