-- ===== src/Frame/Integrity.antt =====
-- An accepted frame is the frame that the holder of the key seals under the same counter, and it is
-- accepted once.
use sing_ewp.Frame.Header.{put_header-parse_header}
use sing_ewp.Bytes.{IsBytes, IsByte}
use sing_ewp.Errors.{err, ok, counter_mismatch}
use sing_ewp.Prelude.{
  ◌+◌, ◌++◌, ◌≤◌, none, List, ◌≡◌, ◌-◌, length, arith, ℕ, ap, take-append-drop, length-take,
  All-prefix, length-append, append_assoc, ◌∙◌, sym, subst, ◌%◌, ◌≢◌, ◌^◌,
}
use sing_ewp.Frame.Encode.{Fits}
use sing_ewp.Crypto.{IsLawful, Primitives}
use sing_ewp.Frame.Accept.{Opened, decode_frame_inv, decode_frame_again, open_frame_inv}
use sing_ewp.Kdf.{max_frame_pad, max_frame_size, max_meta_len}
use sing_ewp.Frame.{
  body_len, frame_length, put_header, sealed, check_header, DecodedFrame, FrameHeader, advance,
  FrameAead, compose_nonce, parse_header, decode_frame, open_frame,
}

module _ (p : Primitives) (lawful : IsLawful p) where
  -- The input begins with the sealed frame that has the returned type, meta and payload, and with some
  -- padding, of which only the length is authentic.
  pub record Accepted (src : List ℕ) (f f' : FrameAead) (rest : List ℕ) (fr : DecodedFrame)
      : Type 0 where
    pub pad : List ℕ
    pub cut : src ≡ sealed p f fr.type fr.meta fr.payload (length pad) ++ (pad ++ rest)
    pub fits : Fits fr.type fr.meta fr.payload (length pad)
    pub in_order : fr.counter ≡ f.counter
    pub advanced : f' ≡ advance f

  -- The header's lengths are those of the frame.
  frame_sizes :
      (h : FrameHeader) (cipher plain pad : List ℕ)
      → check_header h ≡ none
      → length cipher ≡ body_len h - h.pad_len
      → length cipher ≡ length plain + 16
      → length pad ≡ h.pad_len
      → (h.frame_len ≡ frame_length (length plain) (length pad))
        × (h.frame_len ≤ max_frame_size)
        × (h.meta_len ≤ max_meta_len)
        × (h.pad_len ≤ max_frame_pad)
  unfolding check_header
  frame_sizes h cipher plain pad c hc hp hd =
      (ground arith, ground arith, ground arith, ground arith)

  sealed-Opened :
      (f f' : FrameAead) (hdr : List ℕ) (h : FrameHeader) (cipher pad : List ℕ) (fr : DecodedFrame)
      (o : Opened p f hdr h cipher f' fr)
      → h.frame_len ≡ frame_length (length o.plain) (length pad)
      → length pad ≡ h.pad_len
      → put_header h.frame_len h.counter h.type h.meta_len h.pad_len ≡ hdr
      → (sealed p f fr.type fr.meta fr.payload (length pad) ≡ hdr ++ cipher)
        × (fr.meta ++ fr.payload ≡ o.plain)
        × (length fr.meta ≡ h.meta_len)
        × (fr.type ≡ h.type)
        × (fr.counter ≡ h.counter)
  unfolding sealed
  sealed-Opened f f' hdr h cipher pad fr o hl hp eh =
      let joined : fr.meta ++ fr.payload ≡ o.plain =
        rw o.frame (take-append-drop h.meta_len o.plain) in
      let cut : length fr.meta ≡ h.meta_len =
        rw o.frame (omega (arith, length-take h.meta_len o.plain, o.splits)) in
      let kind : fr.type ≡ h.type = ap (λ (r : DecodedFrame). r.type) o.frame in
      let number : fr.counter ≡ h.counter = ap (λ (r : DecodedFrame). r.counter) o.frame in
      let same =
        lawful.seal-unseal f.key (compose_nonce f h.counter) cipher hdr o.plain o.authentic in
      let order = o.in_order in
      (rw (joined, cut, kind, hp, ← order, ← hp, ← hl, hp, eh, same), joined, cut, kind, number)

  -- A frame that `DecodeFrame` accepts is, but for the content of its padding, the one that the sender
  -- emits for the returned type, meta and payload under the receiver's key and counter: it is within
  -- the sender's limits, its counter is the next one, and the receiver's counter moves by one.
  pub decode_frame_accepts :
      (src : List ℕ) (f f' : FrameAead) (rest : List ℕ) (fr : DecodedFrame)
      → IsBytes src
      → decode_frame p src f ≡ (f', rest, ok fr)
      → Accepted src f f' rest fr
  decode_frame_accepts src f f' rest fr hb x =
      let w = decode_frame_inv p src f f' rest fr x in
      let h = parse_header w.hdr in
      let b = w.body in
      let o = open_frame_inv p f w.hdr h b.cipher f' fr b.opens in
      let bytes : IsBytes w.hdr = All-prefix IsByte w.hdr w.src' (subst IsBytes w.front hb) in
      let size : length b.cipher ≡ length o.plain + 16 =
        ap length (sym (lawful.seal-unseal _ _ b.cipher w.hdr o.plain o.authentic))
        ∙ lawful.seal_size _ _ o.plain w.hdr in
      let z = frame_sizes h b.cipher o.plain b.pad w.checked b.cipher_size size b.pad_size in
      let s =
        sealed-Opened f f' w.hdr h b.cipher b.pad fr o z.0 b.pad_size
          (put_header-parse_header w.hdr (w.hdr_size, bytes)) in
      record {
        pad = b.pad;
        cut =
            w.front
            ∙ (ap (λ (t : List ℕ). w.hdr ++ t) b.cut
                ∙ (sym (append_assoc w.hdr b.cipher (b.pad ++ rest))
                    ∙ ap (λ (t : List ℕ). t ++ (b.pad ++ rest)) (sym s.0)));
        fits = record {
          type = rw (s.3) o.known;
          meta_fits = omega (arith, s.2, z.2);
          pad_fits = omega (arith, z.3, b.pad_size);
          frame_fits = omega (arith, z.0, z.1, ap length s.1, length-append fr.meta fr.payload);
        };
        in_order = s.4 ∙ o.in_order;
        advanced = o.advanced;
      }

module _ (p : Primitives) where
  out_of_order :
      (f' : FrameAead) (hdr : List ℕ) (h : FrameHeader) (cipher : List ℕ)
      → h.counter ≢ f'.counter
      → open_frame p f' hdr h cipher ≡ (f', err counter_mismatch)
  unfolding open_frame
  out_of_order f' hdr h cipher n = ground arith

  -- An input whose frame was accepted is refused when it comes again, with a counter mismatch, and
  -- the receiver's counter stays.
  pub decode_frame_replay :
      (src : List ℕ) (f f' : FrameAead) (rest : List ℕ) (fr : DecodedFrame)
      → decode_frame p src f ≡ (f', rest, ok fr)
      → decode_frame p src f' ≡ (f', rest, err counter_mismatch)
  decode_frame_replay src f f' rest fr x =
      let w = decode_frame_inv p src f f' rest fr x in
      let o = open_frame_inv p f w.hdr (parse_header w.hdr) w.body.cipher f' fr w.body.opens in
      let moved : f'.counter ≡ (f.counter + 1) % 2 ^ 64 =
        ap (λ (g : FrameAead). g.counter) o.advanced in
      let same = o.in_order in
      rw (
        decode_frame_again p src f f' f' rest fr w,
        out_of_order f' w.hdr (parse_header w.hdr) w.body.cipher (omega arith),
      )
