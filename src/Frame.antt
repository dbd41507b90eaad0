-- ===== src/Frame.antt =====
-- frame.go: one frame of the stream, encrypted under a running counter.
mod Types
pub use Types.{
  tcp_data, udp_data, udp_new, udp_end, udp_probe_req, udp_probe_resp, ping, pong, rekey_req,
  rekey_resp, padding_only,
}
unfoldable pub use Types.{valid}
pub mod Header
pub mod PadLen
pub mod Read
pub mod Encode
pub mod Decode
pub mod Accept
pub mod Integrity
pub mod RoundTrip
pub mod Writer
mod Tests
use sing_ewp.Prelude.{
  ℕ, ◌+◌, ◌-◌, ◌*◌, ◌%◌, ◌^◌, Bool, true, false, ◌||◌, not, Option, none, some, List, [], ◌∷◌, ◌++◌,
  length, take, drop, ltb, leb, ◌==◌, if◌then◌else◌,
}
use sing_ewp.Prelude.Int.{ℤ, pos_part}
use sing_ewp.Bytes.{put_uint16, put_uint32, put_uint64, uint16, uint32, uint64, byte_at}
use sing_ewp.Errors.{
  Error, Result, ok, err, frame_type, meta_too_large, pad_too_large, frame_too_large,
  frame_too_short, rand, eof, unexpected_eof, counter_mismatch, aead_open,
}
use sing_ewp.Crypto.{Primitives}
use sing_ewp.Crypto.Random.{Reader}
use sing_ewp.Kdf.{max_meta_len, max_frame_pad, max_frame_size}

abbrev pub frame_header_size : ℕ
frame_header_size = 17

abbrev pub aead_tag_len : ℕ
aead_tag_len = 16

-- One direction: the key, the first four bytes of each nonce, and the next counter.
pub record FrameAead : Type 0 where
  pub key : List ℕ
  pub prefix : List ℕ
  pub counter : ℕ

abbrev pub new_frame_aead : List ℕ → List ℕ → FrameAead
new_frame_aead key prefix = record { key = key; prefix = prefix; counter = 0 }

-- `f.counter = counter + 1`, on a uint64
abbrev pub advance : FrameAead → FrameAead
advance f = record f { counter = (f.counter + 1) % 2 ^ 64 }

abbrev pub compose_nonce : FrameAead → ℕ → List ℕ
compose_nonce f counter = f.prefix ++ put_uint64 counter

-- FrameLen, which does not count its own four bytes.
abbrev pub frame_length : ℕ → ℕ → ℕ
frame_length plain_len pad_len = 13 + (plain_len + aead_tag_len) + pad_len

-- The header, which is also the additional data of the AEAD.
unfoldable pub put_header : ℕ → ℕ → ℕ → ℕ → ℕ → List ℕ
put_header frame_len counter t meta_len pad_len =
    put_uint32 frame_len
    ++ (put_uint64 counter ++ (t ∷ (put_uint16 meta_len ++ put_uint16 pad_len)))

module _ (p : Primitives) where
  -- The part of a frame before its padding.
  unfoldable pub sealed : FrameAead → ℕ → List ℕ → List ℕ → ℕ → List ℕ
  sealed f t meta payload pad_len =
      let plain = meta ++ payload in
      let hdr =
        put_header (frame_length (length plain) pad_len) f.counter t (length meta) pad_len in
      hdr ++ p.seal f.key (compose_nonce f f.counter) plain hdr

  -- EncodeFrameAppend, from the guards on. The state, `dst` with the frame added, and the error; on
  -- an error both are as they were. `draw` fills the padding.
  unfoldable pub emit :
      Reader → List ℕ → FrameAead → ℕ → List ℕ → List ℕ → ℕ → FrameAead × List ℕ × Option Error
  emit draw dst f t meta payload pad_len =
      let body = sealed f t meta payload pad_len in
      if ltb 0 pad_len
      then (elim (draw pad_len) [
        | none ↦ (f, dst, some rand)
        | some pad ↦ (advance f, dst ++ (body ++ pad), none)
      ])
      else (advance f, dst ++ body, none)

  unfoldable pub encode_frame_append :
      Reader → List ℕ → FrameAead → ℕ → List ℕ → List ℕ → ℤ → FrameAead × List ℕ × Option Error
  encode_frame_append draw dst f t meta payload pad =
      let pad_len = pos_part pad in
      if not (valid t)
      then (f, dst, some frame_type)
      else if ltb max_meta_len (length meta)
      then (f, dst, some meta_too_large)
      else if ltb max_frame_pad pad_len
      then (f, dst, some pad_too_large)
      else if ltb max_frame_size (frame_length (length meta + length payload) pad_len)
      then (f, dst, some frame_too_large)
      else emit draw dst f t meta payload pad_len

-- io.ReadFull on a reader that holds `src`, as `bytes.Reader` does: the bytes and the rest.
unfoldable pub read_full : ℕ → List ℕ → Result (List ℕ × List ℕ)
read_full n src =
    if leb n (length src)
    then ok (take n src, drop n src)
    else if length src == 0
    then err eof
    else err unexpected_eof

-- io.CopyN to io.Discard, where the pad length is not 0: what is left.
unfoldable pub discard : ℕ → List ℕ → Result (List ℕ)
discard n src =
    if ltb 0 n then (if leb n (length src) then ok (drop n src) else err eof) else ok src

pub record DecodedFrame : Type 0 where
  pub counter : ℕ
  pub type : ℕ
  pub meta : List ℕ
  pub payload : List ℕ

-- The fields of the header that the receiver reads, and the header's bytes.
pub record FrameHeader : Type 0 where
  pub frame_len : ℕ
  pub counter : ℕ
  pub type : ℕ
  pub meta_len : ℕ
  pub pad_len : ℕ

unfoldable pub parse_header : List ℕ → FrameHeader
unfolding byte_at
parse_header hdr = record {
  frame_len = uint32 (take 4 hdr);
  counter = uint64 (take 8 (drop 4 hdr));
  type = byte_at 12 hdr;
  meta_len = uint16 (take 2 (drop 13 hdr));
  pad_len = uint16 (take 2 (drop 15 hdr));
}

-- bodyLen. Go's difference is negative below 13 and this one is 0; both are less than the 16 bytes
-- of the tag, so the frame is refused as too short either way.
abbrev pub body_len : FrameHeader → ℕ
body_len h = h.frame_len - 13

-- The checks on the header before the body is read.
unfoldable pub check_header : FrameHeader → Option Error
check_header h =
    if ltb max_frame_size h.frame_len
    then some frame_too_large
    else if ltb max_meta_len h.meta_len
    then some meta_too_large
    else if ltb max_frame_pad h.pad_len
    then some pad_too_large
    else if ltb (body_len h) (h.pad_len + aead_tag_len + h.meta_len)
    then some frame_too_short
    else none

module _ (p : Primitives) where
  -- The frame is read whole: counter, type, authentication, and the split of the plaintext.
  unfoldable pub open_frame :
      FrameAead → List ℕ → FrameHeader → List ℕ → FrameAead × Result DecodedFrame
  open_frame f hdr h cipher =
      if not (h.counter == f.counter)
      then (f, err counter_mismatch)
      else if not (valid h.type)
      then (f, err frame_type)
      else (elim (p.unseal f.key (compose_nonce f h.counter) cipher hdr) [
        | none ↦ (f, err aead_open)
        | some plain ↦ if ltb (length plain) h.meta_len then (f, err frame_too_short) else (
          advance f,
          ok (record {
            counter = h.counter;
            type = h.type;
            meta = take h.meta_len plain;
            payload = drop h.meta_len plain;
          }),
        )
      ])

  -- The body and the padding are read, then the frame is opened. A read that fails leaves nothing.
  unfoldable pub decode_body :
      FrameAead → List ℕ → FrameHeader → List ℕ → FrameAead × List ℕ × Result DecodedFrame
  decode_body f hdr h src = elim (read_full (body_len h - h.pad_len) src) [
    | err e ↦ (f, [], err e)
    | ok (cipher, src') ↦ elim (discard h.pad_len src') [
      | err e ↦ (f, [], err e)
      | ok rest ↦ let (f', r) = open_frame f hdr h cipher in (f', rest, r)
    ]
  ]

  -- DecodeFrame: the state, what the reader has left, and the frame or the error.
  unfoldable pub decode_frame : List ℕ → FrameAead → FrameAead × List ℕ × Result DecodedFrame
  decode_frame src f = elim (read_full frame_header_size src) [
    | err e ↦ (f, [], err e)
    | ok (hdr, src') ↦ elim (check_header (parse_header hdr)) [
      | some e ↦ (f, src', err e)
      | none ↦ decode_body f hdr (parse_header hdr) src'
    ]
  ]
