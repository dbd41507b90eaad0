-- ===== src/Frame/Tests.antt =====
-- Runs of the frame codec with the concrete primitives.
use sing_ewp.Frame.Writer.{
  numbered, encode_frames, Outgoing, decode_frames, decode_frames-encode_frames, encode_frame,
}
use sing_ewp.Bytes.{
  small-IsBytes, IsBytes, put_uint16, put_uint32, uint16, uint64, put_uint64, uint32, byte_at,
}
use sing_ewp.Frame.Integrity.{decode_frame_accepts, decode_frame_replay, Accepted}
use sing_ewp.Errors.{rand, ok, err, counter_mismatch, Error}
use sing_ewp.Frame.Encode.{encode_frame_append_ok_iff, Fits}
use sing_ewp.Crypto.Random.{zeros, zeros-FillsBuffer, broken, zeros-NeverFails}
use sing_ewp.Crypto.Toy.{toy, toy-IsLawful, tag, checksum}
use sing_ewp.Prelude.Int.{pos}
use sing_ewp.Prelude.{
  none, ◌∷◌, [], List, ℕ, ◌≡◌, refl, ◌++◌, ◌↔◌, arith, some, replicate, drop, take, bytes_eq, true,
  ap, Option,
}
use sing_ewp.Frame.{
  encode_frame_append, FrameAead, tcp_data, emit, advance, new_frame_aead, decode_frame, valid,
  read_full, put_header, parse_header, discard, sealed, decode_body, open_frame, check_header, ping,
}

abbrev start : FrameAead
start = new_frame_aead [] (1 ∷ 2 ∷ 3 ∷ 4 ∷ [])

abbrev payload_1 : List ℕ
payload_1 = 104 ∷ 105 ∷ []

-- One TCPData frame with two bytes of padding, as the model writes it.
abbrev frame_1 : List ℕ
frame_1 = (encode_frame_append toy zeros [] start tcp_data [] payload_1 (pos 2)).1

frame_1-encoded :
    encode_frame_append toy zeros [] start tcp_data [] payload_1 (pos 2)
    ≡ (advance start, frame_1, none)
unfolding encode_frame_append emit valid
frame_1-encoded = refl

frame_1-decoded : decode_frame toy (frame_1 ++ (9 ∷ [])) start ≡ (
  advance start,
  9 ∷ [],
  ok (record { counter = 0; type = tcp_data; meta = []; payload = payload_1 }),
)
unfolding decode_frame read_full encode_frame_append valid emit sealed put_header put_uint32
    put_uint64 put_uint16 tag replicate checksum check_header parse_header uint32 take uint16
    byte_at uint64 decode_body discard open_frame drop bytes_eq
frame_1-decoded = refl

frame_1-IsBytes : IsBytes (frame_1 ++ (9 ∷ []))
unfolding encode_frame_append valid emit sealed put_header put_uint32 put_uint64 put_uint16 tag
    replicate checksum
frame_1-IsBytes = small-IsBytes (frame_1 ++ (9 ∷ [])) refl

decode_frame_accepts_example :
    Accepted toy toy-IsLawful
      (frame_1 ++ (9 ∷ []))
      start
      (advance start)
      (9 ∷ [])
      (record { counter = 0; type = tcp_data; meta = []; payload = payload_1 })
decode_frame_accepts_example =
    decode_frame_accepts toy toy-IsLawful (frame_1 ++ (9 ∷ [])) start (advance start) (9 ∷ [])
      (record { counter = 0; type = tcp_data; meta = []; payload = payload_1 }) frame_1-IsBytes
      frame_1-decoded

decode_frame_replay_example :
    decode_frame toy (frame_1 ++ (9 ∷ [])) (advance start)
    ≡ (advance start, 9 ∷ [], err counter_mismatch)
decode_frame_replay_example =
    decode_frame_replay toy (frame_1 ++ (9 ∷ [])) start (advance start) (9 ∷ [])
      (record { counter = 0; type = tcp_data; meta = []; payload = payload_1 }) frame_1-decoded

-- Two frames on a byte stream.
abbrev two_frames : List Outgoing
two_frames =
    record { fill = zeros; type = tcp_data; meta = []; payload = payload_1; pad = pos 2 }
    ∷ record { fill = zeros; type = ping; meta = []; payload = 7 ∷ []; pad = pos 0 }
    ∷ []

abbrev on_stream : FrameAead × List ℕ × Option Error
on_stream = encode_frames toy (λ _. true) two_frames start

on_stream-ok : on_stream.2 ≡ none
unfolding encode_frames encode_frame encode_frame_append valid emit
on_stream-ok = refl

decode_frames-encode_frames_example :
    decode_frames toy 2 (on_stream.1 ++ (9 ∷ [])) start
    ≡ (on_stream.0, 9 ∷ [], ok (numbered 0 two_frames))
decode_frames-encode_frames_example =
    decode_frames-encode_frames toy toy-IsLawful (λ _. true) two_frames start on_stream.0
      on_stream.1 (9 ∷ []) (zeros-FillsBuffer, (zeros-FillsBuffer, tt)) (omega arith)
      (ap (λ (e : Option Error). (on_stream.0, on_stream.1, e)) on_stream-ok)

encode_frame_append_ok_iff_example :
    ((encode_frame_append toy zeros [] start tcp_data [] payload_1 (pos 2)).2 ≡ none)
    ↔ Fits tcp_data [] payload_1 2
encode_frame_append_ok_iff_example =
    encode_frame_append_ok_iff toy zeros zeros-NeverFails [] start tcp_data [] payload_1 (pos 2)

abbrev dst_1 : List ℕ
dst_1 = 7 ∷ []

rand_fails :
    encode_frame_append toy broken (7 ∷ []) start tcp_data [] payload_1 (pos 2)
    ≡ (start, 7 ∷ [], some rand)
unfolding encode_frame_append emit valid
rand_fails = refl
