-- ===== src/Framer.antt =====
-- LengthFramer of client.go: messages on a byte stream, each after its length. The mutexes make each
-- call one step.
pub mod Order
mod Tests
use sing_ewp.Bytes.{put_uint32, uint32}
use sing_ewp.Kdf.{max_frame_size}
use sing_ewp.Errors.{Result, Error, frame_too_large, ok, err, transport}
use sing_ewp.Prelude.{List, [], some, length, take, none, ℕ, ◌++◌, if◌then◌else◌, ltb, Option}
use sing_ewp.Frame.{read_full}

-- `c.Write`: `none` where all is written, else how many bytes were before the error.
abbrev pub Writer : Type 0
Writer = List ℕ → Option ℕ

-- What is on the connection after a write, and the error.
unfoldable pub write : Writer → List ℕ → List ℕ → List ℕ × Option Error
write w b out = elim (w b) [ none ↦ (out ++ b, none) | some k ↦ (out ++ take k b, some transport) ]

unfoldable pub send_message : Writer → List ℕ → List ℕ → List ℕ × Option Error
send_message w msg out =
    if ltb max_frame_size (length msg)
    then (out, some frame_too_large)
    else (let (out', failure) = write w (put_uint32 (length msg)) out in
        elim failure [ some e ↦ (out', some e) | none ↦ write w msg out' ])

-- What the connection has left, and the message.
unfoldable pub read_message : List ℕ → List ℕ × Result (List ℕ)
read_message src = elim (read_full 4 src) [
  | err e ↦ ([], err e)
  | ok (hdr, src') ↦
      if ltb max_frame_size (uint32 hdr)
      then (src', err frame_too_large)
      else (elim (read_full (uint32 hdr) src') [
        | err e ↦ ([], err e)
        | ok (msg, rest) ↦ (rest, ok msg)
      ])
]
