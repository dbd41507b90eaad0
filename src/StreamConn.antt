-- ===== src/StreamConn.antt =====
-- streamConn of client.go: a byte stream on a SecureStream. The read mutex makes each Read one step.
pub mod Reads
pub mod Writes
pub mod Total
pub mod Transcript
pub mod Open
pub mod Stream
pub mod Close
mod Tests
use sing_ewp.Kdf.{max_frame_size}
use sing_ewp.Frame.{ping, pong, padding_only, tcp_data}
use sing_ewp.Crypto.{Primitives}
use sing_ewp.SecureStream.{SecureStream, send_tcp_data, SendEnv, recv_event}
use sing_ewp.Errors.{out_of_fuel, ok, Result, unexpected_frame, Error, err, eof}
use sing_ewp.Prelude.{
  Option, List, ◌==◌, [], not, some, ℕ, none, suc, ◌-◌, length, take, zero, ◌+◌, Bool, drop,
  if◌then◌else◌, ◌||◌, ◌∷◌, ◌++◌,
}

pub record StreamConn : Type 0 where
  pub stream : SecureStream
  -- the unread part of the last TCP payload
  pub read_buf : List ℕ

-- FramePaddingOnly, FramePing, FramePong
abbrev pub is_dropped : ℕ → Bool
is_dropped t = t == padding_only || t == ping || t == pong

-- The connection after a loop or a read, the messages that the transport has left, and the result.
abbrev pub Reading : Type 0 → Type 0
Reading R = StreamConn × List (List ℕ) × R

-- `copy` and what stays in the buffer.
abbrev pub take_bytes : ℕ → StreamConn → StreamConn × List ℕ
take_bytes n c = (record c { read_buf = drop n c.read_buf }, take n c.read_buf)

-- `MaxFrameSize - 256`
abbrev pub max_payload : ℕ
max_payload = max_frame_size - 256

module _ (p : Primitives) where
  -- The loop of Read, entered with an empty buffer: frames are received until one has bytes. The
  -- transport has these messages, then its end.
  unfoldable pub fill_buffer : List (List ℕ) → StreamConn → Reading (Option Error)
  fill_buffer [] c =
      let (s, r) = recv_event p (err eof) c.stream in
      (record c { stream = s }, [], elim r [ err e ↦ some e | ok _ ↦ none ])
  fill_buffer (m ∷ ms) c =
      let (s, r) = recv_event p (ok m) c.stream in
      let c' : StreamConn = record c { stream = s } in
      let again = fill_buffer ms c' in
      elim r [
        | err e ↦ (c', if c.stream.closed then m ∷ ms else ms, some e)
        | ok ev ↦
            if ev.type == tcp_data
            then (if length ev.payload == 0
                then again
                else (record c' { read_buf = ev.payload }, ms, none))
            else if is_dropped ev.type
            then again
            else (c', ms, some unexpected_frame)
      ]

  -- Read into a slice of `n` bytes.
  unfoldable pub read : ℕ → List (List ℕ) → StreamConn → Reading (Result (List ℕ))
  read n msgs c =
      if not (length c.read_buf == 0)
      then (let (c', bytes) = take_bytes n c in (c', msgs, ok bytes))
      else (let (c1, left, failure) = fill_buffer msgs c in
          elim failure [
            | some e ↦ (c1, left, err e)
            | none ↦ let (c', bytes) = take_bytes n c1 in (c', left, ok bytes)
          ])

  -- The loop of Write, on fuel: the messages that were sent, how many bytes they hold, and the error.
  -- The i-th chunk meets `env i`.
  unfoldable pub write_chunks :
      ℕ
      → ℕ
      → (ℕ → ℕ → SendEnv)
      → List ℕ
      → SecureStream
      → SecureStream × List (List ℕ) × ℕ × Option Error
  write_chunks fuel i env [] s = (s, [], 0, none)
  write_chunks zero i env (b ∷ bs) s = (s, [], 0, some out_of_fuel)
  write_chunks (suc fuel) i env (b ∷ bs) s =
      let chunk = take max_payload (b ∷ bs) in
      let (s', msgs, failure) = send_tcp_data p (env i) chunk s in
      let (s'', more, n, failure') = write_chunks fuel (suc i) env (drop max_payload (b ∷ bs)) s' in
      elim failure [
        | some e ↦ (s', msgs, 0, some e)
        | none ↦ (s'', msgs ++ more, length chunk + n, failure')
      ]

  -- Write. The fuel is enough, since no chunk is empty.
  unfoldable pub write_bytes :
      (ℕ → ℕ → SendEnv) → List ℕ → SecureStream → SecureStream × List (List ℕ) × ℕ × Option Error
  write_bytes env bytes s = write_chunks (length bytes) 0 env bytes s
