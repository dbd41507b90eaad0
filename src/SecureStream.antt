-- ===== src/SecureStream.antt =====
-- securestream.go: the encrypted channel after the handshake, over a transport of whole messages. The
-- write mutex makes each send one step.
pub mod UdpMeta
mod Events
pub use Events.{Event, bare_event, carries_address, carries_id, carries_nothing}
unfoldable pub use Events.{event_of}
pub mod Delivery
pub mod Datagrams
pub mod Tcp
pub mod Total
pub mod Back
pub mod Lifecycle
mod Tests
use sing_ewp.Crypto.{Primitives}
use sing_ewp.Prelude.Int.{negsuc, ℤ, pos}
use sing_ewp.SecureStream.UdpMeta.{build_udp_meta, parse_udp_meta}
use sing_ewp.Kdf.{SessionKeys}
use sing_ewp.Crypto.Random.{Reader}
use sing_ewp.Address.{Address, zero_address}
use sing_ewp.PaddingPolicy.{secure_rand_intn, suggest_stream_pad}
use sing_ewp.Frame.{
  udp_end, rekey_resp, frame_header_size, udp_probe_resp, FrameAead, DecodedFrame, tcp_data,
  aead_tag_len, udp_new, udp_probe_req, new_frame_aead, encode_frame_append, ping, decode_frame,
  padding_only, pong, udp_data, rekey_req,
}
use sing_ewp.Errors.{
  out_of_fuel, Result, Error, udp_meta_short, transport, frame_type, err, ok, closed_pipe,
}
use sing_ewp.Prelude.{
  replicate, some, ◌==◌, if◌then◌else◌, ◌%◌, ltb, zero, drop, ◌+◌, ◌||◌, [], false, length, none,
  Option, List, true, suc, min, ◌^◌, Bool, ◌-◌, take, ℕ, leb, ◌++◌, ◌∷◌,
}

-- `reshapeThreshold`, `reshapeMin`, `reshapeMax`
abbrev pub reshape_threshold : ℕ
reshape_threshold = 8192

abbrev pub reshape_min : ℕ
reshape_min = 4096

abbrev pub reshape_max : ℕ
reshape_max = 12288

-- The fields that an operation reads or writes. The send buffer only saves allocations, and the
-- fields of the cover loop are not read elsewhere.
pub record SecureStream : Type 0 where
  pub send : FrameAead
  pub recv : FrameAead
  pub last_send : ℕ
  pub closed : Bool
  pub bytes_in : ℕ
  pub bytes_out : ℕ
  pub frames_in : ℕ
  pub frames_out : ℕ

abbrev pub new_stream : FrameAead → FrameAead → SecureStream
new_stream send recv = record {
  send = send;
  recv = recv;
  last_send = 0;
  closed = false;
  bytes_in = 0;
  bytes_out = 0;
  frames_in = 0;
  frames_out = 0;
}

-- NewClientSecureStream and NewServerSecureStream
abbrev pub new_client_stream : SessionKeys → SecureStream
new_client_stream keys =
    new_stream (new_frame_aead keys.c2s_key keys.c2s_nonce)
      (new_frame_aead keys.s2c_key keys.s2c_nonce)

abbrev pub new_server_stream : SessionKeys → SecureStream
new_server_stream keys =
    new_stream (new_frame_aead keys.s2c_key keys.s2c_nonce)
      (new_frame_aead keys.c2s_key keys.c2s_nonce)

-- Close and closeUnderlying. The transport is closed with it, once.
abbrev pub close : SecureStream → SecureStream
close s = record s { closed = true }

-- Stats
abbrev pub stats : SecureStream → ℕ × ℕ × ℕ × ℕ
stats s = (s.bytes_in, s.bytes_out, s.frames_in, s.frames_out)

-- What one send meets: the draws of the chunk size, of the padding length and of the padding, the
-- clock, and whether the transport takes the message.
pub record SendEnv : Type 0 where
  pub cut : Reader
  pub pick : Reader
  pub fill : Reader
  pub now : ℕ
  pub delivers : List ℕ → Bool

-- A send: the stream after it, the messages that the transport took, and the error.
abbrev pub Sent : Type 0
Sent = SecureStream × List (List ℕ) × Option Error

-- `int(s.frmOut.Load())`, of which only the order to 16 is asked: it is negative from 2^63 on.
abbrev pub phase_index : ℕ → ℕ
phase_index n = if ltb n (2 ^ 63) then n else 0

-- `if padLen < 0 { padLen = suggestStreamPad(…) }`
unfoldable pub choose_pad : SendEnv → SecureStream → ℕ → ℤ → ℤ
choose_pad env s raw_wire (pos n) = pos n
choose_pad env s raw_wire (negsuc n) =
    pos (suggest_stream_pad env.pick raw_wire (phase_index s.frames_out))

-- The bookkeeping after SendMessage.
abbrev pub count_sent : SendEnv → ℕ → List ℕ → SecureStream → SecureStream
count_sent env t wire s = record s {
  bytes_out = (s.bytes_out + length wire) % 2 ^ 64;
  frames_out = (s.frames_out + 1) % 2 ^ 64;
  last_send = if t == padding_only then s.last_send else env.now;
}

module _ (p : Primitives) where
  -- From SendMessage on, for a frame that was encoded.
  unfoldable pub transmit : SendEnv → ℕ → List ℕ → SecureStream → Sent
  transmit env t wire s =
      if env.delivers wire
      then (count_sent env t wire s, wire ∷ [], none)
      else (close s, [], some transport)

  unfoldable pub send_frame : SendEnv → ℕ → List ℕ → List ℕ → ℤ → SecureStream → Sent
  send_frame env t meta payload pad s =
      if s.closed
      then (s, [], some closed_pipe)
      else (let raw_wire = frame_header_size + length meta + length payload + aead_tag_len in
          let pad' = choose_pad env s raw_wire pad in
          let (f, wire, failure) = encode_frame_append p env.fill [] s.send t meta payload pad' in
          elim failure [
            | some e ↦ (record s { send = f }, [], some e)
            | none ↦ transmit env t wire (record s { send = f })
          ])

  -- SendPing, SendPong and SendCoverPad
  abbrev pub send_ping : SendEnv → List ℕ → SecureStream → Sent
  send_ping env cookie = send_frame env ping [] cookie (negsuc 0)

  abbrev pub send_pong : SendEnv → List ℕ → SecureStream → Sent
  send_pong env cookie = send_frame env pong [] cookie (negsuc 0)

  abbrev pub send_cover_pad : SendEnv → ℤ → SecureStream → Sent
  send_cover_pad env pad_len = send_frame env padding_only [] [] pad_len

  -- A send whose meta is built first.
  abbrev pub send_with_meta : SendEnv → ℕ → Result (List ℕ) → List ℕ → SecureStream → Sent
  send_with_meta env t (err e) payload s = (s, [], some e)
  send_with_meta env t (ok meta) payload s = send_frame env t meta payload (negsuc 0) s

  abbrev pub send_udp_new : SendEnv → List ℕ → Address → List ℕ → SecureStream → Sent
  send_udp_new env gid target initial =
      send_with_meta env udp_new (build_udp_meta gid target) initial

  abbrev pub send_udp_data : SendEnv → List ℕ → Address → List ℕ → SecureStream → Sent
  send_udp_data env gid target payload =
      send_with_meta env udp_data (build_udp_meta gid target) payload

  abbrev pub send_udp_end : SendEnv → List ℕ → SecureStream → Sent
  send_udp_end env gid = send_frame env udp_end gid [] (negsuc 0)

  abbrev pub send_probe_req : SendEnv → List ℕ → SecureStream → Sent
  send_probe_req env gid = send_frame env udp_probe_req gid [] (negsuc 0)

  abbrev pub send_probe_resp : SendEnv → List ℕ → Address → SecureStream → Sent
  send_probe_resp env gid observed =
      send_with_meta env udp_probe_resp (build_udp_meta gid observed) []

-- The size of the next chunk of `n` bytes.
unfoldable pub chunk_size : Reader → ℕ → ℕ
chunk_size cut n =
    min
      (if ltb reshape_max n
        then reshape_min + secure_rand_intn cut (reshape_max - reshape_min + 1)
        else n)
      n

module _ (p : Primitives) where
  -- The loop of SendTCPData, on fuel; the i-th chunk meets `env i`. A payload of `n` bytes has at most
  -- `n` chunks, since none is empty.
  unfoldable pub send_chunks : ℕ → ℕ → (ℕ → SendEnv) → List ℕ → SecureStream → Sent
  send_chunks fuel i env [] s = (s, [], none)
  send_chunks zero i env (b ∷ bs) s = (s, [], some out_of_fuel)
  send_chunks (suc fuel) i env (b ∷ bs) s =
      let n = chunk_size (env i).cut (length (b ∷ bs)) in
      let (s', msgs, failure) = send_frame p (env i) tcp_data [] (take n (b ∷ bs)) (negsuc 0) s in
      let (s'', more, failure') = send_chunks fuel (suc i) env (drop n (b ∷ bs)) s' in
      elim failure [ some e ↦ (s', msgs, some e) | none ↦ (s'', msgs ++ more, failure') ]

  unfoldable pub send_tcp_data : (ℕ → SendEnv) → List ℕ → SecureStream → Sent
  send_tcp_data env payload s =
      if leb (length payload) reshape_threshold
      then send_frame p (env 0) tcp_data [] payload (negsuc 0) s
      else send_chunks (length payload) 0 env payload s

module _ (p : Primitives) where
  -- The event of a frame that was decoded, or the close.
  unfoldable pub deliver : SecureStream → DecodedFrame → SecureStream × Result Event
  deliver s fr = elim (event_of fr) [ err e ↦ (close s, err e) | ok ev ↦ (s, ok ev) ]

  -- Recv, where the transport's ReadMessage gives `message`.
  unfoldable pub recv_event : Result (List ℕ) → SecureStream → SecureStream × Result Event
  recv_event message s = if s.closed then (s, err closed_pipe) else (elim message [
    | err e ↦ (close s, err e)
    | ok wire ↦
        let (f, rest, r) = decode_frame p wire s.recv in
        elim r [
          | err e ↦ (close (record s { recv = f }), err e)
          | ok fr ↦
              deliver
                (record s {
                  recv = f;
                  bytes_in = (s.bytes_in + length wire) % 2 ^ 64;
                  frames_in = (s.frames_in + 1) % 2 ^ 64;
                })
                fr
        ]
  ])
